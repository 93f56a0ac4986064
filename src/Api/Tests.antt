-- ===== src/Api/Tests.antt =====
-- The theorems about ownership and messages at concrete plugins, containers and variables.
use nri.Base.{◌↔◌, none, ◌≡◌, refl, true, false, some, List, [], ◌∷◌, string_eq, nat_eq, arith}
use nri.Base.Map.{lookup, insert}
use nri.Base.Exec.{ok, err, conflict}
use nri.Api.Removal.{is_marked_for_removal, mark_for_removal}
use nri.Api.Field.{key, mounts, args, namespace, oci_hooks}
use nri.Api.Types.{KeyValue}
use nri.Api.PluginName.{
  parse_plugin_name, parsed, bad_name, bad_digits, full_name, check_plugin_index,
  parse_plugin_name_iff,
}
use nri.Api.Messages.{from_oci_env-to_oci, from_oci_env, to_oci, split_env_var, is_env_name}
use nri.Api.Owners.{
  FieldOwners, new_owning_plugins, new_field_owners, with_owners_for, must_owners_for, owners_for,
  claim_compound, check_owner, is_compound_conflict, compound_owner, simple_owner,
}
use nri.Api.Owners.Spec.{Place, compound, owned}
use nri.Api.Owners.Refines.{IsName, read_slot}
use nri.Api.Owners.Trace.{Call, claiming, clearing, call, run, spec_run, view_all, run-refines}
use nri.Api.Owners.Exclusive.{exclusive, claim-clear}
use nri.Api.Owners.Table.{FieldApi, field_api}
use nri.Api.Owners.Calls.{owner-claim_apart, namespace_owner-claim_namespace, claim_hooks-owner}
use nri.Api.Owners.FieldClaims
use nri.Api.Owners.FieldLookups
use nri.Api.Owners.Claims
use nri.Api.Owners.Lookups

abbrev etc : Place
etc = compound (key mounts) "/etc"

abbrev tmp : Place
tmp = compound (key mounts) "/tmp"

first-IsName : IsName "10-first"
unfolding is_marked_for_removal
first-IsName = refl

second-IsName : IsName "20-second"
unfolding is_marked_for_removal
second-IsName = refl

-- Two plugins work on the mounts of a container.
abbrev calls : List Call
calls = claiming "c0" tmp "20-second" ∷ clearing "c0" tmp "10-first" ∷ []

-- The first plugin gets a mount while the other works on another one.
granted_etc : (call (claiming "c0" etc "10-first") new_owning_plugins).0 ≡ ok tt
unfolding call with_owners_for must_owners_for owners_for claim_compound check_owner
    is_compound_conflict lookup insert
granted_etc = refl

exclusive_example :
    let o' = (run calls (call (claiming "c0" etc "10-first") new_owning_plugins).1).1 in
    (view_all o' "c0" etc ≡ owned "10-first")
    × ((call (claiming "c0" etc "20-second") o').0
        ≡ err (conflict (key mounts) "20-second" "10-first" ("/etc" ∷ [])))
exclusive_example =
    exclusive "c0" etc "10-first" "20-second" calls new_owning_plugins first-IsName
      (second-IsName, (first-IsName, tt)) (refl, (refl, tt)) granted_etc

run-refines_example :
    let o = (call (claiming "c0" etc "10-first") new_owning_plugins).1 in
    ((run calls o).0 ≡ (spec_run calls (view_all o)).0)
    × (view_all (run calls o).1 ≡ (spec_run calls (view_all o)).1)
run-refines_example =
    run-refines calls (call (claiming "c0" etc "10-first") new_owning_plugins).1
      (second-IsName, (first-IsName, tt))

claim-clear_example :
    (call
      (claiming "c0" etc "20-second")
      (call (clearing "c0" etc "10-first") new_owning_plugins).1).0
    ≡ err (conflict (key mounts) "20-second" "10-first" ("/etc" ∷ []))
claim-clear_example = claim-clear "c0" etc "10-first" "20-second" new_owning_plugins first-IsName

abbrev mount_api : FieldApi
mount_api = record { keyed = true; claim = Claims.claim_mount; owner = Lookups.mount_owner }

abbrev args_api : FieldApi
args_api = record {
  keyed = false;
  claim = λ id entry plugin. Claims.claim_args id plugin;
  owner = λ id entry. Lookups.args_owner id;
}

field_api-mounts : field_api mounts ≡ some mount_api
unfolding field_api
field_api-mounts = refl

field_api-args : field_api args ≡ some args_api
unfolding field_api
field_api-args = refl

granted_mount : (Claims.claim_mount "c0" "/etc" "10-first" new_owning_plugins).0 ≡ ok tt
unfolding Claims.claim_mount call with_owners_for must_owners_for owners_for claim_compound
    check_owner is_compound_conflict lookup insert
granted_mount = refl

owner-claim_apart_example :
    (Lookups.mount_owner "c0" "/etc"
        (Claims.claim_mount "c0" "/etc" "10-first" new_owning_plugins).1
      ≡ some "10-first")
    × (read_slot
          (Lookups.args_owner "c0" (Claims.claim_mount "c0" "/etc" "10-first" new_owning_plugins).1)
        ≡ read_slot (Lookups.args_owner "c0" new_owning_plugins))
owner-claim_apart_example =
    owner-claim_apart mounts args mount_api args_api "c0" "/etc" "10-first" "c0" ""
      new_owning_plugins field_api-mounts field_api-args (ground arith) first-IsName granted_mount

granted_namespace : (FieldClaims.claim_namespace "network" "10-first" new_field_owners).0 ≡ ok tt
unfolding FieldClaims.claim_namespace claim_compound check_owner is_compound_conflict lookup insert
granted_namespace = refl

namespace_owner-claim_namespace_example :
    let f' = some (FieldClaims.claim_namespace "network" "10-first" new_field_owners).1 in
    (compound_owner (key namespace) "network" f' ≡ some "10-first")
    × (FieldLookups.namespace_owner "network" f'
        ≡ FieldLookups.device_owner "network" (some new_field_owners))
namespace_owner-claim_namespace_example =
    namespace_owner-claim_namespace "network" "10-first" new_field_owners first-IsName
      granted_namespace

-- The first plugin has claimed the hooks already.
abbrev hooked : FieldOwners
hooked = record { simple = (key oci_hooks, "10-first") ∷ []; compound = [] }

claim_hooks-owner_example :
    simple_owner (key oci_hooks) (some (FieldClaims.claim_hooks "20-second" hooked).1)
    ≡ some (mark_for_removal "20-second")
unfolding simple_owner lookup
claim_hooks-owner_example = claim_hooks-owner "20-second" hooked

abbrev path : KeyValue
path = record { key = "PATH"; value = "/bin=/sbin" }

path_name : is_env_name path.key ≡ true
unfolding is_env_name
path_name = refl

from_oci_env-to_oci_example :
    (from_oci_env (to_oci path ∷ []) ≡ path ∷ from_oci_env [])
    × (split_env_var (to_oci path) ≡ ("PATH", "/bin=/sbin"))
from_oci_env-to_oci_example = from_oci_env-to_oci path [] path_name

parse_logger : parse_plugin_name "10-logger" ≡ parsed "10" "logger"
unfolding parse_plugin_name
parse_logger = refl

parse_letters : parse_plugin_name "1x-logger" ≡ bad_name bad_digits
unfolding parse_plugin_name
parse_letters = refl

parse_plugin_name_iff_example :
    (parse_plugin_name "10-logger" ≡ parsed "10" "logger")
    ↔ (("10-logger" ≡ full_name "10" "logger") × (check_plugin_index "10" ≡ none))
parse_plugin_name_iff_example = parse_plugin_name_iff "10-logger" "10" "logger"
