-- ===== src/Adaptation/Lists.antt =====
-- The adjustments of lists (pkg/adaptation/result.go): mounts, devices, environment variables, CDI
-- devices, rlimits and namespaces. `owners` keeps the claims that were made before an error.
pub mod Exclusive
use nri.Base.{
  String, Bool, true, false, not, Option, none, some, List, [], ◌∷◌, ◌++◌, map, string_eq,
  if◌then◌else◌,
}
use nri.Base.Map.{Map, insert, delete, has_key}
use nri.Base.Exec.{Outcome, ok, err, Exec, for_each, gets, modify, ◌>>=◌, ◌>>◌}
use nri.Api.Types.{Mount, LinuxDevice, KeyValue, CdiDevice, PosixRlimit, LinuxNamespace}
use nri.Api.Removal.{clear_removal_marker}
use nri.Api.Messages.{namespace_is_marked, to_oci, split_env_var}
use nri.Api.Owners.{OwningPlugins}
use nri.Api.Owners.Claims.{
  claim_mount, clear_mount, claim_device, clear_device, claim_env, clear_env, claim_cdi_device,
  claim_rlimit, claim_namespace,
}
use nri.Adaptation.State.{Creation}
use nri.Adaptation.Entries.{Split, split, clear_removed, drop_changed, claim_added}

-- Removals with no addition of the same key.
unfoldable pub lone_removals : Map String Mount → List (String × Mount) → List Mount
lone_removals mod_ [] = []
lone_removals mod_ ((k, m) ∷ r) =
    let rest = lone_removals mod_ r in
    if has_key (clear_removal_marker m.destination) mod_ then rest else m ∷ rest

-- `range` is the order in which Go ranges over the map of the removals.
unfoldable pub adjust_mounts :
    (Map String Mount → List (String × Mount)) → List Mount → String → Exec Creation (Unit {0})
adjust_mounts range [] plugin c = (ok tt, c)
adjust_mounts range (m ∷ ms) plugin c =
    let id = c.container.id in
    let s = split Mount.destination (m ∷ ms) in
    let cleared =
      clear_removed Mount.destination (λ d. clear_mount id d plugin) s.del c.adjust.mounts
        c.owners in
    let kept = drop_changed Mount.destination s c.container.mounts in
    let claimed = claim_added Mount.destination (λ d. claim_mount id d plugin) s.add cleared in
    let list = claimed.1.0 in
    let owners = claimed.1.1 in
    elim claimed.0 [
      | ok _ ↦ (
        ok tt,
        record c {
          container = record c.container { mounts = kept ++ s.add };
          adjust = record c.adjust { mounts = list ++ lone_removals s.mod_ (range s.del) };
          owners = owners;
        },
      )
      | err e ↦ (
        err e,
        record c {
          container = record c.container { mounts = kept };
          adjust = record c.adjust { mounts = list };
          owners = owners;
        },
      )
    ]

unfoldable pub adjust_devices : List LinuxDevice → String → Exec Creation (Unit {0})
adjust_devices [] plugin c = (ok tt, c)
adjust_devices (d ∷ ds) plugin c =
    let id = c.container.id in
    let s = split LinuxDevice.path (d ∷ ds) in
    let cleared =
      clear_removed LinuxDevice.path (λ p. clear_device id p plugin) s.del c.adjust.linux.devices
        c.owners in
    let kept = drop_changed LinuxDevice.path s c.container.linux.devices in
    let claimed = claim_added LinuxDevice.path (λ p. claim_device id p plugin) s.add cleared in
    let adjust = record c.adjust { linux = record c.adjust.linux { devices = claimed.1.0 } } in
    elim claimed.0 [
      | ok _ ↦ (
        ok tt,
        record c {
          container = record c.container {
            linux = record c.container.linux { devices = kept ++ s.add };
          };
          adjust = adjust;
          owners = claimed.1.1;
        },
      )
      | err e ↦ (
        err e,
        record c {
          container = record c.container { linux = record c.container.linux { devices = kept } };
          adjust = adjust;
          owners = claimed.1.1;
        },
      )
    ]

unfoldable pub env_name : String → String
unfolding split_env_var
env_name e = (split_env_var e).0

unfoldable pub adjust_env : List KeyValue → String → Exec Creation (Unit {0})
adjust_env [] plugin c = (ok tt, c)
adjust_env (e ∷ es) plugin c =
    let id = c.container.id in
    let s = split KeyValue.key (e ∷ es) in
    let cleared =
      clear_removed KeyValue.key (λ k. clear_env id k plugin) s.del c.adjust.env c.owners in
    let kept = drop_changed env_name s c.container.env in
    let claimed = claim_added KeyValue.key (λ k. claim_env id k plugin) s.add cleared in
    let adjust = record c.adjust { env = claimed.1.0 } in
    elim claimed.0 [
      | ok _ ↦ (
        ok tt,
        record c {
          container = record c.container { env = kept ++ map to_oci s.add };
          adjust = adjust;
          owners = claimed.1.1;
        },
      )
      | err e ↦ (
        err e,
        record c {
          container = record c.container { env = kept };
          adjust = adjust;
          owners = claimed.1.1;
        },
      )
    ]

-- `if err := r.owners.Claim…; err != nil { return err }`, within an adjustment.
abbrev pub owning : Exec OwningPlugins (Unit {0}) → Exec Creation (Unit {0})
owning op c = let (r, o) = op c.owners in (r, record c { owners = o })

unfoldable pub adjust_cdi_devices : List CdiDevice → String → Exec Creation (Unit {0})
adjust_cdi_devices devices plugin = for_each devices λ d. do
  id ← gets (λ c. c.container.id)
  owning (claim_cdi_device id d.name plugin)
  modify
      (λ c. record c { adjust = record c.adjust { cdi_devices = c.adjust.cdi_devices ++ d ∷ [] } })

unfoldable pub adjust_rlimits : List PosixRlimit → String → Exec Creation (Unit {0})
adjust_rlimits rlimits plugin = for_each rlimits λ l. do
  id ← gets (λ c. c.container.id)
  owning (claim_rlimit id l.type plugin)
  modify (λ c. record c {
    container = record c.container { rlimits = c.container.rlimits ++ l ∷ [] };
    adjust = record c.adjust { rlimits = c.adjust.rlimits ++ l ∷ [] };
  })

namespace_map : List LinuxNamespace → Map String LinuxNamespace → Map String LinuxNamespace
namespace_map [] m = m
namespace_map (n ∷ ns) m = namespace_map ns (insert n.type n m)

-- The loop of `adjustNamespaces`; the map of the container's namespaces is returned beside the
-- outcome.
adjust_namespace :
    String
    → List (Option LinuxNamespace)
    → Map String LinuxNamespace
    → Creation
    → Outcome (Map String LinuxNamespace) × Creation
adjust_namespace plugin [] m c = (ok m, c)
adjust_namespace plugin (none ∷ ns) m c = adjust_namespace plugin ns m c
adjust_namespace plugin (some n ∷ ns) m c =
    let (key, marked) = namespace_is_marked n in
    let claimed = owning (claim_namespace c.container.id key plugin) c in
    let c' = record claimed.1 {
      adjust = record claimed.1.adjust {
        linux = record claimed.1.adjust.linux {
          namespaces = claimed.1.adjust.linux.namespaces ++ n ∷ [];
        };
      };
    } in
    let rest = adjust_namespace plugin ns (if marked then delete key m else insert key n m) c' in
    elim claimed.0 [ ok _ ↦ rest | err e ↦ (err e, claimed.1) ]

-- `range` is the order in which `maps.Values` goes through the map.
unfoldable pub adjust_namespaces :
    (Map String LinuxNamespace → List LinuxNamespace)
    → List (Option LinuxNamespace)
    → String
    → Exec Creation (Unit {0})
unfolding adjust_namespace namespace_map
adjust_namespaces range [] plugin c = (ok tt, c)
adjust_namespaces range (n ∷ ns) plugin c =
    let done = adjust_namespace plugin (n ∷ ns) (namespace_map c.container.linux.namespaces []) c in
    elim done.0 [
      | ok m ↦ (
        ok tt,
        record done.1 {
          container = record done.1.container {
            linux = record done.1.container.linux { namespaces = range m };
          };
        },
      )
      | err e ↦ (err e, done.1)
    ]
