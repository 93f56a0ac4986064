-- ===== src/Adaptation/Tests.antt =====
-- The theorems about the collected result at a concrete container, plugins and answers.
mod Updates
mod Requests
use nri.Base.{
  String, ◌≡◌, ◌≢◌, refl, true, false, Option, none, some, List, [], ◌∷◌, string_eq, nat_eq, arith,
  ne_of_beq,
}
use nri.Base.Int.{pos}
use nri.Base.Map.{Map, lookup, insert, has_key}
use nri.Base.Exec.{for_each, ok, err, conflict}
use nri.Api.Removal.{is_marked_for_removal}
use nri.Api.Field.{key, mem_limit, args}
use nri.Api.Types.{
  Mount, LinuxDevice, KeyValue, Hook, Hooks, LinuxRdt, LinuxResources, Container, ContainerUpdate,
}
use nri.Api.Owners.{
  new_owning_plugins, with_owners_for, must_owners_for, owners_for, claim_simple, check_owner,
  is_simple_conflict,
}
use nri.Api.Owners.Spec.{simple, owned}
use nri.Api.Owners.Refines.{IsName}
use nri.Api.Owners.Trace.{claiming, call, view_all}
use nri.Api.Owners.Exclusive.{claimed-owned}
use nri.Api.Owners.Claims.{claim_mem_limit, claim_rdt_clos_id}
use nri.Adaptation.State.{Creation, no_resources, no_memory, no_hooks, collect_creation}
use nri.Adaptation.Lists.{adjust_mounts, adjust_devices, adjust_env}
use nri.Adaptation.Lists.Exclusive.{
  IsRange, MountsCollected, DevicesCollected, EnvCollected, adjust_mounts-MountsCollected,
  adjust_devices-EnvCollected,
}
use nri.Adaptation.Maps.{adjust_annotations, adjust_sysctl, unmarked_entries}
use nri.Adaptation.Maps.Removals.{OnlyMarks, removals-OnlyMarks, adjust_sysctl-ne-ok}
use nri.Adaptation.Settings.{
  adjust_args, adjust_hooks, append_hooks, adjust_rdt, rdt_or_nil, no_rdt,
}
use nri.Adaptation.Settings.Outcomes.{
  ArgsOutcome, adjust_args-ArgsOutcome, adjust_hooks_in_order, adjust_rdt_lem,
}
use nri.Adaptation.Adjust.{Ranges}
use nri.Adaptation.Limits.{
  adjust_resources, adjust_targets, at_memory, at_cpu, adjust_memory_resource, adjust_cpu_resource,
  set_limit, set_hugepage_limits, set_unified, set_blockio_class, set_rdt_class, set_pids,
}
use nri.Adaptation.Limits.Outcomes.{merge_resources, adjust_resources-merge}
use nri.Adaptation.Copy.{copy, copy_lem}
use nri.Adaptation.Update.{
  Result, Response, create_response, update_response, collect_create_container_result,
  collect_update_container_result, apply_all, update_resources, update_targets,
}
use nri.Adaptation.Update.Listed.{IsListed, reply_update-IsListed}
use nri.Adaptation.Update.Atomic.{
  SameButOwners, with_pids, updating, update_resources-err, update_resources-pids,
}

-- A container with an argument, before any plugin has answered.
abbrev box : Container
box = record {
  id = "c0";
  labels = [];
  annotations = ("keep", "yes") ∷ [];
  args = "sh" ∷ [];
  env = "PATH=/bin" ∷ [];
  mounts = [];
  hooks = none;
  linux = none;
  rlimits = [];
}

abbrev start : Creation
start = collect_creation box

first-IsName : IsName "10-first"
unfolding is_marked_for_removal
first-IsName = refl

second-IsName : IsName "20-second"
unfolding is_marked_for_removal
second-IsName = refl

abbrev etc_mount : String → Mount
etc_mount destination = record {
  destination = destination;
  type = "bind";
  source = "/src";
  options = [];
}

abbrev mount_answer : List Mount
mount_answer = etc_mount "-/tmp" ∷ etc_mount "/etc" ∷ []

start-MountsCollected : MountsCollected start
unfolding collect_creation
start-MountsCollected = (tt, tt)

identity-IsRange : IsRange (λ m. m)
identity-IsRange = λ P m h. h

adjust_mounts-MountsCollected_example :
    MountsCollected (adjust_mounts (λ m. m) mount_answer "10-first" start).1
adjust_mounts-MountsCollected_example =
    adjust_mounts-MountsCollected (λ m. m) mount_answer "10-first" start identity-IsRange
      first-IsName start-MountsCollected

abbrev null_device : LinuxDevice
null_device = record {
  path = "/dev/null";
  type = "c";
  major = pos 1;
  minor = pos 3;
  file_mode = none;
  uid = none;
  gid = none;
}

start-DevicesCollected : DevicesCollected start
unfolding collect_creation
start-DevicesCollected = (tt, tt)

abbrev variables : List KeyValue
variables = record { key = "-PATH"; value = "" } ∷ record { key = "HOME"; value = "/" } ∷ []

start-EnvCollected : EnvCollected start
unfolding collect_creation
start-EnvCollected = (tt, tt)

adjust_devices-EnvCollected_example :
    DevicesCollected (adjust_devices (null_device ∷ []) "10-first" start).1
    × EnvCollected (adjust_env variables "10-first" start).1
adjust_devices-EnvCollected_example =
    adjust_devices-EnvCollected (null_device ∷ []) variables "10-first" start first-IsName
      start-DevicesCollected start-EnvCollected

-- A limit on the memory.
abbrev limited : LinuxResources
limited = record {
  memory = some (record no_memory { limit = some (pos 4096) });
  cpu = none;
  hugepage_limits = [];
  blockio_class = none;
  rdt_class = none;
  unified = [];
  devices = [];
  pids = none;
}

limited_granted : (adjust_resources (some limited) "10-first" start).0 ≡ ok tt
unfolding adjust_resources adjust_targets collect_creation at_memory at_cpu adjust_memory_resource
    adjust_cpu_resource set_limit set_hugepage_limits set_unified set_blockio_class set_rdt_class
    set_pids for_each claim_mem_limit with_owners_for claim_simple lookup must_owners_for insert
    is_marked_for_removal
limited_granted = refl

adjust_resources-merge_example :
    let c' = (adjust_resources (some limited) "10-first" start).1 in
    (c'.container.linux.resources ≡ merge_resources limited start.container.linux.resources)
    × (c'.adjust.linux.resources ≡ merge_resources limited start.adjust.linux.resources)
adjust_resources-merge_example = adjust_resources-merge limited "10-first" start limited_granted

minus_marked : (is_marked_for_removal "-net").0 ≡ "net"
unfolding is_marked_for_removal
minus_marked = refl

minus_removal : (is_marked_for_removal "-net").1 ≡ true
unfolding is_marked_for_removal
minus_removal = refl

removals-OnlyMarks_example :
    let m : Map String String = ("-net", "") ∷ [] in
    ((adjust_annotations m "10-first" start).0 ≡ ok tt)
    × OnlyMarks (λ k. has_key k m) start (adjust_annotations m "10-first" start).1
    × ((adjust_sysctl m "10-first" start).0 ≡ ok tt)
    × OnlyMarks (λ k. has_key k m) start (adjust_sysctl m "10-first" start).1
removals-OnlyMarks_example =
    removals-OnlyMarks (("-net", "") ∷ []) "10-first" start (minus_removal, tt)

start_nil : start.adjust.linux.sysctl ≡ none
unfolding collect_creation
start_nil = refl

one_left : unmarked_entries {V = String} (("net", "1") ∷ []) ≢ []
unfolding unmarked_entries is_marked_for_removal
one_left = ground arith

adjust_sysctl-ne-ok_example : (adjust_sysctl (("net", "1") ∷ []) "10-first" start).0 ≢ ok tt
adjust_sysctl-ne-ok_example =
    adjust_sysctl-ne-ok (("net", "1") ∷ []) "10-first" start start_nil one_left

-- The arguments of the container belong to another plugin.
abbrev args_by_first : Creation
args_by_first = record start {
  owners = (call (claiming "c0" (simple (key args)) "10-first") new_owning_plugins).1;
}

args_granted : (call (claiming "c0" (simple (key args)) "10-first") new_owning_plugins).0 ≡ ok tt
unfolding call with_owners_for must_owners_for owners_for claim_simple check_owner
    is_simple_conflict lookup
args_granted = refl

args-owned :
    view_all args_by_first.owners args_by_first.container.id (simple (key args)) ≡ owned "10-first"
unfolding collect_creation
args-owned =
    claimed-owned "c0" (simple (key args)) "10-first" new_owning_plugins first-IsName args_granted

adjust_args-ArgsOutcome_example : ArgsOutcome "bash" [] "20-second" "10-first" args_by_first
adjust_args-ArgsOutcome_example =
    adjust_args-ArgsOutcome "bash" [] "20-second" "10-first" args_by_first second-IsName args-owned

abbrev hook : Hook
hook = record { path = "/bin/hook"; args = []; env = []; timeout = none }

abbrev some_hooks : Hooks
some_hooks = record no_hooks { prestart = hook ∷ [] }

start_hooks : start.container.hooks ≡ append_hooks no_hooks start.adjust.hooks
unfolding collect_creation append_hooks
start_hooks = refl

adjust_hooks_in_order_example :
    let (r, c') = adjust_hooks (some some_hooks) "10-first" start in
    (r ≡ ok tt) × (c'.container.hooks ≡ append_hooks no_hooks c'.adjust.hooks)
adjust_hooks_in_order_example =
    adjust_hooks_in_order no_hooks (some some_hooks) "10-first" start start_hooks

abbrev rdt_class : LinuxRdt
rdt_class = record no_rdt { clos_id = some "gold" }

rdt_granted : (adjust_rdt (some rdt_class) "10-first" start).0 ≡ ok tt
unfolding adjust_rdt claim_rdt_clos_id with_owners_for claim_simple lookup must_owners_for
    collect_creation
rdt_granted = refl

adjust_rdt_lem_example :
    (adjust_rdt (some rdt_class) "10-first" start).1.adjust.linux.rdt ≡ some rdt_class
unfolding collect_creation rdt_or_nil
adjust_rdt_lem_example = adjust_rdt_lem (some rdt_class) "10-first" start rdt_granted
