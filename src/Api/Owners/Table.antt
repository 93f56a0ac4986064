-- ===== src/Api/Owners/Table.antt =====
-- Every claim of `OwningPlugins` has its lookup, and the two work on the place of one field.
use nri.Base.{ℕ, String, ◌≡◌, refl, Bool, true, false, Option, some, if◌then◌else◌}
use nri.Base.Exec.{Exec}
use nri.Api.Field.{
  Field, key, oci_hooks, cdi_devices, annotations, args, blockio_class, cgroups_path,
  cgroups_unified, cpu_period, cpu_quota, cpu_realtime_period, cpu_realtime_runtime, cpu_set_cpus,
  cpu_set_mems, cpu_shares, devices, env, hugepage_limits, io_priority, linux_net_devices,
  linux_sched, mem_disable_oom_killer, mem_kernel_limit, mem_limit, mem_reservation, mem_swap_limit,
  mem_swappiness, mem_tcp_limit, mem_use_hierarchy, mounts, namespace, oom_score_adj, pids_limit,
  rdt_class, rdt_clos_id, rdt_enable_monitoring, rdt_schemata, rlimits, seccomp_policy, sysctl,
}
use nri.Api.Owners.{OwningPlugins}
use nri.Api.Owners.Spec.{Place, simple, compound}
use nri.Api.Owners.Refines.{view, read_slot}
use nri.Api.Owners.Trace.{claiming, call, view_all}
use nri.Api.Owners.Claims
use nri.Api.Owners.Lookups

-- A claim and the lookup of its owner. A field of its own has no entries.
pub record FieldApi : Type 0 where
  pub keyed : Bool
  pub claim : String → String → String → Exec OwningPlugins (Unit {0})
  pub owner : String → String → OwningPlugins → Option String

-- The place of an entry of the field with a number.
abbrev pub place : FieldApi → ℕ → String → Place
place a field entry = if a.keyed then compound field entry else simple field

abbrev simple_api :
    (String → String → Exec OwningPlugins (Unit {0}))
    → (String → OwningPlugins → Option String)
    → Option FieldApi
simple_api c o =
    some
      (record { keyed = false; claim = λ id entry plugin. c id plugin; owner = λ id entry. o id })

abbrev compound_api :
    (String → String → String → Exec OwningPlugins (Unit {0}))
    → (String → String → OwningPlugins → Option String)
    → Option FieldApi
compound_api c o = some (record { keyed = true; claim = c; owner = o })

-- The methods for each field. The hooks are claimed by several plugins, and the CDI devices have no
-- lookup.
unfoldable pub field_api : Field → Option FieldApi
unfolding Claims.claim_annotation Claims.claim_mount Claims.claim_device Claims.claim_namespace
    Claims.claim_env Claims.claim_args Claims.claim_mem_limit Claims.claim_mem_reservation
    Claims.claim_mem_swap_limit Claims.claim_mem_kernel_limit Claims.claim_mem_tcp_limit
    Claims.claim_mem_swappiness Claims.claim_mem_disable_oom_killer Claims.claim_mem_use_hierarchy
    Claims.claim_cpu_shares Claims.claim_cpu_quota Claims.claim_cpu_period
    Claims.claim_cpu_realtime_runtime Claims.claim_cpu_realtime_period Claims.claim_cpu_set_cpus
    Claims.claim_cpu_set_mems Claims.claim_pids_limit Claims.claim_hugepage_limit
    Claims.claim_blockio_class Claims.claim_rdt_class Claims.claim_rdt_clos_id
    Claims.claim_rdt_schemata Claims.claim_rdt_enable_monitoring Claims.claim_cgroups_unified
    Claims.claim_cgroups_path Claims.claim_oom_score_adj Claims.claim_linux_scheduler
    Claims.claim_rlimit Claims.claim_io_priority Claims.claim_seccomp_policy Claims.claim_sysctl
    Claims.claim_linux_net_device Lookups.annotation_owner Lookups.mount_owner Lookups.device_owner
    Lookups.namespace_owner Lookups.env_owner Lookups.args_owner Lookups.mem_limit_owner
    Lookups.mem_reservation_owner Lookups.mem_swap_limit_owner Lookups.mem_kernel_limit_owner
    Lookups.mem_tcp_limit_owner Lookups.mem_swappiness_owner Lookups.mem_disable_oom_killer_owner
    Lookups.mem_use_hierarchy_owner Lookups.cpu_shares_owner Lookups.cpu_quota_owner
    Lookups.cpu_period_owner Lookups.cpu_realtime_runtime_owner Lookups.cpu_realtime_period_owner
    Lookups.cpu_set_cpus_owner Lookups.cpu_set_mems_owner Lookups.pids_limit_owner
    Lookups.hugepage_limit_owner Lookups.blockio_class_owner Lookups.rdt_class_owner
    Lookups.rdt_clos_id_owner Lookups.rdt_schemata_owner Lookups.rdt_enable_monitoring_owner
    Lookups.cgroups_unified_owner Lookups.cgroups_path_owner Lookups.oom_score_adj_owner
    Lookups.linux_scheduler Lookups.rlimit_owner Lookups.io_priority_owner
    Lookups.seccomp_policy_owner Lookups.sysctl_owner Lookups.linux_net_device_owner
field_api Field.none = Option.none
field_api oci_hooks = Option.none
field_api cdi_devices = Option.none
field_api annotations = compound_api Claims.claim_annotation Lookups.annotation_owner
field_api mounts = compound_api Claims.claim_mount Lookups.mount_owner
field_api devices = compound_api Claims.claim_device Lookups.device_owner
field_api namespace = compound_api Claims.claim_namespace Lookups.namespace_owner
field_api env = compound_api Claims.claim_env Lookups.env_owner
field_api args = simple_api Claims.claim_args Lookups.args_owner
field_api mem_limit = simple_api Claims.claim_mem_limit Lookups.mem_limit_owner
field_api mem_reservation = simple_api Claims.claim_mem_reservation Lookups.mem_reservation_owner
field_api mem_swap_limit = simple_api Claims.claim_mem_swap_limit Lookups.mem_swap_limit_owner
field_api mem_kernel_limit = simple_api Claims.claim_mem_kernel_limit Lookups.mem_kernel_limit_owner
field_api mem_tcp_limit = simple_api Claims.claim_mem_tcp_limit Lookups.mem_tcp_limit_owner
field_api mem_swappiness = simple_api Claims.claim_mem_swappiness Lookups.mem_swappiness_owner
field_api mem_disable_oom_killer =
    simple_api Claims.claim_mem_disable_oom_killer Lookups.mem_disable_oom_killer_owner
field_api mem_use_hierarchy =
    simple_api Claims.claim_mem_use_hierarchy Lookups.mem_use_hierarchy_owner
field_api cpu_shares = simple_api Claims.claim_cpu_shares Lookups.cpu_shares_owner
field_api cpu_quota = simple_api Claims.claim_cpu_quota Lookups.cpu_quota_owner
field_api cpu_period = simple_api Claims.claim_cpu_period Lookups.cpu_period_owner
field_api cpu_realtime_runtime =
    simple_api Claims.claim_cpu_realtime_runtime Lookups.cpu_realtime_runtime_owner
field_api cpu_realtime_period =
    simple_api Claims.claim_cpu_realtime_period Lookups.cpu_realtime_period_owner
field_api cpu_set_cpus = simple_api Claims.claim_cpu_set_cpus Lookups.cpu_set_cpus_owner
field_api cpu_set_mems = simple_api Claims.claim_cpu_set_mems Lookups.cpu_set_mems_owner
field_api pids_limit = simple_api Claims.claim_pids_limit Lookups.pids_limit_owner
field_api hugepage_limits = compound_api Claims.claim_hugepage_limit Lookups.hugepage_limit_owner
field_api blockio_class = simple_api Claims.claim_blockio_class Lookups.blockio_class_owner
field_api rdt_class = simple_api Claims.claim_rdt_class Lookups.rdt_class_owner
field_api rdt_clos_id = simple_api Claims.claim_rdt_clos_id Lookups.rdt_clos_id_owner
field_api rdt_schemata = simple_api Claims.claim_rdt_schemata Lookups.rdt_schemata_owner
field_api rdt_enable_monitoring =
    simple_api Claims.claim_rdt_enable_monitoring Lookups.rdt_enable_monitoring_owner
field_api cgroups_unified = compound_api Claims.claim_cgroups_unified Lookups.cgroups_unified_owner
field_api cgroups_path = simple_api Claims.claim_cgroups_path Lookups.cgroups_path_owner
field_api oom_score_adj = simple_api Claims.claim_oom_score_adj Lookups.oom_score_adj_owner
field_api linux_sched = simple_api Claims.claim_linux_scheduler Lookups.linux_scheduler
field_api rlimits = compound_api Claims.claim_rlimit Lookups.rlimit_owner
field_api io_priority = simple_api Claims.claim_io_priority Lookups.io_priority_owner
field_api seccomp_policy = simple_api Claims.claim_seccomp_policy Lookups.seccomp_policy_owner
field_api sysctl = compound_api Claims.claim_sysctl Lookups.sysctl_owner
field_api linux_net_devices =
    compound_api Claims.claim_linux_net_device Lookups.linux_net_device_owner

-- What a pair of methods does is a claim and a lookup of the field's place.
abbrev pub IsAt : Field → Option FieldApi → Type 0
IsAt f Option.none = Unit
IsAt f (some a) =
    (id entry plugin : String) (o : OwningPlugins)
    → (a.claim id entry plugin o ≡ call (claiming id (place a (key f) entry) plugin) o)
      × (read_slot (a.owner id entry o) ≡ view_all o id (place a (key f) entry))

-- For every field but the hooks and the CDI devices, the claim of `OwningPlugins` claims the field's
-- own place, and its lookup reads that place.
pub field_api-IsAt : (f : Field) → IsAt f (field_api f)
unfolding field_api call view_all view
field_api-IsAt Field.none = tt
field_api-IsAt oci_hooks = tt
field_api-IsAt cdi_devices = tt
field_api-IsAt _ = λ _ _ _ _. (refl, refl)
