-- ===== src/Api/Owners/FieldClaims.antt =====
-- The methods of `FieldOwners` that claim and clear the single fields (pkg/api/owners.go).
use Prim.Native.String.{◌++◌ as str_append}
use nri.Base.{String, none, some}
use nri.Base.Exec.{Exec, ok}
use nri.Api.Field.{
  key, annotations, mounts, oci_hooks, devices, cdi_devices, env, args, mem_limit, mem_reservation,
  mem_swap_limit, mem_kernel_limit, mem_tcp_limit, mem_swappiness, mem_disable_oom_killer,
  mem_use_hierarchy, cpu_shares, cpu_quota, cpu_period, cpu_realtime_runtime, cpu_realtime_period,
  cpu_set_cpus, cpu_set_mems, pids_limit, hugepage_limits, blockio_class, rdt_class,
  cgroups_unified, cgroups_path, oom_score_adj, rlimits, io_priority, seccomp_policy, namespace,
  sysctl, linux_net_devices, linux_sched, rdt_clos_id, rdt_schemata, rdt_enable_monitoring,
}
use nri.Api.Owners.{
  FieldOwners, claim_simple, claim_compound, clear_simple, clear_compound, simple_owner,
}

unfoldable pub claim_annotation : String → String → Exec FieldOwners (Unit {0})
claim_annotation entry plugin = claim_compound (key annotations) entry plugin

unfoldable pub claim_mount : String → String → Exec FieldOwners (Unit {0})
claim_mount destination plugin = claim_compound (key mounts) destination plugin

unfoldable pub claim_device : String → String → Exec FieldOwners (Unit {0})
claim_device path plugin = claim_compound (key devices) path plugin

unfoldable pub claim_cdi_device : String → String → Exec FieldOwners (Unit {0})
claim_cdi_device name plugin = claim_compound (key cdi_devices) name plugin

unfoldable pub claim_namespace : String → String → Exec FieldOwners (Unit {0})
claim_namespace typ plugin = claim_compound (key namespace) typ plugin

unfoldable pub claim_env : String → String → Exec FieldOwners (Unit {0})
claim_env name plugin = claim_compound (key env) name plugin

unfoldable pub claim_args : String → Exec FieldOwners (Unit {0})
claim_args plugin = claim_simple (key args) plugin

unfoldable pub claim_mem_limit : String → Exec FieldOwners (Unit {0})
claim_mem_limit plugin = claim_simple (key mem_limit) plugin

unfoldable pub claim_mem_reservation : String → Exec FieldOwners (Unit {0})
claim_mem_reservation plugin = claim_simple (key mem_reservation) plugin

unfoldable pub claim_mem_swap_limit : String → Exec FieldOwners (Unit {0})
claim_mem_swap_limit plugin = claim_simple (key mem_swap_limit) plugin

unfoldable pub claim_mem_kernel_limit : String → Exec FieldOwners (Unit {0})
claim_mem_kernel_limit plugin = claim_simple (key mem_kernel_limit) plugin

unfoldable pub claim_mem_tcp_limit : String → Exec FieldOwners (Unit {0})
claim_mem_tcp_limit plugin = claim_simple (key mem_tcp_limit) plugin

unfoldable pub claim_mem_swappiness : String → Exec FieldOwners (Unit {0})
claim_mem_swappiness plugin = claim_simple (key mem_swappiness) plugin

unfoldable pub claim_mem_disable_oom_killer : String → Exec FieldOwners (Unit {0})
claim_mem_disable_oom_killer plugin = claim_simple (key mem_disable_oom_killer) plugin

unfoldable pub claim_mem_use_hierarchy : String → Exec FieldOwners (Unit {0})
claim_mem_use_hierarchy plugin = claim_simple (key mem_use_hierarchy) plugin

unfoldable pub claim_cpu_shares : String → Exec FieldOwners (Unit {0})
claim_cpu_shares plugin = claim_simple (key cpu_shares) plugin

unfoldable pub claim_cpu_quota : String → Exec FieldOwners (Unit {0})
claim_cpu_quota plugin = claim_simple (key cpu_quota) plugin

unfoldable pub claim_cpu_period : String → Exec FieldOwners (Unit {0})
claim_cpu_period plugin = claim_simple (key cpu_period) plugin

unfoldable pub claim_cpu_realtime_runtime : String → Exec FieldOwners (Unit {0})
claim_cpu_realtime_runtime plugin = claim_simple (key cpu_realtime_runtime) plugin

unfoldable pub claim_cpu_realtime_period : String → Exec FieldOwners (Unit {0})
claim_cpu_realtime_period plugin = claim_simple (key cpu_realtime_period) plugin

unfoldable pub claim_cpu_set_cpus : String → Exec FieldOwners (Unit {0})
claim_cpu_set_cpus plugin = claim_simple (key cpu_set_cpus) plugin

unfoldable pub claim_cpu_set_mems : String → Exec FieldOwners (Unit {0})
claim_cpu_set_mems plugin = claim_simple (key cpu_set_mems) plugin

unfoldable pub claim_pids_limit : String → Exec FieldOwners (Unit {0})
claim_pids_limit plugin = claim_simple (key pids_limit) plugin

unfoldable pub claim_hugepage_limit : String → String → Exec FieldOwners (Unit {0})
claim_hugepage_limit size plugin = claim_compound (key hugepage_limits) size plugin

unfoldable pub claim_blockio_class : String → Exec FieldOwners (Unit {0})
claim_blockio_class plugin = claim_simple (key blockio_class) plugin

unfoldable pub claim_rdt_class : String → Exec FieldOwners (Unit {0})
claim_rdt_class plugin = claim_simple (key rdt_class) plugin

unfoldable pub claim_rdt_clos_id : String → Exec FieldOwners (Unit {0})
claim_rdt_clos_id plugin = claim_simple (key rdt_clos_id) plugin

unfoldable pub claim_rdt_schemata : String → Exec FieldOwners (Unit {0})
claim_rdt_schemata plugin = claim_simple (key rdt_schemata) plugin

unfoldable pub claim_rdt_enable_monitoring : String → Exec FieldOwners (Unit {0})
claim_rdt_enable_monitoring plugin = claim_simple (key rdt_enable_monitoring) plugin

unfoldable pub claim_cgroups_unified : String → String → Exec FieldOwners (Unit {0})
claim_cgroups_unified entry plugin = claim_compound (key cgroups_unified) entry plugin

unfoldable pub claim_cgroups_path : String → Exec FieldOwners (Unit {0})
claim_cgroups_path plugin = claim_simple (key cgroups_path) plugin

unfoldable pub claim_oom_score_adj : String → Exec FieldOwners (Unit {0})
claim_oom_score_adj plugin = claim_simple (key oom_score_adj) plugin

unfoldable pub claim_linux_scheduler : String → Exec FieldOwners (Unit {0})
claim_linux_scheduler plugin = claim_simple (key linux_sched) plugin

unfoldable pub claim_rlimit : String → String → Exec FieldOwners (Unit {0})
claim_rlimit typ plugin = claim_compound (key rlimits) typ plugin

unfoldable pub claim_io_priority : String → Exec FieldOwners (Unit {0})
claim_io_priority plugin = claim_simple (key io_priority) plugin

unfoldable pub claim_seccomp_policy : String → Exec FieldOwners (Unit {0})
claim_seccomp_policy plugin = claim_simple (key seccomp_policy) plugin

unfoldable pub claim_sysctl : String → String → Exec FieldOwners (Unit {0})
claim_sysctl entry plugin = claim_compound (key sysctl) entry plugin

unfoldable pub claim_linux_net_device : String → String → Exec FieldOwners (Unit {0})
claim_linux_net_device path plugin = claim_compound (key linux_net_devices) path plugin

unfoldable pub clear_annotation : String → String → FieldOwners → FieldOwners
clear_annotation entry plugin = clear_compound (key annotations) entry plugin

unfoldable pub clear_mount : String → String → FieldOwners → FieldOwners
clear_mount destination plugin = clear_compound (key mounts) destination plugin

unfoldable pub clear_device : String → String → FieldOwners → FieldOwners
clear_device path plugin = clear_compound (key devices) path plugin

unfoldable pub clear_env : String → String → FieldOwners → FieldOwners
clear_env name plugin = clear_compound (key env) name plugin

unfoldable pub clear_args : String → FieldOwners → FieldOwners
clear_args plugin = clear_simple (key args) plugin

unfoldable pub clear_sysctl : String → String → FieldOwners → FieldOwners
clear_sysctl entry plugin = clear_compound (key sysctl) entry plugin

unfoldable pub clear_linux_net_device : String → String → FieldOwners → FieldOwners
clear_linux_net_device entry plugin = clear_compound (key linux_net_devices) entry plugin

-- A second claim of the hooks clears the record and claims it for both names, "current,plugin"; the
-- error of that claim is dropped.
unfoldable pub claim_hooks : String → Exec FieldOwners (Unit {0})
claim_hooks plugin f = elim (simple_owner (key oci_hooks) (some f)) [
  | none ↦ (ok tt, (claim_simple (key oci_hooks) plugin f).1)
  | some current ↦ (
    ok tt,
    (claim_simple (key oci_hooks) (str_append current (str_append "," plugin))
        (clear_simple (key oci_hooks) plugin f)).1,
  )
]

unfoldable pub clear_rdt : String → FieldOwners → FieldOwners
clear_rdt plugin f =
    clear_simple (key rdt_enable_monitoring) plugin
      (clear_simple (key rdt_schemata) plugin (clear_simple (key rdt_clos_id) plugin f))
