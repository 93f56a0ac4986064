-- ===== src/Api/Owners/Claims.antt =====
-- The methods of `OwningPlugins` that claim and clear the fields of a container (pkg/api/owners.go).
use nri.Base.{String}
use nri.Base.Exec.{Exec}
use nri.Api.Owners.{OwningPlugins, with_owners_for, clear_owners_for}
use nri.Api.Owners.FieldClaims

unfoldable pub claim_annotation : String → String → String → Exec OwningPlugins (Unit {0})
unfolding FieldClaims.claim_annotation
claim_annotation id entry plugin = with_owners_for id (FieldClaims.claim_annotation entry plugin)

unfoldable pub claim_mount : String → String → String → Exec OwningPlugins (Unit {0})
unfolding FieldClaims.claim_mount
claim_mount id destination plugin = with_owners_for id (FieldClaims.claim_mount destination plugin)

unfoldable pub claim_hooks : String → String → Exec OwningPlugins (Unit {0})
unfolding FieldClaims.claim_hooks
claim_hooks id plugin = with_owners_for id (FieldClaims.claim_hooks plugin)

unfoldable pub claim_device : String → String → String → Exec OwningPlugins (Unit {0})
unfolding FieldClaims.claim_device
claim_device id path plugin = with_owners_for id (FieldClaims.claim_device path plugin)

unfoldable pub claim_namespace : String → String → String → Exec OwningPlugins (Unit {0})
unfolding FieldClaims.claim_namespace
claim_namespace id typ plugin = with_owners_for id (FieldClaims.claim_namespace typ plugin)

unfoldable pub claim_cdi_device : String → String → String → Exec OwningPlugins (Unit {0})
unfolding FieldClaims.claim_cdi_device
claim_cdi_device id name plugin = with_owners_for id (FieldClaims.claim_cdi_device name plugin)

unfoldable pub claim_env : String → String → String → Exec OwningPlugins (Unit {0})
unfolding FieldClaims.claim_env
claim_env id name plugin = with_owners_for id (FieldClaims.claim_env name plugin)

unfoldable pub claim_args : String → String → Exec OwningPlugins (Unit {0})
unfolding FieldClaims.claim_args
claim_args id plugin = with_owners_for id (FieldClaims.claim_args plugin)

unfoldable pub claim_mem_limit : String → String → Exec OwningPlugins (Unit {0})
unfolding FieldClaims.claim_mem_limit
claim_mem_limit id plugin = with_owners_for id (FieldClaims.claim_mem_limit plugin)

unfoldable pub claim_mem_reservation : String → String → Exec OwningPlugins (Unit {0})
unfolding FieldClaims.claim_mem_reservation
claim_mem_reservation id plugin = with_owners_for id (FieldClaims.claim_mem_reservation plugin)

unfoldable pub claim_mem_swap_limit : String → String → Exec OwningPlugins (Unit {0})
unfolding FieldClaims.claim_mem_swap_limit
claim_mem_swap_limit id plugin = with_owners_for id (FieldClaims.claim_mem_swap_limit plugin)

unfoldable pub claim_mem_kernel_limit : String → String → Exec OwningPlugins (Unit {0})
unfolding FieldClaims.claim_mem_kernel_limit
claim_mem_kernel_limit id plugin = with_owners_for id (FieldClaims.claim_mem_kernel_limit plugin)

unfoldable pub claim_mem_tcp_limit : String → String → Exec OwningPlugins (Unit {0})
unfolding FieldClaims.claim_mem_tcp_limit
claim_mem_tcp_limit id plugin = with_owners_for id (FieldClaims.claim_mem_tcp_limit plugin)

unfoldable pub claim_mem_swappiness : String → String → Exec OwningPlugins (Unit {0})
unfolding FieldClaims.claim_mem_swappiness
claim_mem_swappiness id plugin = with_owners_for id (FieldClaims.claim_mem_swappiness plugin)

unfoldable pub claim_mem_disable_oom_killer : String → String → Exec OwningPlugins (Unit {0})
unfolding FieldClaims.claim_mem_disable_oom_killer
claim_mem_disable_oom_killer id plugin =
    with_owners_for id (FieldClaims.claim_mem_disable_oom_killer plugin)

unfoldable pub claim_mem_use_hierarchy : String → String → Exec OwningPlugins (Unit {0})
unfolding FieldClaims.claim_mem_use_hierarchy
claim_mem_use_hierarchy id plugin = with_owners_for id (FieldClaims.claim_mem_use_hierarchy plugin)

unfoldable pub claim_cpu_shares : String → String → Exec OwningPlugins (Unit {0})
unfolding FieldClaims.claim_cpu_shares
claim_cpu_shares id plugin = with_owners_for id (FieldClaims.claim_cpu_shares plugin)

unfoldable pub claim_cpu_quota : String → String → Exec OwningPlugins (Unit {0})
unfolding FieldClaims.claim_cpu_quota
claim_cpu_quota id plugin = with_owners_for id (FieldClaims.claim_cpu_quota plugin)

unfoldable pub claim_cpu_period : String → String → Exec OwningPlugins (Unit {0})
unfolding FieldClaims.claim_cpu_period
claim_cpu_period id plugin = with_owners_for id (FieldClaims.claim_cpu_period plugin)

unfoldable pub claim_cpu_realtime_runtime : String → String → Exec OwningPlugins (Unit {0})
unfolding FieldClaims.claim_cpu_realtime_runtime
claim_cpu_realtime_runtime id plugin =
    with_owners_for id (FieldClaims.claim_cpu_realtime_runtime plugin)

unfoldable pub claim_cpu_realtime_period : String → String → Exec OwningPlugins (Unit {0})
unfolding FieldClaims.claim_cpu_realtime_period
claim_cpu_realtime_period id plugin =
    with_owners_for id (FieldClaims.claim_cpu_realtime_period plugin)

unfoldable pub claim_cpu_set_cpus : String → String → Exec OwningPlugins (Unit {0})
unfolding FieldClaims.claim_cpu_set_cpus
claim_cpu_set_cpus id plugin = with_owners_for id (FieldClaims.claim_cpu_set_cpus plugin)

unfoldable pub claim_cpu_set_mems : String → String → Exec OwningPlugins (Unit {0})
unfolding FieldClaims.claim_cpu_set_mems
claim_cpu_set_mems id plugin = with_owners_for id (FieldClaims.claim_cpu_set_mems plugin)

unfoldable pub claim_pids_limit : String → String → Exec OwningPlugins (Unit {0})
unfolding FieldClaims.claim_pids_limit
claim_pids_limit id plugin = with_owners_for id (FieldClaims.claim_pids_limit plugin)

unfoldable pub claim_hugepage_limit : String → String → String → Exec OwningPlugins (Unit {0})
unfolding FieldClaims.claim_hugepage_limit
claim_hugepage_limit id size plugin =
    with_owners_for id (FieldClaims.claim_hugepage_limit size plugin)

unfoldable pub claim_blockio_class : String → String → Exec OwningPlugins (Unit {0})
unfolding FieldClaims.claim_blockio_class
claim_blockio_class id plugin = with_owners_for id (FieldClaims.claim_blockio_class plugin)

unfoldable pub claim_rdt_class : String → String → Exec OwningPlugins (Unit {0})
unfolding FieldClaims.claim_rdt_class
claim_rdt_class id plugin = with_owners_for id (FieldClaims.claim_rdt_class plugin)

unfoldable pub claim_rdt_clos_id : String → String → Exec OwningPlugins (Unit {0})
unfolding FieldClaims.claim_rdt_clos_id
claim_rdt_clos_id id plugin = with_owners_for id (FieldClaims.claim_rdt_clos_id plugin)

unfoldable pub claim_rdt_schemata : String → String → Exec OwningPlugins (Unit {0})
unfolding FieldClaims.claim_rdt_schemata
claim_rdt_schemata id plugin = with_owners_for id (FieldClaims.claim_rdt_schemata plugin)

unfoldable pub claim_rdt_enable_monitoring : String → String → Exec OwningPlugins (Unit {0})
unfolding FieldClaims.claim_rdt_enable_monitoring
claim_rdt_enable_monitoring id plugin =
    with_owners_for id (FieldClaims.claim_rdt_enable_monitoring plugin)

unfoldable pub claim_cgroups_unified : String → String → String → Exec OwningPlugins (Unit {0})
unfolding FieldClaims.claim_cgroups_unified
claim_cgroups_unified id entry plugin =
    with_owners_for id (FieldClaims.claim_cgroups_unified entry plugin)

unfoldable pub claim_cgroups_path : String → String → Exec OwningPlugins (Unit {0})
unfolding FieldClaims.claim_cgroups_path
claim_cgroups_path id plugin = with_owners_for id (FieldClaims.claim_cgroups_path plugin)

unfoldable pub claim_oom_score_adj : String → String → Exec OwningPlugins (Unit {0})
unfolding FieldClaims.claim_oom_score_adj
claim_oom_score_adj id plugin = with_owners_for id (FieldClaims.claim_oom_score_adj plugin)

unfoldable pub claim_linux_scheduler : String → String → Exec OwningPlugins (Unit {0})
unfolding FieldClaims.claim_linux_scheduler
claim_linux_scheduler id plugin = with_owners_for id (FieldClaims.claim_linux_scheduler plugin)

unfoldable pub claim_rlimit : String → String → String → Exec OwningPlugins (Unit {0})
unfolding FieldClaims.claim_rlimit
claim_rlimit id typ plugin = with_owners_for id (FieldClaims.claim_rlimit typ plugin)

unfoldable pub claim_io_priority : String → String → Exec OwningPlugins (Unit {0})
unfolding FieldClaims.claim_io_priority
claim_io_priority id plugin = with_owners_for id (FieldClaims.claim_io_priority plugin)

unfoldable pub claim_seccomp_policy : String → String → Exec OwningPlugins (Unit {0})
unfolding FieldClaims.claim_seccomp_policy
claim_seccomp_policy id plugin = with_owners_for id (FieldClaims.claim_seccomp_policy plugin)

unfoldable pub claim_sysctl : String → String → String → Exec OwningPlugins (Unit {0})
unfolding FieldClaims.claim_sysctl
claim_sysctl id entry plugin = with_owners_for id (FieldClaims.claim_sysctl entry plugin)

unfoldable pub claim_linux_net_device : String → String → String → Exec OwningPlugins (Unit {0})
unfolding FieldClaims.claim_linux_net_device
claim_linux_net_device id path plugin =
    with_owners_for id (FieldClaims.claim_linux_net_device path plugin)

unfoldable pub clear_annotation : String → String → String → OwningPlugins → OwningPlugins
unfolding FieldClaims.clear_annotation
clear_annotation id entry plugin = clear_owners_for id (FieldClaims.clear_annotation entry plugin)

unfoldable pub clear_mount : String → String → String → OwningPlugins → OwningPlugins
unfolding FieldClaims.clear_mount
clear_mount id entry plugin = clear_owners_for id (FieldClaims.clear_mount entry plugin)

unfoldable pub clear_device : String → String → String → OwningPlugins → OwningPlugins
unfolding FieldClaims.clear_device
clear_device id entry plugin = clear_owners_for id (FieldClaims.clear_device entry plugin)

unfoldable pub clear_env : String → String → String → OwningPlugins → OwningPlugins
unfolding FieldClaims.clear_env
clear_env id entry plugin = clear_owners_for id (FieldClaims.clear_env entry plugin)

unfoldable pub clear_args : String → String → OwningPlugins → OwningPlugins
unfolding FieldClaims.clear_args
clear_args id plugin = clear_owners_for id (FieldClaims.clear_args plugin)

unfoldable pub clear_sysctl : String → String → String → OwningPlugins → OwningPlugins
unfolding FieldClaims.clear_sysctl
clear_sysctl id entry plugin = clear_owners_for id (FieldClaims.clear_sysctl entry plugin)

unfoldable pub clear_linux_net_device : String → String → String → OwningPlugins → OwningPlugins
unfolding FieldClaims.clear_linux_net_device
clear_linux_net_device id path plugin =
    clear_owners_for id (FieldClaims.clear_linux_net_device path plugin)

unfoldable pub clear_rdt : String → String → OwningPlugins → OwningPlugins
unfolding FieldClaims.clear_rdt
clear_rdt id plugin = clear_owners_for id (FieldClaims.clear_rdt plugin)
