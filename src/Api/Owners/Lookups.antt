-- ===== src/Api/Owners/Lookups.antt =====
-- The methods of `OwningPlugins` that tell the owner of a container's field (pkg/api/owners.go).
use nri.Base.{String, Option}
use nri.Base.Map.{Map}
use nri.Api.Field.{
  key, annotations, mounts, oci_hooks, devices, env, args, mem_limit, mem_reservation,
  mem_swap_limit, mem_kernel_limit, mem_tcp_limit, mem_swappiness, mem_disable_oom_killer,
  mem_use_hierarchy, cpu_shares, cpu_quota, cpu_period, cpu_realtime_runtime, cpu_realtime_period,
  cpu_set_cpus, cpu_set_mems, pids_limit, hugepage_limits, blockio_class, rdt_class,
  cgroups_unified, cgroups_path, oom_score_adj, rlimits, io_priority, seccomp_policy, namespace,
  sysctl, linux_net_devices, linux_sched, rdt_clos_id, rdt_schemata, rdt_enable_monitoring,
}
use nri.Api.Owners.{OwningPlugins, owners_for, simple_owner, compound_owner, compound_owner_map}

unfoldable pub annotation_owner : String → String → OwningPlugins → Option String
annotation_owner id entry o = compound_owner (key annotations) entry (owners_for id o)

unfoldable pub mount_owner : String → String → OwningPlugins → Option String
mount_owner id destination o = compound_owner (key mounts) destination (owners_for id o)

unfoldable pub hooks_owner : String → OwningPlugins → Option String
hooks_owner id o = simple_owner (key oci_hooks) (owners_for id o)

unfoldable pub device_owner : String → String → OwningPlugins → Option String
device_owner id path o = compound_owner (key devices) path (owners_for id o)

unfoldable pub namespace_owner : String → String → OwningPlugins → Option String
namespace_owner id path o = compound_owner (key namespace) path (owners_for id o)

unfoldable pub namespace_owners : String → OwningPlugins → Option (Map String String)
namespace_owners id o = compound_owner_map (key namespace) (owners_for id o)

unfoldable pub env_owner : String → String → OwningPlugins → Option String
env_owner id name o = compound_owner (key env) name (owners_for id o)

unfoldable pub args_owner : String → OwningPlugins → Option String
args_owner id o = simple_owner (key args) (owners_for id o)

unfoldable pub mem_limit_owner : String → OwningPlugins → Option String
mem_limit_owner id o = simple_owner (key mem_limit) (owners_for id o)

unfoldable pub mem_reservation_owner : String → OwningPlugins → Option String
mem_reservation_owner id o = simple_owner (key mem_reservation) (owners_for id o)

unfoldable pub mem_swap_limit_owner : String → OwningPlugins → Option String
mem_swap_limit_owner id o = simple_owner (key mem_swap_limit) (owners_for id o)

unfoldable pub mem_kernel_limit_owner : String → OwningPlugins → Option String
mem_kernel_limit_owner id o = simple_owner (key mem_kernel_limit) (owners_for id o)

unfoldable pub mem_tcp_limit_owner : String → OwningPlugins → Option String
mem_tcp_limit_owner id o = simple_owner (key mem_tcp_limit) (owners_for id o)

unfoldable pub mem_swappiness_owner : String → OwningPlugins → Option String
mem_swappiness_owner id o = simple_owner (key mem_swappiness) (owners_for id o)

unfoldable pub mem_disable_oom_killer_owner : String → OwningPlugins → Option String
mem_disable_oom_killer_owner id o = simple_owner (key mem_disable_oom_killer) (owners_for id o)

unfoldable pub mem_use_hierarchy_owner : String → OwningPlugins → Option String
mem_use_hierarchy_owner id o = simple_owner (key mem_use_hierarchy) (owners_for id o)

unfoldable pub cpu_shares_owner : String → OwningPlugins → Option String
cpu_shares_owner id o = simple_owner (key cpu_shares) (owners_for id o)

unfoldable pub cpu_quota_owner : String → OwningPlugins → Option String
cpu_quota_owner id o = simple_owner (key cpu_quota) (owners_for id o)

unfoldable pub cpu_period_owner : String → OwningPlugins → Option String
cpu_period_owner id o = simple_owner (key cpu_period) (owners_for id o)

unfoldable pub cpu_realtime_runtime_owner : String → OwningPlugins → Option String
cpu_realtime_runtime_owner id o = simple_owner (key cpu_realtime_runtime) (owners_for id o)

unfoldable pub cpu_realtime_period_owner : String → OwningPlugins → Option String
cpu_realtime_period_owner id o = simple_owner (key cpu_realtime_period) (owners_for id o)

unfoldable pub cpu_set_cpus_owner : String → OwningPlugins → Option String
cpu_set_cpus_owner id o = simple_owner (key cpu_set_cpus) (owners_for id o)

unfoldable pub cpu_set_mems_owner : String → OwningPlugins → Option String
cpu_set_mems_owner id o = simple_owner (key cpu_set_mems) (owners_for id o)

unfoldable pub pids_limit_owner : String → OwningPlugins → Option String
pids_limit_owner id o = simple_owner (key pids_limit) (owners_for id o)

unfoldable pub hugepage_limit_owner : String → String → OwningPlugins → Option String
hugepage_limit_owner id size o = compound_owner (key hugepage_limits) size (owners_for id o)

unfoldable pub blockio_class_owner : String → OwningPlugins → Option String
blockio_class_owner id o = simple_owner (key blockio_class) (owners_for id o)

unfoldable pub rdt_class_owner : String → OwningPlugins → Option String
rdt_class_owner id o = simple_owner (key rdt_class) (owners_for id o)

unfoldable pub rdt_clos_id_owner : String → OwningPlugins → Option String
rdt_clos_id_owner id o = simple_owner (key rdt_clos_id) (owners_for id o)

unfoldable pub rdt_schemata_owner : String → OwningPlugins → Option String
rdt_schemata_owner id o = simple_owner (key rdt_schemata) (owners_for id o)

unfoldable pub rdt_enable_monitoring_owner : String → OwningPlugins → Option String
rdt_enable_monitoring_owner id o = simple_owner (key rdt_enable_monitoring) (owners_for id o)

unfoldable pub cgroups_unified_owner : String → String → OwningPlugins → Option String
cgroups_unified_owner id entry o = compound_owner (key cgroups_unified) entry (owners_for id o)

unfoldable pub cgroups_path_owner : String → OwningPlugins → Option String
cgroups_path_owner id o = simple_owner (key cgroups_path) (owners_for id o)

unfoldable pub oom_score_adj_owner : String → OwningPlugins → Option String
oom_score_adj_owner id o = simple_owner (key oom_score_adj) (owners_for id o)

unfoldable pub linux_scheduler : String → OwningPlugins → Option String
linux_scheduler id o = simple_owner (key linux_sched) (owners_for id o)

unfoldable pub rlimit_owner : String → String → OwningPlugins → Option String
rlimit_owner id typ o = compound_owner (key rlimits) typ (owners_for id o)

unfoldable pub io_priority_owner : String → OwningPlugins → Option String
io_priority_owner id o = simple_owner (key io_priority) (owners_for id o)

unfoldable pub seccomp_policy_owner : String → OwningPlugins → Option String
seccomp_policy_owner id o = simple_owner (key seccomp_policy) (owners_for id o)

unfoldable pub sysctl_owner : String → String → OwningPlugins → Option String
sysctl_owner id entry o = compound_owner (key sysctl) entry (owners_for id o)

unfoldable pub linux_net_device_owner : String → String → OwningPlugins → Option String
linux_net_device_owner id path o = compound_owner (key linux_net_devices) path (owners_for id o)
