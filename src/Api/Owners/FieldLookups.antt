-- ===== src/Api/Owners/FieldLookups.antt =====
-- The methods of `FieldOwners` that tell the owner of a field (pkg/api/owners.go).
use nri.Base.{String, Option}
use nri.Api.Field.{
  key, annotations, mounts, devices, env, args, mem_limit, mem_reservation, mem_swap_limit,
  mem_kernel_limit, mem_tcp_limit, mem_swappiness, mem_disable_oom_killer, mem_use_hierarchy,
  cpu_shares, cpu_quota, cpu_period, cpu_realtime_runtime, cpu_realtime_period, cpu_set_cpus,
  cpu_set_mems, pids_limit, hugepage_limits, blockio_class, rdt_class, cgroups_unified,
  cgroups_path, oom_score_adj, rlimits, rdt_schemata, rdt_enable_monitoring,
}
use nri.Api.Owners.{FieldOwners, simple_owner, compound_owner}

unfoldable pub annotation_owner : String → Option FieldOwners → Option String
annotation_owner entry = compound_owner (key annotations) entry

unfoldable pub mount_owner : String → Option FieldOwners → Option String
mount_owner destination = compound_owner (key mounts) destination

unfoldable pub device_owner : String → Option FieldOwners → Option String
device_owner path = compound_owner (key devices) path

unfoldable pub namespace_owner : String → Option FieldOwners → Option String
namespace_owner typ = compound_owner (key devices) typ

unfoldable pub env_owner : String → Option FieldOwners → Option String
env_owner name = compound_owner (key env) name

unfoldable pub args_owner : Option FieldOwners → Option String
args_owner = simple_owner (key args)

unfoldable pub mem_limit_owner : Option FieldOwners → Option String
mem_limit_owner = simple_owner (key mem_limit)

unfoldable pub mem_reservation_owner : Option FieldOwners → Option String
mem_reservation_owner = simple_owner (key mem_reservation)

unfoldable pub mem_swap_limit_owner : Option FieldOwners → Option String
mem_swap_limit_owner = simple_owner (key mem_swap_limit)

unfoldable pub mem_kernel_limit_owner : Option FieldOwners → Option String
mem_kernel_limit_owner = simple_owner (key mem_kernel_limit)

unfoldable pub mem_tcp_limit_owner : Option FieldOwners → Option String
mem_tcp_limit_owner = simple_owner (key mem_tcp_limit)

unfoldable pub mem_swappiness_owner : Option FieldOwners → Option String
mem_swappiness_owner = simple_owner (key mem_swappiness)

unfoldable pub mem_disable_oom_killer_owner : Option FieldOwners → Option String
mem_disable_oom_killer_owner = simple_owner (key mem_disable_oom_killer)

unfoldable pub mem_use_hierarchy_owner : Option FieldOwners → Option String
mem_use_hierarchy_owner = simple_owner (key mem_use_hierarchy)

unfoldable pub cpu_shares_owner : Option FieldOwners → Option String
cpu_shares_owner = simple_owner (key cpu_shares)

unfoldable pub cpu_quota_owner : Option FieldOwners → Option String
cpu_quota_owner = simple_owner (key cpu_quota)

unfoldable pub cpu_period_owner : Option FieldOwners → Option String
cpu_period_owner = simple_owner (key cpu_period)

unfoldable pub cpu_realtime_runtime_owner : Option FieldOwners → Option String
cpu_realtime_runtime_owner = simple_owner (key cpu_realtime_runtime)

unfoldable pub cpu_realtime_period_owner : Option FieldOwners → Option String
cpu_realtime_period_owner = simple_owner (key cpu_realtime_period)

unfoldable pub cpu_set_cpus_owner : Option FieldOwners → Option String
cpu_set_cpus_owner = simple_owner (key cpu_set_cpus)

unfoldable pub cpu_set_mems_owner : Option FieldOwners → Option String
cpu_set_mems_owner = simple_owner (key cpu_set_mems)

unfoldable pub pids_limit_owner : Option FieldOwners → Option String
pids_limit_owner = simple_owner (key pids_limit)

unfoldable pub hugepage_limit_owner : String → Option FieldOwners → Option String
hugepage_limit_owner size = compound_owner (key hugepage_limits) size

unfoldable pub blockio_class_owner : Option FieldOwners → Option String
blockio_class_owner = simple_owner (key blockio_class)

unfoldable pub rdt_class_owner : Option FieldOwners → Option String
rdt_class_owner = simple_owner (key rdt_class)

unfoldable pub rdt_schemata_owner : Option FieldOwners → Option String
rdt_schemata_owner = simple_owner (key rdt_schemata)

unfoldable pub rdt_enable_monitoring_owner : Option FieldOwners → Option String
rdt_enable_monitoring_owner = simple_owner (key rdt_enable_monitoring)

unfoldable pub cgroups_unified_owner : String → Option FieldOwners → Option String
cgroups_unified_owner entry = compound_owner (key cgroups_unified) entry

unfoldable pub cgroups_path_owner : Option FieldOwners → Option String
cgroups_path_owner = simple_owner (key cgroups_path)

unfoldable pub oom_score_adj_owner : Option FieldOwners → Option String
oom_score_adj_owner = simple_owner (key oom_score_adj)

unfoldable pub rlimit_owner : String → Option FieldOwners → Option String
rlimit_owner typ = compound_owner (key rlimits) typ
