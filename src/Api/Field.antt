-- ===== src/Api/Field.antt =====
-- The enumeration `Field` of pkg/api: what a plugin can own. The protobuf compiler generates it into
-- pkg/api/api.pb.go; `Field.Key` is in pkg/api/owners.go.
use nri.Base.{ℕ}

pub data Field : Type 0 where
  none annotations mounts oci_hooks devices : Field
  cdi_devices env args mem_limit mem_reservation : Field
  mem_swap_limit mem_kernel_limit mem_tcp_limit mem_swappiness mem_disable_oom_killer : Field
  mem_use_hierarchy cpu_shares cpu_quota cpu_period cpu_realtime_runtime : Field
  cpu_realtime_period cpu_set_cpus cpu_set_mems pids_limit hugepage_limits : Field
  blockio_class rdt_class cgroups_unified cgroups_path oom_score_adj : Field
  rlimits io_priority seccomp_policy namespace sysctl : Field
  linux_net_devices linux_sched rdt_clos_id rdt_schemata rdt_enable_monitoring : Field

abbrev pub key : Field → ℕ
key none = 0
key annotations = 1
key mounts = 2
key oci_hooks = 3
key devices = 4
key cdi_devices = 5
key env = 6
key args = 7
key mem_limit = 8
key mem_reservation = 9
key mem_swap_limit = 10
key mem_kernel_limit = 11
key mem_tcp_limit = 12
key mem_swappiness = 13
key mem_disable_oom_killer = 14
key mem_use_hierarchy = 15
key cpu_shares = 16
key cpu_quota = 17
key cpu_period = 18
key cpu_realtime_runtime = 19
key cpu_realtime_period = 20
key cpu_set_cpus = 21
key cpu_set_mems = 22
key pids_limit = 23
key hugepage_limits = 24
key blockio_class = 25
key rdt_class = 26
key cgroups_unified = 27
key cgroups_path = 28
key oom_score_adj = 29
key rlimits = 30
key io_priority = 31
key seccomp_policy = 32
key namespace = 33
key sysctl = 34
key linux_net_devices = 35
key linux_sched = 36
key rdt_clos_id = 37
key rdt_schemata = 38
key rdt_enable_monitoring = 39
