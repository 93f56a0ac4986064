-- ===== src/Adaptation/State.antt =====
-- The state that `result` of pkg/adaptation/result.go keeps while the plugins answer, and how it is made
-- from a request. A collected record has no nil pointer where the code has set one: the runtime's
-- message has an `Option` there.
use nri.Base.{String, Option, none, some, List, []}
use nri.Base.Map.{Map}
use nri.Base.Int.{ℤ}
use nri.Api.Types.{
  Mount, KeyValue, Hooks, LinuxDevice, LinuxNamespace, LinuxNetDevice, LinuxDeviceCgroup, CdiDevice,
  PosixRlimit, LinuxMemory, LinuxCpu, HugepageLimit, LinuxPids, LinuxResources, LinuxIoPriority,
  LinuxSeccomp, LinuxScheduler, LinuxRdt, LinuxContainer, Container,
}
use nri.Api.Owners.{OwningPlugins, new_owning_plugins}

-- `LinuxResources` with its `Memory` and `Cpu` set.
pub record Resources : Type 0 where
  pub memory : LinuxMemory
  pub cpu : LinuxCpu
  pub hugepage_limits : List HugepageLimit
  pub blockio_class : Option String
  pub rdt_class : Option String
  pub unified : Map String String
  pub devices : List LinuxDeviceCgroup
  pub pids : Option LinuxPids

-- `Container.Linux` with its `Resources` set; `sysctl` may still be nil.
pub record CollectedLinux : Type 0 where
  pub namespaces : List LinuxNamespace
  pub devices : List LinuxDevice
  pub resources : Resources
  pub oom_score_adj : Option ℤ
  pub cgroups_path : String
  pub io_priority : Option LinuxIoPriority
  pub seccomp_policy : Option LinuxSeccomp
  pub sysctl : Option (Map String String)
  pub net_devices : Map String (Option LinuxNetDevice)
  pub scheduler : Option LinuxScheduler

-- `request.create.Container`, the container as the next plugin sees it.
pub record CollectedContainer : Type 0 where
  pub id : String
  pub labels : Map String String
  pub annotations : Map String String
  pub args : List String
  pub env : List String
  pub mounts : List Mount
  pub hooks : Hooks
  pub linux : CollectedLinux
  pub rlimits : List PosixRlimit

-- `reply.adjust.Linux`; `sysctl` may be nil.
pub record AdjustmentLinux : Type 0 where
  pub devices : List LinuxDevice
  pub resources : Resources
  pub cgroups_path : String
  pub oom_score_adj : Option ℤ
  pub io_priority : Option LinuxIoPriority
  pub seccomp_policy : Option LinuxSeccomp
  pub namespaces : List LinuxNamespace
  pub sysctl : Option (Map String String)
  pub net_devices : Map String (Option LinuxNetDevice)
  pub scheduler : Option LinuxScheduler
  pub rdt : Option LinuxRdt

-- `reply.adjust`, the adjustment that the runtime gets.
pub record Adjustment : Type 0 where
  pub annotations : Map String String
  pub mounts : List Mount
  pub env : List KeyValue
  pub hooks : Hooks
  pub rlimits : List PosixRlimit
  pub cdi_devices : List CdiDevice
  pub args : List String
  pub linux : AdjustmentLinux

-- What the adjustments of a creation work on: `request.create.Container`, `reply.adjust`, `owners`.
pub record Creation : Type 0 where
  pub container : CollectedContainer
  pub adjust : Adjustment
  pub owners : OwningPlugins

abbrev pub no_memory : LinuxMemory
no_memory = record {
  limit = none;
  reservation = none;
  swap = none;
  kernel = none;
  kernel_tcp = none;
  swappiness = none;
  disable_oom_killer = none;
  use_hierarchy = none;
}

abbrev pub no_cpu : LinuxCpu
no_cpu = record {
  shares = none;
  quota = none;
  period = none;
  realtime_runtime = none;
  realtime_period = none;
  cpus = "";
  mems = "";
}

abbrev pub no_hooks : Hooks
no_hooks = record {
  prestart = [];
  create_runtime = [];
  create_container = [];
  start_container = [];
  poststart = [];
  poststop = [];
}

abbrev pub no_resources : Resources
no_resources = record {
  memory = no_memory;
  cpu = no_cpu;
  hugepage_limits = [];
  blockio_class = none;
  rdt_class = none;
  unified = [];
  devices = [];
  pids = none;
}

-- The adjustment that `collectCreateContainerResult` starts from.
abbrev pub empty_adjustment : Adjustment
empty_adjustment = record {
  annotations = [];
  mounts = [];
  env = [];
  hooks = no_hooks;
  rlimits = [];
  cdi_devices = [];
  args = [];
  linux = record {
    devices = [];
    resources = no_resources;
    cgroups_path = "";
    oom_score_adj = none;
    io_priority = none;
    seccomp_policy = none;
    namespaces = [];
    sysctl = none;
    net_devices = [];
    scheduler = none;
    rdt = none;
  };
}

abbrev pub or_else {ℓ} : {A : Type ℓ} → Option A → A → A
or_else none d = d
or_else (some a) d = a

-- The resources with their nil pointers set.
unfoldable pub collect_resources : LinuxResources → Resources
collect_resources r = record {
  memory = or_else r.memory no_memory;
  cpu = or_else r.cpu no_cpu;
  hugepage_limits = r.hugepage_limits;
  blockio_class = r.blockio_class;
  rdt_class = r.rdt_class;
  unified = r.unified;
  devices = r.devices;
  pids = r.pids;
}

collect_linux : LinuxContainer → CollectedLinux
unfolding collect_resources
collect_linux l = record {
  namespaces = l.namespaces;
  devices = l.devices;
  resources = elim l.resources [ none ↦ no_resources | some r ↦ collect_resources r ];
  oom_score_adj = l.oom_score_adj;
  cgroups_path = l.cgroups_path;
  io_priority = l.io_priority;
  seccomp_policy = l.seccomp_policy;
  sysctl = l.sysctl;
  net_devices = l.net_devices;
  scheduler = l.scheduler;
}

abbrev no_linux : LinuxContainer
no_linux = record {
  namespaces = [];
  devices = [];
  resources = none;
  oom_score_adj = none;
  cgroups_path = "";
  io_priority = none;
  seccomp_policy = none;
  sysctl = none;
  net_devices = [];
  scheduler = none;
}

unfoldable pub collect_container : Container → CollectedContainer
unfolding collect_linux
collect_container c = record {
  id = c.id;
  labels = c.labels;
  annotations = c.annotations;
  args = c.args;
  env = c.env;
  mounts = c.mounts;
  hooks = or_else c.hooks no_hooks;
  linux = collect_linux (or_else c.linux no_linux);
  rlimits = c.rlimits;
}

-- `collectCreateContainerResult`
unfoldable pub collect_creation : Container → Creation
unfolding collect_container
collect_creation c = record {
  container = collect_container c;
  adjust = empty_adjustment;
  owners = new_owning_plugins;
}

-- The container's id and a call of the owners' API, from within an adjustment.
abbrev pub with_owners : (OwningPlugins → OwningPlugins) → Creation → Creation
with_owners f c = record c { owners = f c.owners }
