-- ===== src/Api/Types.antt =====
-- The messages of pkg/api that plugins and the runtime exchange (generated from pkg/api/api.proto).
-- `Option` stands for what may be nil; a nil slice and a nil map are empty ones, but where the code
-- writes to a map that may be nil. Of the messages, the fields are given that the modelled code reads
-- or writes.
use nri.Base.{ℕ, String, Bool, Option, List}
use nri.Base.Int.{ℤ}
use nri.Base.Map.{Map}

pub record Mount : Type 0 where
  pub destination : String
  pub type : String
  pub source : String
  pub options : List String

pub record KeyValue : Type 0 where
  pub key : String
  pub value : String

pub record Hook : Type 0 where
  pub path : String
  pub args : List String
  pub env : List String
  pub timeout : Option ℤ

pub record Hooks : Type 0 where
  pub prestart : List Hook
  pub create_runtime : List Hook
  pub create_container : List Hook
  pub start_container : List Hook
  pub poststart : List Hook
  pub poststop : List Hook

pub record LinuxDevice : Type 0 where
  pub path : String
  pub type : String
  pub major : ℤ
  pub minor : ℤ
  pub file_mode : Option ℕ
  pub uid : Option ℕ
  pub gid : Option ℕ

pub record LinuxNamespace : Type 0 where
  pub type : String
  pub path : String

pub record LinuxNetDevice : Type 0 where
  pub name : String

pub record LinuxDeviceCgroup : Type 0 where
  pub allow : Bool
  pub type : String
  pub major : Option ℤ
  pub minor : Option ℤ
  pub access : String

pub record CdiDevice : Type 0 where
  pub name : String

pub record PosixRlimit : Type 0 where
  pub type : String
  pub hard : ℕ
  pub soft : ℕ

pub record LinuxMemory : Type 0 where
  pub limit : Option ℤ
  pub reservation : Option ℤ
  pub swap : Option ℤ
  pub kernel : Option ℤ
  pub kernel_tcp : Option ℤ
  pub swappiness : Option ℕ
  pub disable_oom_killer : Option Bool
  pub use_hierarchy : Option Bool

pub record LinuxCpu : Type 0 where
  pub shares : Option ℕ
  pub quota : Option ℤ
  pub period : Option ℕ
  pub realtime_runtime : Option ℤ
  pub realtime_period : Option ℕ
  pub cpus : String
  pub mems : String

pub record HugepageLimit : Type 0 where
  pub page_size : String
  pub limit : ℕ

pub record LinuxPids : Type 0 where
  pub limit : ℤ

pub record LinuxResources : Type 0 where
  pub memory : Option LinuxMemory
  pub cpu : Option LinuxCpu
  pub hugepage_limits : List HugepageLimit
  pub blockio_class : Option String
  pub rdt_class : Option String
  pub unified : Map String String
  pub devices : List LinuxDeviceCgroup
  pub pids : Option LinuxPids

pub record LinuxIoPriority : Type 0 where
  pub class : ℕ
  pub priority : ℤ

pub record LinuxSeccompArg : Type 0 where
  pub index : ℕ
  pub value : ℕ
  pub value_two : ℕ
  pub op : String

pub record LinuxSyscall : Type 0 where
  pub names : List String
  pub action : String
  pub errno_ret : Option ℕ
  pub args : List LinuxSeccompArg

pub record LinuxSeccomp : Type 0 where
  pub default_action : String
  pub default_errno : Option ℕ
  pub architectures : List String
  pub flags : List String
  pub listener_path : String
  pub listener_metadata : String
  pub syscalls : List LinuxSyscall

pub record LinuxScheduler : Type 0 where
  pub policy : ℕ
  pub nice : ℤ
  pub priority : ℤ
  pub flags : List ℕ
  pub runtime : ℕ
  pub deadline : ℕ
  pub period : ℕ

pub record LinuxRdt : Type 0 where
  pub clos_id : Option String
  pub schemata : Option (List String)
  pub enable_monitoring : Option Bool
  pub remove : Bool

-- What a plugin answers to the creation of a container.
pub record LinuxContainerAdjustment : Type 0 where
  pub devices : List LinuxDevice
  pub resources : Option LinuxResources
  pub cgroups_path : String
  pub oom_score_adj : Option ℤ
  pub io_priority : Option LinuxIoPriority
  pub seccomp_policy : Option LinuxSeccomp
  pub namespaces : List (Option LinuxNamespace)
  pub sysctl : Map String String
  pub net_devices : Map String (Option LinuxNetDevice)
  pub scheduler : Option LinuxScheduler
  pub rdt : Option LinuxRdt

pub record ContainerAdjustment : Type 0 where
  pub annotations : Map String String
  pub mounts : List Mount
  pub env : List KeyValue
  pub hooks : Option Hooks
  pub linux : Option LinuxContainerAdjustment
  pub rlimits : List PosixRlimit
  pub cdi_devices : List CdiDevice
  pub args : List String

-- What a plugin asks to be changed in an existing container; `resources` is `Linux.Resources`, and
-- `none` where `Linux` or its `Resources` is nil.
pub record ContainerUpdate : Type 0 where
  pub container_id : String
  pub resources : Option LinuxResources
  pub ignore_failure : Bool

-- The container of a request, as the runtime sends it.
pub record LinuxContainer : Type 0 where
  pub namespaces : List LinuxNamespace
  pub devices : List LinuxDevice
  pub resources : Option LinuxResources
  pub oom_score_adj : Option ℤ
  pub cgroups_path : String
  pub io_priority : Option LinuxIoPriority
  pub seccomp_policy : Option LinuxSeccomp
  pub sysctl : Option (Map String String)
  pub net_devices : Map String (Option LinuxNetDevice)
  pub scheduler : Option LinuxScheduler

pub record Container : Type 0 where
  pub id : String
  pub labels : Map String String
  pub annotations : Map String String
  pub args : List String
  pub env : List String
  pub mounts : List Mount
  pub hooks : Option Hooks
  pub linux : Option LinuxContainer
  pub rlimits : List PosixRlimit
