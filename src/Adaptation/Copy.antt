-- ===== src/Adaptation/Copy.antt =====
-- `LinuxResources.Copy` (pkg/api/resources.go), for resources that have their memory and CPU.
use nri.Base.{String, ◌≡◌, refl, Option, none, some, List, [], ◌∷◌}
use nri.Base.Map.{Map}
use nri.Api.Types.{LinuxMemory, LinuxCpu, HugepageLimit, LinuxDeviceCgroup, LinuxPids}
use nri.Adaptation.State.{Resources}

copy_memory : LinuxMemory → LinuxMemory
copy_memory m = record {
  limit = m.limit;
  reservation = m.reservation;
  swap = m.swap;
  kernel = m.kernel;
  kernel_tcp = m.kernel_tcp;
  swappiness = m.swappiness;
  disable_oom_killer = m.disable_oom_killer;
  use_hierarchy = m.use_hierarchy;
}

copy_cpu : LinuxCpu → LinuxCpu
copy_cpu c = record {
  shares = c.shares;
  quota = c.quota;
  period = c.period;
  realtime_runtime = c.realtime_runtime;
  realtime_period = c.realtime_period;
  cpus = c.cpus;
  mems = c.mems;
}

copy_hugepage_limits : List HugepageLimit → List HugepageLimit
copy_hugepage_limits [] = []
copy_hugepage_limits (l ∷ ls) =
    record { page_size = l.page_size; limit = l.limit } ∷ copy_hugepage_limits ls

copy_devices : List LinuxDeviceCgroup → List LinuxDeviceCgroup
copy_devices [] = []
copy_devices (d ∷ ds) =
    record { allow = d.allow; type = d.type; major = d.major; minor = d.minor; access = d.access }
    ∷ copy_devices ds

copy_unified : Map String String → Map String String
copy_unified [] = []
copy_unified ((k, v) ∷ m) = (k, v) ∷ copy_unified m

copy_pids : Option LinuxPids → Option LinuxPids
copy_pids none = none
copy_pids (some p) = some (record { limit = p.limit })

unfoldable pub copy : Resources → Resources
unfolding copy_memory copy_cpu copy_hugepage_limits copy_devices copy_unified copy_pids
copy r = record {
  memory = copy_memory r.memory;
  cpu = copy_cpu r.cpu;
  hugepage_limits = copy_hugepage_limits r.hugepage_limits;
  blockio_class = r.blockio_class;
  rdt_class = r.rdt_class;
  unified = copy_unified r.unified;
  devices = copy_devices r.devices;
  pids = copy_pids r.pids;
}

hugepage_limits-copy : (ls : List HugepageLimit) → copy_hugepage_limits ls ≡ ls
unfolding copy_hugepage_limits
hugepage_limits-copy [] = refl
hugepage_limits-copy (l ∷ ls) = cc (hugepage_limits-copy ls)

devices-copy : (ds : List LinuxDeviceCgroup) → copy_devices ds ≡ ds
unfolding copy_devices
devices-copy [] = refl
devices-copy (d ∷ ds) = cc (devices-copy ds)

unified-copy : (m : Map String String) → copy_unified m ≡ m
unfolding copy_unified
unified-copy [] = refl
unified-copy (e ∷ m) = cc (unified-copy m)

pids-copy : (p : Option LinuxPids) → copy_pids p ≡ p
unfolding copy_pids
pids-copy none = refl
pids-copy (some p) = refl

-- A copy has every value of the original.
pub copy_lem : (r : Resources) → copy r ≡ r
unfolding copy copy_memory copy_cpu
copy_lem r = cc (
  hugepage_limits-copy r.hugepage_limits,
  unified-copy r.unified,
  devices-copy r.devices,
  pids-copy r.pids,
)
