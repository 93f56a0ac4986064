-- ===== src/Adaptation/Limits.antt =====
-- The resource limits (pkg/adaptation/result.go): memory and CPU, which adjustments and updates share,
-- and the rest of `adjustResources`.
pub mod Merges
pub mod Accepted
pub mod Outcomes
use nri.Base.{String, Option, none, some, List, [], ◌∷◌, ◌++◌, ◌==◌, string_eq, if◌then◌else◌}
use nri.Base.Map.{Map, insert}
use nri.Base.Exec.{ok, err, Exec, for_each, done, modify, ◌>>◌}
use nri.Api.Types.{LinuxMemory, LinuxCpu, LinuxPids, LinuxResources, HugepageLimit}
use nri.Api.Owners.{OwningPlugins}
use nri.Api.Owners.Claims.{
  claim_mem_limit, claim_mem_reservation, claim_mem_swap_limit, claim_mem_kernel_limit,
  claim_mem_tcp_limit, claim_mem_swappiness, claim_mem_disable_oom_killer, claim_mem_use_hierarchy,
  claim_cpu_shares, claim_cpu_quota, claim_cpu_period, claim_cpu_realtime_runtime,
  claim_cpu_realtime_period, claim_cpu_set_cpus, claim_cpu_set_mems, claim_hugepage_limit,
  claim_cgroups_unified, claim_blockio_class, claim_rdt_class, claim_pids_limit,
}
use nri.Adaptation.State.{Resources, Creation}

-- What an adjustment of limits writes: the target in the container, the one in the reply, which an
-- update does not have, and the owners.
pub record Targets (T : Type 0) : Type 0 where
  pub container : T
  pub reply : Option T
  pub owners : OwningPlugins

abbrev set_targets : {T : Type 0} → (T → T) → Targets T → Targets T
set_targets f t = record t {
  container = f t.container;
  reply = elim t.reply [ none ↦ none | some r ↦ some (f r) ];
}

-- `if v := x.GetY(); v != nil { if err := claim; err != nil { return err }; container.Y = v; … }`
unfoldable pub set_limit :
    {T V : Type 0}
    → Option V
    → Exec OwningPlugins (Unit {0})
    → (V → T → T)
    → Exec (Targets T) (Unit {0})
set_limit none claim set t = (ok tt, t)
set_limit (some v) claim set t =
    let (r, o) = claim t.owners in
    elim r [
      | ok _ ↦ (ok tt, set_targets (set v) (record t { owners = o }))
      | err e ↦ (err e, record t { owners = o })
    ]

unfoldable pub adjust_memory_resource :
    Option LinuxMemory → String → String → Exec (Targets LinuxMemory) (Unit {0})
adjust_memory_resource none id plugin = done
adjust_memory_resource (some mem) id plugin = do
  set_limit mem.limit (claim_mem_limit id plugin) (λ v m. record m { limit = some v })
  set_limit mem.reservation (claim_mem_reservation id plugin)
      (λ v m. record m { reservation = some v })
  set_limit mem.swap (claim_mem_swap_limit id plugin) (λ v m. record m { swap = some v })
  set_limit mem.kernel (claim_mem_kernel_limit id plugin) (λ v m. record m { kernel = some v })
  set_limit mem.kernel_tcp (claim_mem_tcp_limit id plugin) (λ v m. record m { kernel_tcp = some v })
  set_limit mem.swappiness (claim_mem_swappiness id plugin)
      (λ v m. record m { swappiness = some v })
  set_limit mem.disable_oom_killer (claim_mem_disable_oom_killer id plugin)
      (λ v m. record m { disable_oom_killer = some v })
  set_limit mem.use_hierarchy (claim_mem_use_hierarchy id plugin)
      (λ v m. record m { use_hierarchy = some v })

-- A string of a message is set if it is not empty.
abbrev pub non_empty : String → Option String
non_empty s = if s == "" then none else some s

unfoldable pub adjust_cpu_resource :
    Option LinuxCpu → String → String → Exec (Targets LinuxCpu) (Unit {0})
adjust_cpu_resource none id plugin = done
adjust_cpu_resource (some cpu) id plugin = do
  set_limit cpu.shares (claim_cpu_shares id plugin) (λ v c. record c { shares = some v })
  set_limit cpu.quota (claim_cpu_quota id plugin) (λ v c. record c { quota = some v })
  set_limit cpu.period (claim_cpu_period id plugin) (λ v c. record c { period = some v })
  set_limit cpu.realtime_runtime (claim_cpu_realtime_runtime id plugin)
      (λ v c. record c { realtime_runtime = some v })
  set_limit cpu.realtime_period (claim_cpu_realtime_period id plugin)
      (λ v c. record c { realtime_period = some v })
  set_limit (non_empty cpu.cpus) (claim_cpu_set_cpus id plugin) (λ v c. record c { cpus = v })
  set_limit (non_empty cpu.mems) (claim_cpu_set_mems id plugin) (λ v c. record c { mems = v })

-- The memory of resources that are adjusted, and the rest put back.
unfoldable pub at_memory :
    Exec (Targets LinuxMemory) (Unit {0}) → Exec (Targets Resources) (Unit {0})
at_memory op t =
    let (r, m) = op (record {
      container = t.container.memory;
      reply = elim t.reply [ none ↦ none | some r ↦ some r.memory ];
      owners = t.owners;
    }) in
    (
      r,
      record {
        container = record t.container { memory = m.container };
        reply = elim t.reply [
          | none ↦ none
          | some r ↦ elim m.reply [ none ↦ some r | some n ↦ some (record r { memory = n }) ]
        ];
        owners = m.owners;
      },
    )

unfoldable pub at_cpu : Exec (Targets LinuxCpu) (Unit {0}) → Exec (Targets Resources) (Unit {0})
at_cpu op t =
    let (r, m) = op (record {
      container = t.container.cpu;
      reply = elim t.reply [ none ↦ none | some r ↦ some r.cpu ];
      owners = t.owners;
    }) in
    (
      r,
      record {
        container = record t.container { cpu = m.container };
        reply = elim t.reply [
          | none ↦ none
          | some r ↦ elim m.reply [ none ↦ some r | some n ↦ some (record r { cpu = n }) ]
        ];
        owners = m.owners;
      },
    )

-- The limits that both `adjustResources` and `updateResources` set after memory and CPU.
unfoldable pub set_hugepage_limits :
    List HugepageLimit → String → String → Exec (Targets Resources) (Unit {0})
set_hugepage_limits limits id plugin = for_each limits λ l.
    set_limit (some l) (claim_hugepage_limit id l.page_size plugin)
      (λ l r. record r { hugepage_limits = r.hugepage_limits ++ l ∷ [] })

unfoldable pub set_unified :
    Map String String → String → String → Exec (Targets Resources) (Unit {0})
set_unified unified id plugin = for_each unified λ e.
    set_limit (some e) (claim_cgroups_unified id e.0 plugin)
      (λ e r. record r { unified = insert e.0 e.1 r.unified })

unfoldable pub set_blockio_class :
    Option String → String → String → Exec (Targets Resources) (Unit {0})
set_blockio_class class id plugin =
    set_limit class (claim_blockio_class id plugin) (λ v r. record r { blockio_class = some v })

unfoldable pub set_rdt_class : Option String → String → String → Exec (Targets Resources) (Unit {0})
set_rdt_class class id plugin =
    set_limit class (claim_rdt_class id plugin) (λ v r. record r { rdt_class = some v })

unfoldable pub set_pids : Option LinuxPids → String → String → Exec (Targets Resources) (Unit {0})
set_pids pids id plugin =
    set_limit pids (claim_pids_limit id plugin) (λ v r. record r { pids = some v })

unfoldable pub adjust_targets :
    LinuxResources → String → String → Exec (Targets Resources) (Unit {0})
adjust_targets resources id plugin = do
  at_memory (adjust_memory_resource resources.memory id plugin)
  at_cpu (adjust_cpu_resource resources.cpu id plugin)
  set_hugepage_limits resources.hugepage_limits id plugin
  for_each resources.devices
      λ d. modify (set_targets (λ r. record r { devices = r.devices ++ d ∷ [] }))
  set_unified resources.unified id plugin
  set_blockio_class resources.blockio_class id plugin
  set_rdt_class resources.rdt_class id plugin
  set_pids resources.pids id plugin

abbrev put_reply : Option Resources → Resources → Resources
put_reply none r = r
put_reply (some s) r = s

unfoldable pub adjust_resources : Option LinuxResources → String → Exec Creation (Unit {0})
unfolding adjust_targets
adjust_resources none plugin c = (ok tt, c)
adjust_resources (some resources) plugin c =
    let (r, t) = adjust_targets resources c.container.id plugin (record {
      container = c.container.linux.resources;
      reply = some c.adjust.linux.resources;
      owners = c.owners;
    }) in
    (
      r,
      record {
        container = record c.container {
          linux = record c.container.linux { resources = t.container };
        };
        adjust = record c.adjust {
          linux = record c.adjust.linux { resources = put_reply t.reply c.adjust.linux.resources };
        };
        owners = t.owners;
      },
    )
