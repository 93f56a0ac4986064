-- ===== src/Adaptation/Limits/Outcomes.antt =====
-- `adjustResources` as a whole, and the limits that `updateResources` sets.
use nri.Base.{String, ◌≡◌, refl, some, List, [], ◌∷◌, ◌++◌, arith, first_set}
use nri.Base.Exec.{ok, for_each, modify}
use nri.Api.Types.{LinuxResources, LinuxDeviceCgroup}
use nri.Adaptation.State.{Resources, Creation}
use nri.Adaptation.Limits.{set_targets, adjust_targets, adjust_resources}
use nri.Adaptation.Limits.Merges.{Applies, then-Applies, merge_memory, merge_cpu}
use nri.Adaptation.Limits.Accepted.{
  Applies-ext, for_each-Applies, at_memory-Applies, at_cpu-Applies, memory-Applies, cpu-Applies,
  append_each, insert_all, hugepage_limits-Applies, unified-Applies, blockio_class-Applies,
  rdt_class-Applies, pids-Applies, merge_optional,
}

-- What is asked for replaces what is there; the lists grow.
abbrev pub merge_resources : LinuxResources → Resources → Resources
merge_resources new old = record {
  memory = merge_optional merge_memory new.memory old.memory;
  cpu = merge_optional merge_cpu new.cpu old.cpu;
  hugepage_limits = old.hugepage_limits ++ new.hugepage_limits;
  blockio_class = first_set new.blockio_class old.blockio_class;
  rdt_class = first_set new.rdt_class old.rdt_class;
  unified = insert_all new.unified old.unified;
  devices = old.devices ++ new.devices;
  pids = first_set new.pids old.pids;
}

devices-Applies :
    (ds : List LinuxDeviceCgroup)
    → Applies {T = Resources}
        (λ r. record r { devices = r.devices ++ ds })
        (for_each ds λ d. modify (set_targets (λ r. record r { devices = r.devices ++ d ∷ [] })))
devices-Applies ds =
    Applies-ext _ (λ r. record r { devices = r.devices ++ ds })
      (for_each ds λ d. modify (set_targets (λ r. record r { devices = r.devices ++ d ∷ [] })))
      (λ r.
        append_each ds r Resources.devices (λ ys r. record r { devices = ys }) (λ ys r. refl)
          (λ ys zs r. refl) (λ r. refl))
      (for_each-Applies (λ d r. record r { devices = r.devices ++ d ∷ [] }) _ ds
        λ d t. (ground arith, λ h. (refl, ground arith)))

adjust_targets-Applies :
    (res : LinuxResources) (id plugin : String)
    → Applies (merge_resources res) (adjust_targets res id plugin)
unfolding adjust_targets
adjust_targets-Applies res id plugin =
    then-Applies _ _ _ _ (at_memory-Applies _ _ (memory-Applies res.memory id plugin)) (
      then-Applies _ _ _ _ (at_cpu-Applies _ _ (cpu-Applies res.cpu id plugin)) (
        then-Applies _ _ _ _ (hugepage_limits-Applies res.hugepage_limits id plugin) (
          then-Applies _ _ _ _ (devices-Applies res.devices) (
            then-Applies _ _ _ _ (unified-Applies res.unified id plugin) (
              then-Applies _ _ _ _ (blockio_class-Applies res.blockio_class id plugin) (
                then-Applies _ _ _ _ (rdt_class-Applies res.rdt_class id plugin)
                  (pids-Applies res.pids id plugin)))))))

-- Accepted resources of a plugin replace, in the container and in the reply alike, exactly the limits
-- that are set in them; their hugepage limits and devices are appended, and their unified entries
-- inserted.
pub adjust_resources-merge :
    (res : LinuxResources) (plugin : String) (c : Creation)
    → (adjust_resources (some res) plugin c).0 ≡ ok tt
    → let c' = (adjust_resources (some res) plugin c).1 in
      (c'.container.linux.resources ≡ merge_resources res c.container.linux.resources)
      × (c'.adjust.linux.resources ≡ merge_resources res c.adjust.linux.resources)
unfolding adjust_resources
adjust_resources-merge res plugin c granted =
    let (container, reply) =
      (adjust_targets-Applies res c.container.id plugin (record {
        container = c.container.linux.resources;
        reply = some c.adjust.linux.resources;
        owners = c.owners;
      })).1
        granted in
    (container, rw reply refl)
