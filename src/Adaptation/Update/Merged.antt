-- ===== src/Adaptation/Update/Merged.antt =====
-- What an accepted update of a container sets, and when a list of updates is accepted.
use nri.Base.{
  String, ◌≡◌, ◌≢◌, refl, ap, ◌∙◌, true, inl, inr, Option, none, some, Option-cases, ◌==◌,
  string_eq, if◌then◌else◌, arith, first_set, eq_iff,
}
use nri.Base.Map.{lookup, lookup-insert}
use nri.Base.Exec.{Outcome-cases, ok, err, panic, Exec, ◌>>◌}
use nri.Api.Types.{LinuxResources, ContainerUpdate}
use nri.Adaptation.State.{Resources}
use nri.Adaptation.Copy.{copy, copy_lem}
use nri.Adaptation.Limits.{Targets, set_pids}
use nri.Adaptation.Limits.Merges.{Applies}
use nri.Adaptation.Limits.Accepted.{
  at_memory-Applies, at_cpu-Applies, memory-Applies, cpu-Applies, hugepage_limits-Applies,
  unified-Applies, blockio_class-Applies, rdt_class-Applies, pids-Applies,
}
use nri.Adaptation.Limits.Outcomes.{merge_resources}
use nri.Adaptation.Update.{
  Result, CollectedUpdate, is_requested, current_resources, update_targets, update_resources,
  put_resources,
}

-- An operation with no target in the reply, which never panics and changes the container's.
abbrev pub Sets : (Resources → Resources) → Exec (Targets Resources) (Unit {0}) → Type 0
Sets f op =
    (t : Targets Resources)
    → t.reply ≡ none
    → ((op t).0 ≢ err panic)
      × ((op t).0 ≡ ok tt → ((op t).1.container ≡ f t.container) × ((op t).1.reply ≡ none))

then-Sets :
    (f g : Resources → Resources) (a b : Exec (Targets Resources) (Unit {0}))
    → Applies f a
    → Sets g b
    → Sets (λ r. g (f r)) (a >> b)
then-Sets f g a b ha hb t no_reply = elim (Outcome-cases (a t).0) [
  | inl (u, fine) ↦
      let (c, r) = (ha t).1 fine in
      let still : (a t).1.reply ≡ none = ground arith in
      rw fine ((hb (a t).1 still).0, λ h. let (c', r') = (hb (a t).1 still).1 h in (cc (c, c'), r'))
  | inr (e, failed) ↦
      let sound = (ha t).0 in rw failed ((let s = sound in rw failed at s), λ h. ground arith)
]

first_set_same : {V : Type 0} (v : Option V) → first_set v v ≡ v
first_set_same none = refl
first_set_same (some v) = refl

-- The pids of the copy are set to what they are.
pids-Sets : (id plugin : String) → Sets (λ r. r) (λ t. set_pids t.container.pids id plugin t)
pids-Sets id plugin t no_reply =
    let (sound, effect) = pids-Applies t.container.pids id plugin t in
    (
      sound,
      λ granted.
          let (c, r) = effect granted in
          (
            c ∙ ap (λ p. record t.container { pids = p }) (first_set_same t.container.pids),
            ground arith,
          ),
    )

-- An update sets what an adjustment sets, but for the devices and the pids.
abbrev pub merge_update : LinuxResources → Resources → Resources
merge_update new old = record (merge_resources new old) { devices = old.devices; pids = old.pids }

pub update_targets-Sets :
    (res : LinuxResources) (id plugin : String)
    → Sets (merge_update res) (update_targets res id plugin)
unfolding update_targets
update_targets-Sets res id plugin =
    then-Sets _ _ _ _ (at_memory-Applies _ _ (memory-Applies res.memory id plugin)) (
      then-Sets _ _ _ _ (at_cpu-Applies _ _ (cpu-Applies res.cpu id plugin)) (
        then-Sets _ _ _ _ (hugepage_limits-Applies res.hugepage_limits id plugin) (
          then-Sets _ _ _ _ (unified-Applies res.unified id plugin) (
            then-Sets _ _ _ _ (blockio_class-Applies res.blockio_class id plugin) (
              then-Sets _ _ _ _ (rdt_class-Applies res.rdt_class id plugin)
                (pids-Sets id plugin))))))

-- The targets of an update.
abbrev pub targets : ContainerUpdate → Result → Targets Resources
targets u r = record {
  container = copy (current_resources u.container_id r);
  reply = none;
  owners = r.owners;
}

-- An accepted update of a collected container sets exactly the limits that are set in it, but for
-- devices and pids, in the collected update and in the request for that container; other collected
-- updates stay.
pub update_resources-merge :
    (u : ContainerUpdate) (res : LinuxResources) (v : CollectedUpdate) (plugin : String)
    (r : Result)
    → u.resources ≡ some res
    → lookup u.container_id r.updates ≡ some v
    → (update_resources u plugin r).0 ≡ ok tt
    → let new = merge_update res (current_resources u.container_id r) in
      let r' = (update_resources u plugin r).1 in
      ((id : String)
        → lookup id r'.updates ≡ (
            if u.container_id == id
            then some (record v { resources = new })
            else lookup id r.updates))
      × (is_requested u.container_id r ≡ true
          → r'.update ≡ some (record { id = u.container_id; resources = new }))
unfolding update_resources put_resources is_requested
update_resources-merge u res v plugin r asked collected granted =
    let done = update_targets res u.container_id plugin (targets u r) in
    elim (Outcome-cases done.0) [
      | inl (x, fine) ↦
          let (c, no_reply) =
            (update_targets-Sets res u.container_id plugin (targets u r) refl).1 fine in
          let new : copy done.1.container ≡ merge_update res (current_resources u.container_id r) =
            cc (copy_lem done.1.container, c, copy_lem (current_resources u.container_id r)) in
          rw (asked, fine, update_resources)
            (
              (λ id. ground (
                arith,
                new,
                lookup-insert u.container_id id (record v { resources = copy done.1.container })
                    r.updates,
              )),
              λ own. elim (Option-cases r.update) [
                | inl nothing ↦ ground arith
                | inr (q, requested) ↦
                    rw requested (ground (arith, new, eq_iff q.id u.container_id))
              ],
            )
      | inr (e, failed) ↦ ground arith
    ]
