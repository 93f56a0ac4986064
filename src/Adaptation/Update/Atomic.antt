-- ===== src/Adaptation/Update/Atomic.antt =====
-- What an update that fails leaves behind, and what an update of the pids does.
use nri.Base.{String, ◌≡◌, refl, Option, Option-cases, inl, inr, ◌∙◌, some, string_eq, arith}
use nri.Base.Exec.{Error, err, Outcome-cases}
use nri.Api.Types.{ContainerUpdate, LinuxResources, LinuxPids}
use nri.Api.Owners.Refines.{IsName}
use nri.Adaptation.Update.{Result, update_resources, update_targets}
use nri.Adaptation.Update.Merged.{targets}
use nri.Adaptation.Update.Granted.{OnlyClaims, Blames, update_targets-Grants}

-- What two results have in common when only their owners differ.
pub record SameButOwners (r s : Result) : Type 0 where
  pub create : r.create ≡ s.create
  pub update : r.update ≡ s.update
  pub reply_update : r.reply_update ≡ s.reply_update
  pub updates : r.updates ≡ s.updates

-- A failed update of a container's resources changes neither the request nor any collected update,
-- nor what anybody owns, but that places of the container may belong to the plugin now that nobody
-- stood in the way of. The error names a place of the container and the plugin that does stand in
-- the way there. The name of the plugin carries no mark.
pub update_resources-err :
    (u : ContainerUpdate) (plugin : String) (r : Result) (e : Error)
    → IsName plugin
    → (update_resources u plugin r).0 ≡ err e
    → let r' = (update_resources u plugin r).1 in
      SameButOwners r' r
      × OnlyClaims u.container_id plugin r.owners r'.owners
      × Blames u.container_id plugin e r'.owners
unfolding update_resources
update_resources-err u plugin r e name h = elim (Option-cases u.resources) [
  | inl nothing ↦ absurd (let g = h in ground arith)
  | inr (res, asked) ↦
      let done = update_targets res u.container_id plugin (targets u r) in
      let grants = update_targets-Grants u.container_id plugin res name (targets u r) in
      elim (Outcome-cases done.0) [
        | inl (x, fine) ↦ absurd (let g = h in ground arith)
        | inr (y, failed) ↦
            let same : err y ≡ err e = (let g = h in rw (asked, failed, update_resources) at g) in
            rw (asked, failed, update_resources)
              (
                record { create = refl; update = refl; reply_update = refl; updates = refl },
                grants.0,
                grants.1 e (failed ∙ same),
              )
      ]
]

abbrev pub with_pids : Option LinuxPids → LinuxResources → LinuxResources
with_pids p res = record res { pids = p }

abbrev pub updating : ContainerUpdate → LinuxResources → ContainerUpdate
updating u res = record u { resources = some res }

-- The pids of an update make no difference to what it does or returns.
pub update_resources-pids :
    (u : ContainerUpdate) (res : LinuxResources) (p q : Option LinuxPids) (plugin : String)
    (r : Result)
    → update_resources (updating u (with_pids p res)) plugin r
      ≡ update_resources (updating u (with_pids q res)) plugin r
unfolding update_resources update_targets
update_resources-pids u res p q plugin r = refl
