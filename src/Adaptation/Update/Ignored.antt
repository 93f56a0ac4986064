-- ===== src/Adaptation/Update/Ignored.antt =====
-- Updates that may fail.
use nri.Base.{
  String, ◌≡◌, ◌≢◌, refl, ◌∙◌, ap, true, false, not, ◌&&◌, inl, inr, Option-cases, List, [], ◌∷◌,
  string_eq, arith, All, All-mono,
}
use nri.Base.Exec.{Error, conflict, during_creation, Outcome-cases, ok, err, panic}
use nri.Api.Types.{ContainerUpdate}
use nri.Adaptation.Update.{
  Result, is_created, is_panic, get_container_update, update_resources, update, put_resources,
}
use nri.Adaptation.Update.Merged.{targets, update_targets-Sets}

update_resources-ne-panic :
    (u : ContainerUpdate) (plugin : String) (r : Result)
    → (update_resources u plugin r).0 ≢ err panic
unfolding update_resources
update_resources-ne-panic u plugin r = elim (Option-cases u.resources) [
  | inl nothing ↦ ground arith
  | inr (res, asked) ↦
      let sound = (update_targets-Sets res u.container_id plugin (targets u r) refl).0 in
      ground arith
]

get_container_update-create :
    (u : ContainerUpdate) (plugin : String) (r : Result)
    → (get_container_update u plugin r).1.create ≡ r.create
unfolding get_container_update
get_container_update-create u plugin r = ground arith

update_resources-create :
    (u : ContainerUpdate) (plugin : String) (r : Result)
    → (update_resources u plugin r).1.create ≡ r.create
unfolding update_resources put_resources
update_resources-create u plugin r = ground arith

get_container_update-ok :
    (u : ContainerUpdate) (plugin : String) (r : Result)
    → is_created u.container_id r ≡ false
    → (get_container_update u plugin r).0 ≡ ok tt
unfolding get_container_update
get_container_update-ok u plugin r other = ground arith

is_panic_of : (e : Error) → e ≢ panic → is_panic e ≡ false
is_panic_of panic other = absurd (other refl)
is_panic_of (conflict field plugin owner qualifiers) other = refl
is_panic_of (during_creation plugin id) other = refl

-- An update of no container that is being created, whose failure is to be ignored.
abbrev pub MayFail : Result → ContainerUpdate → Type 0
MayFail r u = (u.ignore_failure ≡ true) × (is_created u.container_id r ≡ false)

MayFail-create :
    (r s : Result) (u : ContainerUpdate) → s.create ≡ r.create → MayFail r u → MayFail s u
unfolding is_created
MayFail-create r s u same h = (h.0, ground arith)

-- Updates that all may fail are accepted together, whichever of them fail, if none is of the
-- container that is being created.
pub update-MayFail :
    (us : List ContainerUpdate) (plugin : String) (r : Result)
    → All (MayFail r) us
    → (update us plugin r).0 ≡ ok tt
unfolding update
update-MayFail [] plugin r h = refl
update-MayFail (u ∷ us) plugin r h =
    let got = get_container_update u plugin r in
    let done = update_resources u plugin got.1 in
    let sound = update_resources-ne-panic u plugin got.1 in
    let found : got.0 ≡ ok tt = get_container_update-ok u plugin r h.0.1 in
    let rest = update-MayFail us plugin done.1 (
      All-mono (MayFail r) (MayFail done.1) us
        (λ v.
          MayFail-create r done.1 v
            (update_resources-create u plugin got.1 ∙ get_container_update-create u plugin r))
        h.1) in
    elim (Outcome-cases done.0) [
      | inl (x, fine) ↦ rw (found, fine, update) rest
      | inr (e, failed) ↦
          let ignorable = is_panic_of e (λ p. sound (failed ∙ ap err p)) in
          let skip : (u.ignore_failure && not (is_panic e)) ≡ true = cc (h.0.0, ignorable) in
          rw (found, failed, skip, update) rest
    ]
