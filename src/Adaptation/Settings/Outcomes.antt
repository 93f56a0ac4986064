-- ===== src/Adaptation/Settings/Outcomes.antt =====
-- What the adjustments of single settings promise.
use nri.Base.{
  String, ◌≡◌, ◌≢◌, refl, sym, subst, ◌∙◌, Bool, true, false, ◌||◌, Option, none, some, List, [],
  ◌∷◌, if◌then◌else◌, arith, first_set, string_eq, beq_refl, beq_false, ◌==◌, inl, inr, Bool-cases,
  ne_of_beq,
}
use mathlib.Core.List.{append_assoc}
use nri.Base.Exec.{ok, err, conflict}
use nri.Api.Types.{Hooks, LinuxRdt}
use nri.Api.Field.{key, args}
use nri.Api.Owners.Spec.{simple, owned, Place}
use nri.Api.Owners.{OwningPlugins}
use nri.Api.Owners.Refines.{IsName}
use nri.Api.Owners.Trace.{claiming, clearing, call, view_all}
use nri.Api.Owners.Exclusive.{claimed-owned, claim-clear, claim_refused, refused-same_owners}
use nri.Api.Owners.Claims.{claim_args, clear_args}
use nri.Adaptation.State.{Creation}
use nri.Adaptation.Settings.{
  adjust_args, adjust_hooks, append_hooks, adjust_rdt, rdt_or_nil, removed_rdt, get_rdt,
  init_adjust_rdt,
}

-- Arguments behind an empty one replace whatever is set: they are never refused, they are the
-- container's and the reply's arguments, and the plugin owns them. Its name carries no mark.
adjust_args-replace :
    (arguments : List String) (plugin : String) (c : Creation)
    → IsName plugin
    → let (r, c') = adjust_args ("" ∷ arguments) plugin c in
      (r ≡ ok tt)
      × (c'.container.args ≡ arguments)
      × (c'.adjust.args ≡ arguments)
      × (view_all c'.owners c.container.id (simple (key args)) ≡ owned plugin)
unfolding adjust_args claim_args clear_args call
adjust_args-replace arguments plugin c name =
    let p = simple (key args) in
    let id = c.container.id in
    let o = (call (clearing id p plugin) c.owners).1 in
    let granted : (call (claiming id p plugin) o).0 ≡ ok tt =
      claim-clear id p plugin plugin c.owners name ∙ rw (beq_refl plugin) in
    rw (granted, adjust_args) (refl, refl, refl, claimed-owned id p plugin o name granted)

-- No place of any container has another owner.
abbrev pub SameOwners : OwningPlugins → OwningPlugins → Type 0
SameOwners o o' = (id : String) (p : Place) → view_all o' id p ≡ view_all o id p

-- Arguments that another plugin owns are refused, and stay, with every owner.
adjust_args-owned :
    (arg : String) (rest : List String) (plugin owner : String) (c : Creation)
    → IsName plugin
    → arg ≢ ""
    → view_all c.owners c.container.id (simple (key args)) ≡ owned owner
    → let (r, c') = adjust_args (arg ∷ rest) plugin c in
      (r ≡ err (conflict (key args) plugin owner []))
      × (c'.container ≡ c.container)
      × (c'.adjust ≡ c.adjust)
      × SameOwners c.owners c'.owners
unfolding adjust_args claim_args call
adjust_args-owned arg rest plugin owner c name named own =
    let p = simple (key args) in
    let refused = claim_refused c.container.id p plugin owner c.owners own in
    let same = refused-same_owners c.container.id p plugin owner c.owners name own in
    rw (beq_false arg "" named) (rw (refused, adjust_args) (refl, refl, refl, same))

append_hooks_assoc :
    (h k l : Hooks) → append_hooks (append_hooks h k) l ≡ append_hooks h (append_hooks k l)
unfolding append_hooks
append_hooks_assoc h k l = simp (append_assoc)

-- Hooks are only added: the container's hooks stay those that it came with, followed by the reply's.
-- The adjustment is never refused.
pub adjust_hooks_in_order :
    (original : Hooks) (hooks : Option Hooks) (plugin : String) (c : Creation)
    → c.container.hooks ≡ append_hooks original c.adjust.hooks
    → let (r, c') = adjust_hooks hooks plugin c in
      (r ≡ ok tt) × (c'.container.hooks ≡ append_hooks original c'.adjust.hooks)
unfolding adjust_hooks
adjust_hooks_in_order original none plugin c h = (refl, h)
adjust_hooks_in_order original (some hooks) plugin c h = (refl, rw (h, append_hooks_assoc) refl)

abbrev pub is_some : {V : Type 0} → Option V → Bool
is_some none = false
is_some (some v) = true

abbrev pub has_value : LinuxRdt → Bool
has_value r = is_some r.clos_id || (is_some r.schemata || is_some r.enable_monitoring)

adjust_rdt-some :
    (rdt : LinuxRdt) (plugin : String) (c : Creation)
    → (adjust_rdt (some rdt) plugin c).0 ≡ ok tt
    → let before = if rdt.remove then removed_rdt else get_rdt c in
      (adjust_rdt (some rdt) plugin c).1.adjust.linux.rdt
      ≡ some (record {
        clos_id = first_set rdt.clos_id before.clos_id;
        schemata = first_set rdt.schemata before.schemata;
        enable_monitoring = first_set rdt.enable_monitoring before.enable_monitoring;
        remove = if has_value rdt then false else before.remove;
      })
unfolding adjust_rdt init_adjust_rdt
adjust_rdt-some rdt plugin c h = ground arith

-- An accepted `Rdt` has each of its values in the reply. A removal that comes with no value is passed
-- on; with a value it is not, and it drops what other plugins have set. A plugin with no `Rdt` leaves
-- one in the reply all the same: an empty one, if no other plugin has set any.
pub adjust_rdt_lem :
    (rdt : Option LinuxRdt) (plugin : String) (c : Creation)
    → (adjust_rdt rdt plugin c).0 ≡ ok tt
    → let asked = rdt_or_nil rdt in
      let before = if asked.remove then removed_rdt else get_rdt c in
      (adjust_rdt rdt plugin c).1.adjust.linux.rdt
      ≡ some (record {
        clos_id = first_set asked.clos_id before.clos_id;
        schemata = first_set asked.schemata before.schemata;
        enable_monitoring = first_set asked.enable_monitoring before.enable_monitoring;
        remove = if has_value asked then false else before.remove;
      })
unfolding adjust_rdt init_adjust_rdt rdt_or_nil
adjust_rdt_lem none plugin c h = ground arith
adjust_rdt_lem (some rdt) plugin c h = adjust_rdt-some rdt plugin c h

-- How the arguments of a plugin are adjusted that another one owns: behind an empty one they replace
-- what is set, all others are refused.
abbrev pub ArgsOutcome : String → List String → String → String → Creation → Type 0
ArgsOutcome arg rest plugin owner c =
    let (r, c') = adjust_args (arg ∷ rest) plugin c in
    elim (arg == "") as (λ b. Type 0) [
      | true ↦
          (r ≡ ok tt)
          × (c'.container.args ≡ rest)
          × (c'.adjust.args ≡ rest)
          × (view_all c'.owners c.container.id (simple (key args)) ≡ owned plugin)
      | false ↦
          (r ≡ err (conflict (key args) plugin owner []))
          × (c'.container ≡ c.container)
          × (c'.adjust ≡ c.adjust)
          × SameOwners c.owners c'.owners
    ]

-- Where a plugin owns the arguments, those of another plugin that do not begin with an empty one are
-- refused, and the container, the reply and every owner stay; behind an empty one they are granted, are the
-- container's and the reply's, and belong to the other plugin, whose name carries no mark.
pub adjust_args-ArgsOutcome :
    (arg : String) (rest : List String) (plugin owner : String) (c : Creation)
    → IsName plugin
    → view_all c.owners c.container.id (simple (key args)) ≡ owned owner
    → ArgsOutcome arg rest plugin owner c
adjust_args-ArgsOutcome arg rest plugin owner c name own = elim (Bool-cases (arg == "")) [
  | inr named ↦
      rw (ArgsOutcome, named)
        (adjust_args-owned arg rest plugin owner c name (ne_of_beq arg "" named) own)
  | inl empty ↦
      let e : arg ≡ "" = (string_eq.same_iff arg "").0 empty in
      subst (λ a. ArgsOutcome a rest plugin owner c) (sym e)
        (adjust_args-replace rest plugin c name)
]
