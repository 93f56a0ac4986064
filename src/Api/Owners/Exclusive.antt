-- ===== src/Api/Owners/Exclusive.antt =====
-- A place that a plugin has claimed stays its own until somebody clears it.
use nri.Base.{
  String, ◌≡◌, ◌≢◌, refl, Bool, false, ◌&&◌, List, [], ◌∷◌, ◌==◌, eq_iff, string_eq, if◌then◌else◌,
  arith, All,
}
use nri.Base.Exec.{ok, err}
use nri.Api.Owners.{OwningPlugins}
use nri.Api.Owners.Spec.{owned, Place, place_eq, place_beq_iff, error_at}
use nri.Api.Owners.Refines.{IsName}
use nri.Api.Owners.Trace.{
  Containers, Call, claiming, clearing, caller, call, spec_call, run, spec_run, view_all,
  call-result, call-views, run-refines,
}

module _ (id : String) (p : Place) where
  abbrev pub clears : Call → Bool
  clears (claiming j q plugin) = false
  clears (clearing j q plugin) = (j == id) && (q == p)

  spec_call_keeps :
      (c : Call) (plugin : String) (all : Containers)
      → clears c ≡ false
      → all id p ≡ owned plugin
      → (spec_call c all).1 id p ≡ owned plugin
  spec_call_keeps (claiming j q other) plugin all h own =
      ground (arith, eq_iff j id, place_beq_iff q p)
  spec_call_keeps (clearing j q other) plugin all h own =
      ground (arith, eq_iff j id, place_beq_iff q p)

  spec_run_keeps :
      (cs : List Call) (plugin : String) (all : Containers)
      → All (λ c. clears c ≡ false) cs
      → all id p ≡ owned plugin
      → (spec_run cs all).1 id p ≡ owned plugin
  unfolding spec_run
  spec_run_keeps [] plugin all h own = own
  spec_run_keeps (c ∷ cs) plugin all h own =
      spec_run_keeps cs plugin (spec_call c all).1 h.1 (spec_call_keeps c plugin all h.0 own)

  spec_claim_owned :
      (plugin : String) (all : Containers)
      → (spec_call (claiming id p plugin) all).0 ≡ ok tt
      → (spec_call (claiming id p plugin) all).1 id p ≡ owned plugin
  spec_claim_owned plugin all granted = ground (arith, eq_iff id id, place_beq_iff p p)

  pub claimed-owned :
      (plugin : String) (o : OwningPlugins)
      → IsName plugin
      → (call (claiming id p plugin) o).0 ≡ ok tt
      → view_all (call (claiming id p plugin) o).1 id p ≡ owned plugin
  claimed-owned plugin o name granted =
      rw (call-views (claiming id p plugin) o name)
        (spec_claim_owned plugin (view_all o) (cc (call-result (claiming id p plugin) o)))

  pub claim_refused :
      (other plugin : String) (o : OwningPlugins)
      → view_all o id p ≡ owned plugin
      → (call (claiming id p other) o).0 ≡ err (error_at p other plugin)
  claim_refused other plugin o own = rw (call-result (claiming id p other) o) (ground arith)

  -- A claim that is refused for the owner of its place changes no place, of no container.
  pub refused-same_owners :
      (plugin owner : String) (o : OwningPlugins)
      → IsName plugin
      → view_all o id p ≡ owned owner
      → (j : String) (q : Place) → view_all (call (claiming id p plugin) o).1 j q ≡ view_all o j q
  refused-same_owners plugin owner o name own j q =
      rw (call-views (claiming id p plugin) o name)
        (ground (arith, eq_iff id j, place_beq_iff p q, string_eq.same_iff id j))

  -- A claim takes nothing from its owner.
  pub claim_keeps :
      (plugin owner j : String) (q : Place) (o : OwningPlugins)
      → IsName plugin
      → view_all o id p ≡ owned owner
      → view_all (call (claiming j q plugin) o).1 id p ≡ owned owner
  claim_keeps plugin owner j q o name own =
      rw (call-views (claiming j q plugin) o name)
        (spec_call_keeps (claiming j q plugin) owner (view_all o) refl own)

  -- A clear of another place takes nothing from its owner.
  pub clear_keeps :
      (plugin j : String) (q : Place) (o : OwningPlugins)
      → IsName plugin
      → clears (clearing j q plugin) ≡ false
      → view_all (call (clearing j q plugin) o).1 id p ≡ view_all o id p
  clear_keeps plugin j q o name h =
      rw (call-views (clearing j q plugin) o name) (ground (arith, eq_iff j id, place_beq_iff q p))

  -- A claim is granted only on a place that nobody owns.
  pub granted_not_owned :
      (plugin owner : String) (o : OwningPlugins)
      → (call (claiming id p plugin) o).0 ≡ ok tt
      → view_all o id p ≢ owned owner
  granted_not_owned plugin owner o granted own = cc (claim_refused plugin owner o own, granted)

  -- Once a claim is granted, the plugin owns the place, and any later claim of it, by whichever
  -- plugin, is refused with the owner's name, after any calls that do not clear the place. The
  -- names of the plugins that call in between carry no mark.
  pub exclusive :
      (plugin other : String) (cs : List Call) (o : OwningPlugins)
      → IsName plugin
      → All (λ c. IsName (caller c)) cs
      → All (λ c. clears c ≡ false) cs
      → (call (claiming id p plugin) o).0 ≡ ok tt
      → let o' = (run cs (call (claiming id p plugin) o).1).1 in
        (view_all o' id p ≡ owned plugin)
        × ((call (claiming id p other) o').0 ≡ err (error_at p other plugin))
  exclusive plugin other cs o name names quiet granted =
      let o₁ = (call (claiming id p plugin) o).1 in
      let kept : view_all (run cs o₁).1 id p ≡ owned plugin =
        rw ((run-refines cs o₁ names).1)
          (spec_run_keeps cs plugin (view_all o₁) quiet (claimed-owned plugin o name granted)) in
      (kept, claim_refused other plugin (run cs o₁).1 kept)

  -- A cleared place can be claimed by the plugin that cleared it, and by no other.
  pub claim-clear :
      (plugin other : String) (o : OwningPlugins)
      → IsName plugin
      → (call (claiming id p other) (call (clearing id p plugin) o).1).0
        ≡ (if plugin == other then ok tt else err (error_at p other plugin))
  claim-clear plugin other o name =
      rw (call-result (claiming id p other) (call (clearing id p plugin) o).1) (
        rw (call-views (clearing id p plugin) o name)
          (ground (arith, eq_iff id id, place_beq_iff p p)))
