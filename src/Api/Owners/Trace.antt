-- ===== src/Api/Owners/Trace.antt =====
-- Any sequence of claims and clears of `OwningPlugins`, by any plugins and over any containers.
use nri.Base.{
  String, ◌≡◌, refl, fun_ext, some, List, [], ◌∷◌, ◌==◌, nat_eq, string_eq, if◌then◌else◌, arith,
  All,
}
use nri.Base.Map.{insert, lookup-insert}
use nri.Base.Exec.{Outcome, ok}
use nri.Api.Owners.{
  FieldOwners, OwningPlugins, owners_for, must_owners_for, with_owners_for, clear_owners_for,
}
use nri.Api.Owners.Spec.{Place, place_eq, Slots, spec_claim, spec_clear}
use nri.Api.Owners.Refines.{
  IsName, view, claim, clear, claim-result, claim-slots, clear-slots, view-new,
}

-- The slots of every container.
abbrev pub Containers : Type 0
Containers = String → Slots

unfoldable pub view_all : OwningPlugins → Containers
view_all o id = view (owners_for id o)

abbrev pub at : String → Slots → Containers → Containers
at id slots all j = if id == j then slots else all j

-- One call of the API: a claim or a clear of a place of a container by a plugin.
pub data Call : Type 0 where
  claiming clearing : String → Place → String → Call

abbrev pub caller : Call → String
caller (claiming id p plugin) = plugin
caller (clearing id p plugin) = plugin

unfoldable pub call : Call → OwningPlugins → Outcome (Unit {0}) × OwningPlugins
call (claiming id p plugin) o = with_owners_for id (claim p plugin) o
call (clearing id p plugin) o = (ok tt, clear_owners_for id (clear p plugin) o)

abbrev pub spec_call : Call → Containers → Outcome (Unit {0}) × Containers
spec_call (claiming id p plugin) all =
    let (r, slots) = spec_claim p plugin (all id) in (r, at id slots all)
spec_call (clearing id p plugin) all = (ok tt, at id (spec_clear p plugin (all id)) all)

unfoldable pub run : List Call → OwningPlugins → List (Outcome (Unit {0})) × OwningPlugins
unfolding call
run [] o = ([], o)
run (c ∷ cs) o = let (r, o') = call c o in let (rs, o'') = run cs o' in (r ∷ rs, o'')

unfoldable pub spec_run : List Call → Containers → List (Outcome (Unit {0})) × Containers
spec_run [] all = ([], all)
spec_run (c ∷ cs) all =
    let (r, all') = spec_call c all in let (rs, all'') = spec_run cs all' in (r ∷ rs, all'')

view-must : (id : String) (o : OwningPlugins) → view (some (must_owners_for id o)) ≡ view_all o id
unfolding must_owners_for view_all owners_for
view-must id o = fun_ext λ p. ground (arith, view-new p)

pub call-result : (c : Call) (o : OwningPlugins) → (call c o).0 ≡ (spec_call c (view_all o)).0
unfolding call with_owners_for
call-result (claiming id p plugin) o =
    rw (← view-must id o) (claim-result plugin (must_owners_for id o) p)
call-result (clearing id p plugin) o = refl

view_all-insert :
    (id j : String) (f : FieldOwners) (o : OwningPlugins)
    → view_all (record o { owners = insert id f o.owners }) j
      ≡ (if id == j then view (some f) else view_all o j)
unfolding view_all owners_for
view_all-insert id j f o = ground (arith, lookup-insert id j f o.owners)

pub call-slots :
    (c : Call) (o : OwningPlugins)
    → IsName (caller c)
    → (j : String) (q : Place) → view_all (call c o).1 j q ≡ (spec_call c (view_all o)).1 j q
unfolding call with_owners_for clear_owners_for
call-slots (claiming id p plugin) o name j q = rw (← view-must id o) (
    ground (
      arith,
      view_all-insert id j (claim p plugin (must_owners_for id o)).1 o,
      claim-slots plugin (must_owners_for id o) p name q,
    ))
call-slots (clearing id p plugin) o name j q = rw (← view-must id o) (
    ground (
      arith,
      view_all-insert id j (clear p plugin (must_owners_for id o)) o,
      clear-slots plugin (must_owners_for id o) p q,
    ))

pub call-views :
    (c : Call) (o : OwningPlugins)
    → IsName (caller c)
    → view_all (call c o).1 ≡ (spec_call c (view_all o)).1
call-views c o name = fun_ext λ j. fun_ext λ q. call-slots c o name j q

-- Whatever the calls, their answers and the owners that they leave are those of the slots: a claim
-- is granted on a free place and on one that the same plugin cleared, and refused with the name of
-- the plugin in the way on any other; a clear is always granted. The plugins' names carry no mark.
pub run-refines :
    (cs : List Call) (o : OwningPlugins)
    → All (λ c. IsName (caller c)) cs
    → ((run cs o).0 ≡ (spec_run cs (view_all o)).0)
      × (view_all (run cs o).1 ≡ (spec_run cs (view_all o)).1)
unfolding run spec_run
run-refines [] o names = (refl, refl)
run-refines (c ∷ cs) o names =
    let (results, slots) = run-refines cs (call c o).1 names.1 in
    let views = call-views c o names.0 in (cc (call-result c o, views, results), cc (views, slots))
