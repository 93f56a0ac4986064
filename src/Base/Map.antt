-- ===== src/Base/Map.antt =====
-- Go maps as association lists: `m[k]`, `m[k] = v`, `delete(m, k)` and the test for a key.
use mathlib.Core.Path.{◌≡◌, refl}
use mathlib.Core.Bool.{Bool, true, false}
use mathlib.Core.List.{List, [], ◌∷◌}
use mathlib.Core.Option.{Option, none, some}
use native.Mathlib.Omega.{arith}
use mathlib.Core.Logic.{inl, inr}
use nri.Base.Tests.{if◌then◌else◌, Bool-cases}
use nri.Base.Lists.{All}
use nri.Base.Keys.{Key, ◌==◌, beq_refl}

abbrev pub Map {ℓ} : Type ℓ → Type ℓ → Type ℓ
Map K V = List (K × V)

module _ {ℓ} {K V : Type ℓ} ⦃e : Key K⦄ where
  unfoldable pub lookup : K → Map K V → Option V
  lookup k [] = none
  lookup k ((j, v) ∷ m) = if j == k then some v else lookup k m

  unfoldable pub insert : K → V → Map K V → Map K V
  insert k v [] = (k, v) ∷ []
  insert k v ((j, w) ∷ m) = if j == k then (k, v) ∷ m else (j, w) ∷ insert k v m

  unfoldable pub delete : K → Map K V → Map K V
  delete k [] = []
  delete k ((j, w) ∷ m) = let rest = delete k m in if j == k then rest else (j, w) ∷ rest

  unfoldable pub has_key : K → Map K V → Bool
  unfolding lookup
  has_key k m = elim (lookup k m) [ none ↦ false | some _ ↦ true ]

  pub lookup-insert :
      (set got : K) (value : V) (entries : Map K V)
      → lookup got (insert set value entries)
        ≡ (if set == got then some value else lookup got entries)
  unfolding lookup insert
  lookup-insert set got value [] = refl
  lookup-insert set got value ((i, old) ∷ entries) = ground (
    arith,
    e.same_iff set got,
    e.same_iff i set,
    e.same_iff i got,
    lookup-insert set got value entries,
  )

  pub lookup-delete :
      (k j : K) (m : Map K V) → lookup j (delete k m) ≡ (if k == j then none else lookup j m)
  unfolding lookup delete
  lookup-delete k j [] = ground arith
  lookup-delete k j ((i, w) ∷ m) =
      ground (arith, e.same_iff k j, e.same_iff i k, e.same_iff i j, lookup-delete k j m)

module _ {ℓ} {K V : Type ℓ} ⦃e : Key K⦄ where
  pub lookup-insert_self : (k : K) (v : V) (m : Map K V) → lookup k (insert k v m) ≡ some v
  lookup-insert_self k v m = rw (lookup-insert, beq_refl)

  pub insert-insert : (k : K) (v w : V) (m : Map K V) → insert k v (insert k w m) ≡ insert k v m
  unfolding insert
  insert-insert k v w [] = ground (arith, e.same_iff k k)
  insert-insert k v w ((i, u) ∷ m) =
      ground (arith, e.same_iff k k, e.same_iff i k, insert-insert k v w m)

pub All-insert {ℓ κ} :
    {K V : Type ℓ} ⦃e : Key K⦄ (P : K × V → Type κ) (k : K) (v : V) (m : Map K V)
    → All P m
    → P (k, v)
    → All P (insert k v m)
unfolding insert
All-insert P k v [] h p = (p, tt)
All-insert P k v ((j, w) ∷ m) h p = elim (Bool-cases (j == k)) [
  | inl same ↦ rw same (p, h.1)
  | inr other ↦ rw other (h.0, All-insert P k v m h.1 p)
]

pub lookup-empty {ℓ} : {K V : Type ℓ} ⦃e : Key K⦄ (k : K) → lookup {V = V} k [] ≡ none
unfolding lookup
lookup-empty k = refl

pub ruleset map_laws = (lookup-insert, lookup-delete, lookup-empty)
