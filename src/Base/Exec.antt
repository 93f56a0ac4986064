-- ===== src/Base/Exec.antt =====
-- Code that writes to objects behind pointers and may return an error: what was written before the
-- error stays written, so the state comes back beside the error too.
use mathlib.Core.Path.{◌≡◌, refl}
use mathlib.Core.Logic.{◌⊎◌, inl, inr}
use mathlib.Core.List.{List, [], ◌∷◌}
use Prim.Native.Nat.{ℕ}
use Prim.Native.String.{String}

pub data Error : Type 0 where
  -- fmt.Errorf("plugins %q and %q both tried to set %s"): field, plugin, other, qualifiers
  conflict : ℕ → String → String → List String → Error
  -- fmt.Errorf("plugin %q asked update of %q during creation")
  during_creation : String → String → Error
  -- a run-time panic: a write to a nil map, a nil pointer that is dereferenced
  panic : Error

pub data Outcome {ℓ} (A : Type ℓ) : Type ℓ where
  ok : A → Outcome A
  err : Error → Outcome A

pub Outcome-cases {ℓ} :
    {A : Type ℓ} (r : Outcome A) → ((a : A) × (r ≡ ok a)) ⊎ ((e : Error) × (r ≡ err e))
Outcome-cases (ok a) = inl (a, refl)
Outcome-cases (err e) = inr (e, refl)

abbrev pub Exec : Type 0 → Type 0 → Type 0
Exec S A = S → Outcome A × S

module _ {S A : Type 0} where
  abbrev pub pure : A → Exec S A
  pure a s = (ok a, s)

  abbrev pub raise : Error → Exec S A
  raise e s = (err e, s)

  abbrev pub gets : (S → A) → Exec S A
  gets f s = (ok (f s), s)

module _ {S : Type 0} where
  abbrev pub modify : (S → S) → Exec S (Unit {0})
  modify f s = (ok tt, f s)

  abbrev pub done : Exec S (Unit {0})
  done s = (ok tt, s)

module _ {S A B : Type 0} where
  abbrev continue : Outcome A → (A → Exec S B) → Exec S B
  continue (ok a) f s = f a s
  continue (err e) f s = (err e, s)

  infixl 5 ◌>>=◌ ◌>>◌
  abbrev pub ◌>>=◌ : Exec S A → (A → Exec S B) → Exec S B
  ◌>>=◌ first next s = let (answer, written) = first s in continue answer next written

  abbrev pub ◌>>◌ : Exec S A → Exec S B → Exec S B
  first >> next = first >>= λ _. next

-- `for _, x := range xs { if err := body(x); err != nil { return err } }`
module _ {S A : Type 0} where
  unfoldable pub for_each : List A → (A → Exec S (Unit {0})) → Exec S (Unit {0})
  for_each [] body s = (ok tt, s)
  for_each (x ∷ xs) body s =
      let (r, s') = body x s in elim r [ ok _ ↦ for_each xs body s' | err e ↦ (err e, s') ]
