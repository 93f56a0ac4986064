-- ===== src/Adaptation/Requests/Ordering.antt =====
-- Lists of plugins (pkg/adaptation/adaptation.go) in an order, which every request keeps when it
-- removes the closed ones.
use nri.Base.{ℕ, Bool, Bool-cases, inl, inr, List, [], ◌∷◌, All, All-keep, keep}

-- Every element is related to those after it.
abbrev pub Ordered : (ℕ → ℕ → Type 0) → List ℕ → Type 0
Ordered R [] = Unit
Ordered R (x ∷ xs) = All (R x) xs × Ordered R xs

pub Ordered-keep :
    (R : ℕ → ℕ → Type 0) (p : ℕ → Bool) (xs : List ℕ) → Ordered R xs → Ordered R (keep p xs)
unfolding keep
Ordered-keep R p [] h = tt
Ordered-keep R p (x ∷ xs) h = elim (Bool-cases (p x)) [
  | inl stays ↦ rw stays (All-keep (R x) p xs h.0, Ordered-keep R p xs h.1)
  | inr goes ↦ rw goes (Ordered-keep R p xs h.1)
]

pub All-always : (P : ℕ → Type 0) (xs : List ℕ) → ((x : ℕ) → P x) → All P xs
All-always P [] f = tt
All-always P (x ∷ xs) f = (f x, All-always P xs f)
