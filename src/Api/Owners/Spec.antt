-- ===== src/Api/Owners/Spec.antt =====
-- What the ownership records promise, with no maps and no marks: every place of a container is free,
-- owned by a plugin, or cleared by a plugin that may set it again.
use nri.Base.{
  ℕ, String, ◌≡◌, ◌↔◌, Bool, true, false, ◌&&◌, Option, none, some, [], ◌∷◌, Key, ◌==◌, nat_eq,
  string_eq, nat_beq_iff, eq_iff, if◌then◌else◌, arith,
}
use nri.Base.Exec.{Error, conflict, Outcome, ok, err}

pub data Slot : Type 0 where
  free : Slot
  owned cleared : String → Slot

-- A field of its own, or an entry of a compound field.
pub data Place : Type 0 where
  simple : ℕ → Place
  compound : ℕ → String → Place

abbrev pub place_beq : Place → Place → Bool
place_beq (simple a) (simple b) = a == b
place_beq (compound a j) (compound b k) = (a == b) && (j == k)
place_beq _ _ = false

pub place_beq_iff : (p q : Place) → (place_beq p q ≡ true) ↔ (p ≡ q)
place_beq_iff (simple a) (simple b) = ground (arith, nat_beq_iff a b)
place_beq_iff (compound a j) (compound b k) = ground (arith, nat_beq_iff a b, eq_iff j k)
place_beq_iff (simple a) (compound b k) = ground arith
place_beq_iff (compound a j) (simple b) = ground arith

instance abbrev pub place_eq : Key Place
place_eq = record { same = place_beq; same_iff = place_beq_iff }

abbrev pub Slots : Type 0
Slots = Place → Slot

-- The plugin that stands in the way of a claim.
abbrev pub blocker : String → Slot → Option String
blocker plugin free = none
blocker plugin (owned other) = some other
blocker plugin (cleared other) = if other == plugin then none else some other

abbrev pub put : Place → Slot → Slots → Slots
put p s slots q = if p == q then s else slots q

abbrev pub error_at : Place → String → String → Error
error_at (simple field) plugin other = conflict field plugin other []
error_at (compound field entry) plugin other = conflict field plugin other (entry ∷ [])

abbrev pub spec_claim : Place → String → Slots → Outcome (Unit {0}) × Slots
spec_claim p plugin slots = elim (blocker plugin (slots p)) [
  | none ↦ (ok tt, put p (owned plugin) slots)
  | some other ↦ (err (error_at p plugin other), slots)
]

abbrev pub spec_clear : Place → String → Slots → Slots
spec_clear p plugin slots = put p (cleared plugin) slots
