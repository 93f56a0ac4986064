-- ===== src/Generate/Entries.antt =====
-- The last entry that is about a key decides (pkg/runtime-tools/generate/generate.go).
use nri.Base.{
  String, ◌≡◌, refl, ◌∙◌, ap, Bool-cases, inl, inr, Option, none, some, [], ◌∷◌, string_eq, ◌==◌,
  if◌then◌else◌,
}
use nri.Base.Map.{Map}
use nri.Api.Removal.{is_marked_for_removal}
use nri.Generate.{SpecEntries, apply_entries}

-- What one entry makes of a key: a removal, a value, or nothing.
abbrev pub decision : String → String × String → Option (Option String)
decision k (j, v) =
    let (key, marked) = is_marked_for_removal j in
    if marked then if key == k then some none else none else if j == k then some (some v) else none

-- The decision of the last entry that has one.
abbrev pub last_decision : String → Map String String → Option (Option String)
last_decision k [] = none
last_decision k (e ∷ rest) = elim (last_decision k rest) [ none ↦ decision k e | some d ↦ some d ]

abbrev pub decided : Option (Option String) → Option String → Option String
decided none old = old
decided (some new) old = new

last_decision-cons :
    (k : String) (e : String × String) (m : Map String String) (old : Option String)
    → decided (last_decision k m) (decided (decision k e) old)
      ≡ decided (last_decision k (e ∷ m)) old
last_decision-cons k e m old =
    elim (last_decision k m)
      as (λ d.
        decided d (decided (decision k e) old)
        ≡ decided (elim d [ none ↦ decision k e | some x ↦ some x ]) old) [
          | none ↦ refl
          | some d ↦ refl
        ]

module _ {Spec : Type 0} (entries : SpecEntries Spec) where
  open entries use {get, add, remove}

  apply_one :
      (k j v : String) (s : Spec)
      → get k
          (if (is_marked_for_removal j).1 then remove (is_marked_for_removal j).0 s else add j v s)
        ≡ decided (decision k (j, v)) (get k s)
  apply_one k j v s = elim (Bool-cases (is_marked_for_removal j).1) [
    | inl marked ↦
        rw (marked, entries.get_remove (is_marked_for_removal j).0 k s)
          (elim (Bool-cases ((is_marked_for_removal j).0 == k)) [
            | inl same ↦ rw same refl
            | inr other ↦ rw other refl
          ])
    | inr plain ↦
        rw (plain, entries.get_add j k v s)
          (elim (Bool-cases (j == k)) [ inl same ↦ rw same refl | inr other ↦ rw other refl ])
  ]

  -- Of the entries that set or remove a key of the Spec, the last one in the order of the iteration
  -- decides; a key without such an entry keeps what it had.
  pub apply_entries-last :
      (k : String) (m : Map String String) (s : Spec)
      → get k (apply_entries entries m s) ≡ decided (last_decision k m) (get k s)
  unfolding apply_entries
  apply_entries-last k [] s = refl
  apply_entries-last k ((j, v) ∷ m) s =
      apply_entries-last k m _
      ∙ (ap (decided (last_decision k m)) (apply_one k j v s)
          ∙ last_decision-cons k (j, v) m (get k s))
