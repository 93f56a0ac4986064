-- ===== src/Api/Owners/Refines.antt =====
-- The maps of owners implement the slots of `Spec`.
use nri.Base.{
  ℕ, String, ◌≡◌, refl, false, Option, none, some, Option-cases, inl, inr, [], ◌∷◌, nat_eq,
  string_eq, nat_beq_iff, eq_iff, if◌then◌else◌, arith,
}
use nri.Base.Map.{lookup, insert, lookup-empty, lookup-insert, lookup-insert_self, insert-insert}
use nri.Base.Exec.{ok, err, Exec}
use nri.Api.Removal.{is_marked_for_removal, mark_for_removal}
use nri.Api.Owners.{
  CompoundFieldOwners, new_compound_field_owners, check_owner, FieldOwners, new_field_owners,
  claim_simple, claim_compound, clear_simple, clear_compound, compound_owner, simple_owner,
}
use nri.Api.Owners.Spec.{
  Slot, free, owned, cleared, Place, simple, compound, place_eq, Slots, spec_claim, spec_clear,
}

-- Plugin names do not begin with the mark; NRI's have the form "index-name".
abbrev pub IsName : String → Type 0
IsName plugin = is_marked_for_removal plugin ≡ (plugin, false)

unfoldable pub read_slot : Option String → Slot
read_slot none = free
read_slot (some other) =
    let (name, marked) = is_marked_for_removal other in if marked then cleared name else owned other

abbrev owner_at : Place → Option FieldOwners → Option String
owner_at (simple field) f = simple_owner field f
owner_at (compound field entry) f = compound_owner field entry f

-- The slots that a container's owners stand for.
unfoldable pub view : Option FieldOwners → Slots
view f p = read_slot (owner_at p f)

abbrev pub claim : Place → String → Exec FieldOwners (Unit {0})
claim (simple field) plugin = claim_simple field plugin
claim (compound field entry) plugin = claim_compound field entry plugin

abbrev pub clear : Place → String → FieldOwners → FieldOwners
clear (simple field) plugin f = clear_simple field plugin f
clear (compound field entry) plugin f = clear_compound field entry plugin f

module _ (field : ℕ) (entry plugin : String) (f : FieldOwners) where
  -- The first claim of a compound field makes its map.
  pub claim_compound_new :
      lookup field f.compound ≡ none
      → claim_compound field entry plugin f ≡ (
        ok tt,
        record f {
          compound = insert field (record { owners = insert entry plugin [] }) f.compound;
        },
      )
  unfolding claim_compound
  claim_compound_new absent = ground (
    arith,
    lookup-insert_self field new_compound_field_owners f.compound,
    insert-insert field (record { owners = insert entry plugin [] }) new_compound_field_owners
        f.compound,
  )

  pub claim_compound_old :
      (m : CompoundFieldOwners)
      → lookup field f.compound ≡ some m
      → claim_compound field entry plugin f
        ≡ elim (check_owner field plugin (entry ∷ []) (lookup entry m.owners)) [
          | ok _ ↦ (
            ok tt,
            record f {
              compound =
                  insert field (record m { owners = insert entry plugin m.owners }) f.compound;
            },
          )
          | err e ↦ (err e, f)
        ]
  unfolding claim_compound
  claim_compound_old m present = ground arith

claim-result-simple :
    (field : ℕ) (plugin : String) (f : FieldOwners)
    → (claim_simple field plugin f).0 ≡ (spec_claim (simple field) plugin (view (some f))).0
unfolding claim_simple view simple_owner read_slot
claim-result-simple field plugin f = ground arith

claim-result-compound :
    (field : ℕ) (entry plugin : String) (f : FieldOwners)
    → (claim_compound field entry plugin f).0
      ≡ (spec_claim (compound field entry) plugin (view (some f))).0
unfolding check_owner view compound_owner read_slot
claim-result-compound field entry plugin f = elim (Option-cases (lookup field f.compound)) [
  | inl absent ↦ ground (arith, claim_compound_new field entry plugin f absent)
  | inr (m, present) ↦ ground (arith, claim_compound_old field entry plugin f m present)
]

claim-slots-simple :
    (field : ℕ) (plugin : String) (f : FieldOwners)
    → IsName plugin
    → (q : Place)
    → view (some (claim_simple field plugin f).1) q
      ≡ (spec_claim (simple field) plugin (view (some f))).1 q
unfolding claim_simple view simple_owner compound_owner read_slot
claim-slots-simple field plugin f name (simple g) =
    ground (arith, lookup-insert field g plugin f.simple)
claim-slots-simple field plugin f name (compound g k) = ground arith

claim-slots-compound :
    (field : ℕ) (entry plugin : String) (f : FieldOwners)
    → IsName plugin
    → (q : Place)
    → view (some (claim_compound field entry plugin f).1) q
      ≡ (spec_claim (compound field entry) plugin (view (some f))).1 q
unfolding check_owner view simple_owner compound_owner read_slot
claim-slots-compound field entry plugin f name (simple g) =
    elim (Option-cases (lookup field f.compound)) [
      | inl absent ↦ ground (arith, claim_compound_new field entry plugin f absent)
      | inr (m, present) ↦ ground (arith, claim_compound_old field entry plugin f m present)
    ]
claim-slots-compound field entry plugin f name (compound g k) =
    elim (Option-cases (lookup field f.compound)) [
      | inl absent ↦ ground (
        arith,
        claim_compound_new field entry plugin f absent,
        lookup-insert field g (record { owners = insert entry plugin [] }) f.compound,
        lookup-insert entry k plugin [],
        lookup-empty {V = String} k,
        nat_beq_iff field g,
        eq_iff entry k,
      )
      | inr (m, present) ↦ ground (
        arith,
        claim_compound_old field entry plugin f m present,
        lookup-insert field g (record { owners = insert entry plugin m.owners }) f.compound,
        lookup-insert entry k plugin m.owners,
        nat_beq_iff field g,
        eq_iff entry k,
      )
    ]

module _ (plugin : String) (f : FieldOwners) where
  -- A claim answers as the slots say.
  pub claim-result : (p : Place) → (claim p plugin f).0 ≡ (spec_claim p plugin (view (some f))).0
  claim-result (simple field) = claim-result-simple field plugin f
  claim-result (compound field entry) = claim-result-compound field entry plugin f

  -- A claim leaves the slots that the slots say.
  pub claim-slots :
      (p : Place)
      → IsName plugin
      → (q : Place) → view (some (claim p plugin f).1) q ≡ (spec_claim p plugin (view (some f))).1 q
  claim-slots (simple field) name q = claim-slots-simple field plugin f name q
  claim-slots (compound field entry) name q = claim-slots-compound field entry plugin f name q

  -- A clear leaves the slots that the slots say.
  pub clear-slots :
      (p q : Place) → view (some (clear p plugin f)) q ≡ spec_clear p plugin (view (some f)) q
  unfolding clear_simple clear_compound view simple_owner compound_owner read_slot
      is_marked_for_removal mark_for_removal
  clear-slots (simple field) (simple g) =
      ground (arith, lookup-insert field g (mark_for_removal plugin) f.simple)
  clear-slots (simple field) (compound g k) = refl
  clear-slots (compound field entry) (simple g) = refl
  clear-slots (compound field entry) (compound g k) =
      elim (Option-cases (lookup field f.compound)) [
        | inl absent ↦ ground (
          arith,
          lookup-insert field g (record { owners = insert entry (mark_for_removal plugin) [] })
              f.compound,
          lookup-insert entry k (mark_for_removal plugin) [],
          lookup-empty {V = String} k,
          nat_beq_iff field g,
          eq_iff entry k,
        )
        | inr (m, present) ↦ ground (
          arith,
          lookup-insert field g
              (record { owners = insert entry (mark_for_removal plugin) m.owners }) f.compound,
          lookup-insert entry k (mark_for_removal plugin) m.owners,
          nat_beq_iff field g,
          eq_iff entry k,
        )
      ]

-- No owners, and owners that hold nothing, stand for the same slots.
pub view-new : (p : Place) → view (some new_field_owners) p ≡ view none p
unfolding view simple_owner compound_owner lookup
view-new (simple field) = refl
view-new (compound field entry) = refl
