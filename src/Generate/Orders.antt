-- ===== src/Generate/Orders.antt =====
-- An annotation or a sysctl that a plugin replaces is set or removed, as the order of the iteration has
-- it (pkg/adaptation/result.go and pkg/runtime-tools/generate/generate.go).
use mathlib.Core.List.{Perm, perm_append_singleton}
use mathlib.Core.List.Perm
use nri.Base.{
  String, ◌≡◌, refl, sym, ◌∙◌, ap, true, false, Bool-cases, inl, inr, Option, none, some, [], ◌∷◌,
  ◌++◌, string_eq, ◌==◌, subst, arith, beq_refl, beq_false,
}
use nri.Base.Map.{Map, lookup, insert, delete, has_key, lookup-insert, lookup-insert_self}
use nri.Base.Exec.{ok, Outcome-cases, for_each}
use nri.Api.Removal.{is_marked_for_removal, mark_for_removal, is_marked-mark, mark-ne-plain}
use nri.Adaptation.State.{Creation}
use nri.Adaptation.Maps.{
  adjust_annotations, adjust_entries, set_entries, removed_keys, unmarked_entries,
  replace_annotation, set_annotation,
}
use nri.Api.Owners.Claims.{claim_annotation, clear_annotation}
use nri.Generate.{SpecEntries, apply_entries}
use nri.Generate.Entries.{decision, last_decision, decided, apply_entries-last}

-- Go may come to any entry of a map last.
entry_last :
    (k v : String) (m : Map String String)
    → lookup k m ≡ some v
    → (rest : Map String String) × Perm (rest ++ (k, v) ∷ []) m
unfolding lookup
entry_last k v [] e = absurd (cc)
entry_last k v ((j, w) ∷ m) e = elim (Bool-cases (j == k)) [
  | inl same ↦
      let key : j ≡ k = (string_eq.same_iff j k).0 same in
      let value : w ≡ v = ground (arith, e, same) in
      (
        m,
        subst (λ x. Perm (m ++ (k, v) ∷ []) (x ∷ m))
            (sym (ap (λ x. (x, w)) key ∙ ap (λ x. (k, x)) value)) (perm_append_singleton (k, v) m),
      )
  | inr other ↦
      let (rest, order) = entry_last k v m (ground (arith, e, other)) in
      ((j, w) ∷ rest, Perm.cons (j, w) order)
]

last_decision-append :
    (k : String) (m : Map String String) (e : String × String) (d : Option String)
    → decision k e ≡ some d
    → last_decision k (m ++ e ∷ []) ≡ some d
last_decision-append k [] e d is = rw is refl
last_decision-append k (x ∷ m) e d is = rw (last_decision-append k m e d is) refl

decision-set :
    (k v : String) → (is_marked_for_removal k).1 ≡ false → decision k (k, v) ≡ some (some v)
decision-set k v plain = rw (plain, beq_refl k) refl

decision-mark : (k v : String) → decision k (mark_for_removal k, v) ≡ some none
decision-mark k v = rw (is_marked-mark k, beq_refl k) refl

-- A map that Go may go through in these orders has either outcome.
abbrev pub Either :
    {Spec : Type 0} → SpecEntries Spec → Map String String → Spec → String → String → Type 0
Either entries m s k v =
    ((order : Map String String) × (Perm order m
        × (entries.get k (apply_entries entries order s) ≡ some v)))
    × ((order : Map String String) × (Perm order m
          × (entries.get k (apply_entries entries order s) ≡ none)))

module _ {Spec : Type 0} (entries : SpecEntries Spec) where
  open entries use {get}

  apply-Either :
      (m : Map String String) (s : Spec) (k v w : String)
      → (is_marked_for_removal k).1 ≡ false
      → lookup k m ≡ some v
      → lookup (mark_for_removal k) m ≡ some w
      → Either entries m s k v
  apply-Either m s k v w plain set marked =
      let (a, first) = entry_last k v m set in
      let (b, second) = entry_last (mark_for_removal k) w m marked in
      (
        (
          a ++ (k, v) ∷ [],
          (
            first,
            apply_entries-last entries k (a ++ (k, v) ∷ []) s
                ∙ ap (λ d. decided d (get k s))
                    (last_decision-append k a (k, v) (some v) (decision-set k v plain)),
          ),
        ),
        (
          b ++ (mark_for_removal k, w) ∷ [],
          (
            second,
            apply_entries-last entries k (b ++ (mark_for_removal k, w) ∷ []) s
                ∙ ap (λ d. decided d (get k s))
                    (last_decision-append k b (mark_for_removal k, w) none (decision-mark k w)),
          ),
        ),
      )

-- The map of a plugin that removes an annotation and sets it anew.
abbrev pub replacing : String → String → Map String String
replacing k v = (mark_for_removal k, "") ∷ (k, v) ∷ []

module _ (k v plugin : String) (c : Creation) (plain : (is_marked_for_removal k).1 ≡ false) where
  removed_keys-replacing : removed_keys (replacing k v) ≡ (k, tt) ∷ []
  unfolding removed_keys insert
  removed_keys-replacing = rw (removed_keys, is_marked-mark k, plain) refl

  unmarked_entries-replacing : unmarked_entries (replacing k v) ≡ (k, v) ∷ []
  unfolding unmarked_entries
  unmarked_entries-replacing = rw (unmarked_entries, is_marked-mark k, plain) refl

  has_key_one : has_key k ((k, tt) ∷ []) ≡ true
  unfolding has_key lookup
  has_key_one = rw (has_key, lookup, beq_refl k) refl

  delete_one : delete k ((k, tt) ∷ []) ≡ []
  unfolding delete
  delete_one = rw (delete, beq_refl k) refl

  -- The reply has the value and the mark.
  adjust_annotations-replacing :
      (adjust_annotations (replacing k v) plugin c).0 ≡ ok tt
      → let c' = (adjust_annotations (replacing k v) plugin c).1 in
        (c'.adjust.annotations ≡ insert k v (insert (mark_for_removal k) "" c.adjust.annotations))
        × (c'.container.annotations ≡ insert k v (delete k c.container.annotations))
  unfolding adjust_annotations adjust_entries set_entries replace_annotation set_annotation for_each
  adjust_annotations-replacing e =
      elim (Outcome-cases
        (claim_annotation c.container.id k plugin
          (clear_annotation c.container.id k plugin c.owners)).0) [
            | inl (u, fine) ↦
                rw
                  (
                    adjust_annotations, removed_keys-replacing, unmarked_entries-replacing,
                    set_entries, has_key_one, replace_annotation, set_annotation, fine, has_key_one,
                    delete_one, fine, for_each,
                  )
                  (refl, refl)
            | inr (x, failed) ↦
                let r = e in
                let q =
                  rw
                    (
                      adjust_annotations, removed_keys-replacing, unmarked_entries-replacing,
                      set_entries, has_key_one, replace_annotation, set_annotation, failed,
                    )
                    at r in
                absurd (cc)
          ]

-- A plugin that removes an annotation and sets it anew is granted it, and the container that the next
-- plugins see has the new value. But the reply has the value beside the mark, both of which the Spec
-- generator applies in the order in which Go happens to range over the map: one order of the same
-- entries gives the Spec the new value, another leaves it without the annotation.
pub replaced_annotation-Either :
    {Spec : Type 0} (entries : SpecEntries Spec) (k v plugin : String) (c : Creation) (s : Spec)
    → (is_marked_for_removal k).1 ≡ false
    → (adjust_annotations (replacing k v) plugin c).0 ≡ ok tt
    → let c' = (adjust_annotations (replacing k v) plugin c).1 in
      (lookup k c'.container.annotations ≡ some v) × Either entries c'.adjust.annotations s k v
replaced_annotation-Either entries k v plugin c s plain e =
    let (reply, container) = adjust_annotations-replacing k v plugin c plain e in
    (
      ap (lookup k) container ∙ lookup-insert_self k v _,
      apply-Either entries _ s k v "" plain (ap (lookup k) reply ∙ lookup-insert_self k v _) (
          ap (lookup (mark_for_removal k)) reply
          ∙ (lookup-insert k (mark_for_removal k) v
                (insert (mark_for_removal k) "" c.adjust.annotations)
              ∙ rw (beq_false k (mark_for_removal k) (λ same. mark-ne-plain k k plain (sym same)))
                  (lookup-insert_self (mark_for_removal k) "" c.adjust.annotations))),
    )
