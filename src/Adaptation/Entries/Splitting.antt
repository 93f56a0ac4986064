-- ===== src/Adaptation/Entries/Splitting.antt =====
-- What the loop of `Entries.split` tells apart: an entry is added if its key has no mark, and removed
-- if it has one.
use nri.Base.{
  String, ◌≡◌, true, false, Bool-cases, inl, inr, List, [], ◌∷◌, ◌++◌, arith, All, All-append,
  string_eq,
}
use nri.Base.Map.{insert, All-insert}
use nri.Api.Removal.{is_marked_for_removal}
use nri.Adaptation.Entries.{Split, split, split_entries}
use nri.Adaptation.Entries.Owned.{live}

module _ {A : Type 0} (key_of : A → String) where
  abbrev pub IsSplit : Split A → Type 0
  IsSplit s =
      All (λ x. live (key_of x) ≡ true) s.add × All (λ (k, x). live (key_of x) ≡ false) s.del

  split_entries-IsSplit :
      (xs : List A) (s : Split A) → IsSplit s → IsSplit (split_entries key_of xs s)
  unfolding split_entries
  split_entries-IsSplit [] s h = h
  split_entries-IsSplit (x ∷ xs) s h = elim (Bool-cases (is_marked_for_removal (key_of x)).1) [
    | inl marked ↦
        rw (marked, split_entries)
          (split_entries-IsSplit xs
            (record s { del = insert (is_marked_for_removal (key_of x)).0 x s.del })
            (
              h.0,
              All-insert (λ e. live (key_of e.1) ≡ false) (is_marked_for_removal (key_of x)).0 x
                  s.del h.1 (ground arith),
            ))
    | inr plain ↦
        rw (plain, split_entries)
          (split_entries-IsSplit xs
            (record s {
              add = s.add ++ x ∷ [];
              mod_ = insert (is_marked_for_removal (key_of x)).0 x s.mod_;
            })
            (All-append (λ y. live (key_of y) ≡ true) s.add (x ∷ []) h.0 (ground arith, tt), h.1))
  ]

  pub split-IsSplit : (xs : List A) → IsSplit (split key_of xs)
  unfolding split
  split-IsSplit xs = split_entries-IsSplit xs (record { add = []; del = []; mod_ = [] }) (tt, tt)
