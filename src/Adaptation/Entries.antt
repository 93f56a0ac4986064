-- ===== src/Adaptation/Entries.antt =====
-- The loops that `adjustMounts`, `adjustDevices` and `adjustEnv` of pkg/adaptation/result.go share: a
-- plugin's list is split into removals and additions, what is removed is cleared from the collected
-- list, and what is added is claimed and appended.
pub mod Owned
pub mod Splitting
use nri.Base.{
  String, Bool, true, false, not, ◌&&◌, List, [], ◌∷◌, ◌++◌, string_eq, if◌then◌else◌, keep,
}
use nri.Base.Map.{Map, insert, has_key}
use nri.Base.Exec.{Outcome, ok, err, Exec, for_each}
use nri.Api.Owners.{OwningPlugins}
use nri.Api.Removal.{is_marked_for_removal}

pub record Split (A : Type 0) : Type 0 where
  pub add : List A
  pub del : Map String A
  pub mod_ : Map String A

module _ {A : Type 0} (key_of : A → String) where
  -- `for _, m := range list { if key, marked := m.IsMarkedForRemoval(); marked { … } else { … } }`
  unfoldable pub split_entries : List A → Split A → Split A
  split_entries [] s = s
  split_entries (x ∷ xs) s =
      let (key, marked) = is_marked_for_removal (key_of x) in
      split_entries xs (
        if marked
        then record s { del = insert key x s.del }
        else record s { add = s.add ++ x ∷ []; mod_ = insert key x s.mod_ })

  unfoldable pub split : List A → Split A
  unfolding split_entries
  split xs = split_entries xs (record { add = []; del = []; mod_ = [] })

  -- The collected entries that stay, and the owners after the others are cleared.
  unfoldable pub clear_removed :
      (String → OwningPlugins → OwningPlugins)
      → Map String A
      → List A
      → OwningPlugins
      → List A × OwningPlugins
  clear_removed clear del [] o = ([], o)
  clear_removed clear del (x ∷ xs) o =
      let gone = has_key (key_of x) del in
      let (rest, o') = clear_removed clear del xs (if gone then clear (key_of x) o else o) in
      (if gone then rest else x ∷ rest, o')

  -- `for _, m := range add { if err := claim(…); err != nil { return err }; list = append(list, m) }`
  unfoldable pub claim_added :
      (String → Exec OwningPlugins (Unit {0})) → List A → Exec (List A × OwningPlugins) (Unit {0})
  claim_added claim [] s = (ok tt, s)
  claim_added claim (x ∷ xs) (list, o) =
      let (r, o') = claim (key_of x) o in
      elim r [ ok _ ↦ claim_added claim xs (list ++ x ∷ [], o') | err e ↦ (err e, (list, o')) ]

-- The entries of the container that stay: those that are neither removed nor set anew.
unfoldable pub drop_changed : {A B : Type 0} → (B → String) → Split A → List B → List B
drop_changed name_of s xs =
    keep (λ x. not (has_key (name_of x) s.del) && not (has_key (name_of x) s.mod_)) xs
