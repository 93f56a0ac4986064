-- ===== src/Adaptation/Entries/Owned.antt =====
-- The collected list of a field and its owners: each entry that is no removal is owned by a plugin, and
-- no two such entries have the same key. The loops of `Entries` keep it so, on errors too.
use mathlib.Core.List.{append-nil, append_assoc}
use nri.Base.{
  ℕ, String, ◌≡◌, ◌≢◌, refl, sym, ap, subst, Bool, true, false, not, Bool-cases, inl, inr, List, [],
  ◌∷◌, ◌++◌, string_eq, arith, keep, All, All-keep, All-keep_test, ◌∙◌, All-append, All-mono,
  eq_iff,
}
use nri.Base.Map.{Map, has_key}
use nri.Base.Exec.{Error, Outcome-cases, ok, err, Exec}
use nri.Api.Removal.{is_marked_for_removal}
use nri.Api.Owners.{OwningPlugins}
use nri.Api.Owners.Spec.{owned, compound}
use nri.Api.Owners.Refines.{IsName}
use nri.Api.Owners.Trace.{claiming, clearing, call, view_all}
use nri.Api.Owners.Exclusive.{claimed-owned, claim_keeps, clear_keeps, granted_not_owned}
use nri.Adaptation.Entries.{clear_removed, claim_added}

-- An entry that asks for no removal.
abbrev pub live : String → Bool
live key = not (is_marked_for_removal key).1

module _ {A : Type 0} (key_of : A → String) where
  -- No live entry has the key.
  abbrev pub Absent : String → List A → Type 0
  Absent key xs = All (λ y. live (key_of y) ≡ true → key_of y ≢ key) xs

  abbrev pub Distinct : List A → Type 0
  Distinct [] = Unit
  Distinct (x ∷ xs) = (live (key_of x) ≡ true → Absent (key_of x) xs) × Distinct xs

  Distinct-append_one :
      (xs : List A) (x : A)
      → Distinct xs
      → (live (key_of x) ≡ true → Absent (key_of x) xs)
      → Distinct (xs ++ x ∷ [])
  Distinct-append_one [] x d a = ((λ _. tt), tt)
  Distinct-append_one (y ∷ ys) x d a = (
    (λ h.
        All-append (λ z. live (key_of z) ≡ true → key_of z ≢ key_of y) ys (x ∷ []) (d.0 h)
          ((λ l e. (a l).0 h (sym e)), tt)),
    Distinct-append_one ys x d.1 (λ l. (a l).1),
  )

  Distinct-keep : (p : A → Bool) (xs : List A) → Distinct xs → Distinct (keep p xs)
  unfolding keep
  Distinct-keep p [] d = tt
  Distinct-keep p (x ∷ xs) d = elim (Bool-cases (p x)) [
    | inl stays ↦ rw stays (
      (λ l. All-keep (λ y. live (key_of y) ≡ true → key_of y ≢ key_of x) p xs (d.0 l)),
      Distinct-keep p xs d.1,
    )
    | inr goes ↦ rw goes (Distinct-keep p xs d.1)
  ]

  module _ (id : String) (field : ℕ) where
    -- A plugin owns the entry of the field.
    abbrev pub IsOwned : OwningPlugins → String → Type 0
    IsOwned o key = (owner : String) × (view_all o id (compound field key) ≡ owned owner)

    abbrev pub AllOwned : OwningPlugins → List A → Type 0
    AllOwned o xs = All (λ x. live (key_of x) ≡ true → IsOwned o (key_of x)) xs

    -- The invariant of a collected list.
    abbrev pub IsCollected : List A → OwningPlugins → Type 0
    IsCollected xs o = AllOwned o xs × Distinct xs

    module _ (plugin : String) (name : IsName plugin) where
      abbrev pub claim : String → Exec OwningPlugins (Unit {0})
      claim key = call (claiming id (compound field key) plugin)

      abbrev pub clear : String → OwningPlugins → OwningPlugins
      clear key o = (call (clearing id (compound field key) plugin) o).1

      claim-AllOwned :
          (key : String) (o : OwningPlugins) (xs : List A)
          → AllOwned o xs
          → AllOwned (claim key o).1 xs
      claim-AllOwned key o xs h =
          All-mono (λ x. live (key_of x) ≡ true → IsOwned o (key_of x))
            (λ x. live (key_of x) ≡ true → IsOwned (claim key o).1 (key_of x)) xs
            (λ x own l. (
              (own l).0,
              claim_keeps id (compound field (key_of x)) plugin (own l).0 id (compound field key) o
                  name (own l).1,
            ))
            h

      granted-Absent :
          (key : String) (o : OwningPlugins) (xs : List A)
          → (claim key o).0 ≡ ok tt
          → AllOwned o xs
          → Absent key xs
      granted-Absent key o xs granted h =
          All-mono (λ x. live (key_of x) ≡ true → IsOwned o (key_of x))
            (λ y. live (key_of y) ≡ true → key_of y ≢ key) xs
            (λ x own l e.
              granted_not_owned id (compound field key) plugin (own l).0 o granted
                (let h = (own l).1 in rw e at h))
            h

      -- Claiming and appending keeps the invariant, however far it gets.
      pub claim_added-IsCollected :
          (add xs : List A) (o : OwningPlugins)
          → IsCollected xs o
          → let s = (claim_added key_of claim add (xs, o)).1 in IsCollected s.0 s.1
      unfolding claim_added
      claim_added-IsCollected [] xs o h = h
      claim_added-IsCollected (x ∷ add) xs o h = elim (Outcome-cases (claim (key_of x) o).0) [
        | inl (u, granted) ↦
            rw (granted, claim_added)
              (claim_added-IsCollected add (xs ++ x ∷ []) (claim (key_of x) o).1 (
                All-append (λ y. live (key_of y) ≡ true → IsOwned (claim (key_of x) o).1 (key_of y))
                    xs (x ∷ []) (claim-AllOwned (key_of x) o xs h.0)
                    (
                      (λ _. (
                        plugin,
                        claimed-owned id (compound field (key_of x)) plugin o name granted,
                      )),
                      tt,
                    ),
                Distinct-append_one xs x h.1 (λ _. granted-Absent (key_of x) o xs granted h.0),
              ))
        | inr (e, refused) ↦ rw (refused, claim_added) (claim-AllOwned (key_of x) o xs h.0, h.1)
      ]

      clear_removed-keep :
          (del : Map String A) (xs : List A) (o : OwningPlugins)
          → (clear_removed key_of clear del xs o).0 ≡ keep (λ x. not (has_key (key_of x) del)) xs
      unfolding clear_removed keep
      clear_removed-keep del [] o = refl
      clear_removed-keep del (x ∷ xs) o = elim (Bool-cases (has_key (key_of x) del)) [
        | inl gone ↦ rw gone (clear_removed-keep del xs (clear (key_of x) o))
        | inr stays ↦ rw stays (ap (λ r. x ∷ r) (clear_removed-keep del xs o))
      ]

      -- Only removed keys lose their owners.
      clear_removed_stays :
          (del : Map String A) (xs : List A) (o : OwningPlugins) (key : String)
          → has_key key del ≡ false
          → view_all (clear_removed key_of clear del xs o).1 id (compound field key)
            ≡ view_all o id (compound field key)
      unfolding clear_removed
      clear_removed_stays del [] o key h = refl
      clear_removed_stays del (x ∷ xs) o key h = elim (Bool-cases (has_key (key_of x) del)) [
        | inl gone ↦ rw gone (
            clear_removed_stays del xs (clear (key_of x) o) key h
            ∙ clear_keeps id (compound field key) plugin id (compound field (key_of x)) o name
                (ground (arith, eq_iff (key_of x) key)))
        | inr stays ↦ rw stays (clear_removed_stays del xs o key h)
      ]

      -- Clearing what is removed keeps the invariant.
      pub clear_removed-IsCollected :
          (del : Map String A) (xs : List A) (o : OwningPlugins)
          → IsCollected xs o
          → let s = clear_removed key_of clear del xs o in IsCollected s.0 s.1
      clear_removed-IsCollected del xs o h = rw (clear_removed-keep del xs o) (
        All-keep_test
            (λ x.
              live (key_of x) ≡ true → IsOwned (clear_removed key_of clear del xs o).1 (key_of x))
            (λ x. not (has_key (key_of x) del)) xs
            (All-mono (λ x. live (key_of x) ≡ true → IsOwned o (key_of x))
              (λ x.
                not (has_key (key_of x) del) ≡ true
                → live (key_of x) ≡ true
                → IsOwned (clear_removed key_of clear del xs o).1 (key_of x))
              xs
              (λ x own stays l.
                ((own l).0, clear_removed_stays del xs o (key_of x) (ground arith) ∙ (own l).1))
              h.0),
        Distinct-keep (λ x. not (has_key (key_of x) del)) xs h.1,
      )

      claim_added_keeps :
          (add xs : List A) (o : OwningPlugins) (key owner : String)
          → view_all o id (compound field key) ≡ owned owner
          → view_all (claim_added key_of claim add (xs, o)).1.1 id (compound field key)
            ≡ owned owner
      unfolding claim_added
      claim_added_keeps [] xs o key owner own = own
      claim_added_keeps (x ∷ add) xs o key owner own =
          let kept =
            claim_keeps id (compound field key) plugin owner id (compound field (key_of x)) o name
              own in
          elim (Outcome-cases (claim (key_of x) o).0) [
            | inl (u, granted) ↦
                rw (granted, claim_added)
                  (claim_added_keeps add (xs ++ x ∷ []) (claim (key_of x) o).1 key owner kept)
            | inr (e, refused) ↦ rw (refused, claim_added) kept
          ]

      claim_added_granted :
          (x : A) (add xs : List A) (o : OwningPlugins)
          → (claim (key_of x) o).0 ≡ ok tt
          → claim_added key_of claim (x ∷ add) (xs, o)
            ≡ claim_added key_of claim add (xs ++ x ∷ [], (claim (key_of x) o).1)
      unfolding claim_added
      claim_added_granted x add xs o granted = rw (granted, claim_added)

      claim_added_refused :
          (x : A) (add xs : List A) (o : OwningPlugins) (e : Error)
          → (claim (key_of x) o).0 ≡ err e
          → (claim_added key_of claim (x ∷ add) (xs, o)).0 ≡ err e
      unfolding claim_added
      claim_added_refused x add xs o e refused = rw (refused, claim_added)

      -- What has been added is the plugin's, and is appended in order.
      pub claim_added_owned :
          (add xs : List A) (o : OwningPlugins)
          → (claim_added key_of claim add (xs, o)).0 ≡ ok tt
          → let s = (claim_added key_of claim add (xs, o)).1 in
            All (λ x. view_all s.1 id (compound field (key_of x)) ≡ owned plugin) add
            × (s.0 ≡ xs ++ add)
      claim_added_owned [] xs o h = unfold claim_added in (tt, sym (append-nil xs))
      claim_added_owned (x ∷ add) xs o h = elim (Outcome-cases (claim (key_of x) o).0) [
        | inl (u, granted) ↦
            let step = claim_added_granted x add xs o granted in
            let rest = claim_added_owned add (xs ++ x ∷ []) (claim (key_of x) o).1 (cc (step, h)) in
            subst
              (λ s.
                All (λ y. view_all s.1.1 id (compound field (key_of y)) ≡ owned plugin) (x ∷ add)
                × (s.1.0 ≡ xs ++ x ∷ add))
              (sym step)
              (
                (
                  claim_added_keeps add (xs ++ x ∷ []) (claim (key_of x) o).1 (key_of x) plugin
                      (claimed-owned id (compound field (key_of x)) plugin o name granted),
                  rest.0,
                ),
                rest.1 ∙ append_assoc xs (x ∷ []) add,
              )
        | inr (e, refused) ↦ cc (claim_added_refused x add xs o e refused, h)
      ]

      -- Removals that are appended keep the invariant.
      pub append_marked-IsCollected :
          (xs ys : List A) (o : OwningPlugins)
          → All (λ y. live (key_of y) ≡ false) ys
          → IsCollected xs o
          → IsCollected (xs ++ ys) o
      append_marked-IsCollected xs [] o marked h = rw append-nil h
      append_marked-IsCollected xs (y ∷ ys) o marked h = rw (← append_assoc xs (y ∷ []) ys) (
          append_marked-IsCollected (xs ++ y ∷ []) ys o marked.1 (
            All-append (λ x. live (key_of x) ≡ true → IsOwned o (key_of x)) xs (y ∷ []) h.0
                ((λ l. cc (l, marked.0)), tt),
            Distinct-append_one xs y h.1 (λ l. cc (l, marked.0)),
          ))

      -- The collected list after a plugin's removals and additions.
      pub collect_entries-IsCollected :
          (del : Map String A) (add xs : List A) (o : OwningPlugins)
          → IsCollected xs o
          → let s = (claim_added key_of claim add (clear_removed key_of clear del xs o)).1 in
            IsCollected s.0 s.1
      collect_entries-IsCollected del add xs o h =
          let cleared = clear_removed key_of clear del xs o in
          claim_added-IsCollected add cleared.0 cleared.1 (clear_removed-IsCollected del xs o h)
