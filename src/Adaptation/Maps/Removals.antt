-- ===== src/Adaptation/Maps/Removals.antt =====
-- Removals of map entries, and what happens to sysctls.
use nri.Base.{
  String, ◌≡◌, ◌≢◌, refl, true, false, inl, inr, none, Bool-cases, [], ◌∷◌, arith, All, string_eq,
  ◌==◌, ◌||◌, some, fun_ext, if◌then◌else◌, subst, Bool, ◌∙◌,
}
use nri.Base.Map.{Map, lookup, has_key, insert, lookup-insert}
use nri.Base.Exec.{Outcome-cases, ok, for_each, modify}
use nri.Api.Removal.{is_marked_for_removal, mark_for_removal, mark-is_marked}
use nri.Adaptation.State.{Creation}
use nri.Adaptation.Maps.{
  removed_keys, unmarked_entries, set_entries, adjust_entries, adjust_annotations, adjust_sysctl,
  set_sysctl, replace_sysctl, set_reply_annotation,
}

-- Every key of the map asks for a removal.
abbrev pub AllMarked : {V : Type 0} → Map String V → Type 0
AllMarked m = All (λ (k, v). (is_marked_for_removal k).1 ≡ true) m

unmarked_entries-AllMarked : {V : Type 0} (m : Map String V) → AllMarked m → unmarked_entries m ≡ []
unfolding unmarked_entries
unmarked_entries-AllMarked [] h = refl
unmarked_entries-AllMarked ((k, v) ∷ m) h =
    rw (h.0, unmarked_entries) (unmarked_entries-AllMarked m h.1)

-- Whether a key is the mark for one of the removed keys.
abbrev marked_in : String → Map String (Unit {0}) → Bool
marked_in k [] = false
marked_in k ((key, _) ∷ del) = (mark_for_removal key == k) || marked_in k del

marked_in-insert :
    (k key : String) (del : Map String (Unit {0}))
    → marked_in k (insert key tt del) ≡ ((mark_for_removal key == k) || marked_in k del)
unfolding insert
marked_in-insert k key [] = refl
marked_in-insert k key ((j, _) ∷ del) =
    ground (arith, string_eq.same_iff j key, marked_in-insert k key del)

-- The marks for the keys of removals are the removals' own keys.
marked_in-removed_keys :
    {V : Type 0} (k : String) (m : Map String V)
    → AllMarked m
    → marked_in k (removed_keys m) ≡ has_key k m
unfolding removed_keys has_key lookup
marked_in-removed_keys k [] h = refl
marked_in-removed_keys k ((key, v) ∷ m) h =
    let rest = marked_in-removed_keys k m h.1 in
    rw (h.0, removed_keys)
      (rw
        (marked_in-insert k (is_marked_for_removal key).0 (removed_keys m), mark-is_marked key h.0)
        (ground (arith, rest)))

-- The marked annotations of the reply are those of the removals and those that were there; nothing
-- else of the state differs.
pub record OnlyMarks (marks : String → Bool) (c d : Creation) : Type 0 where
  pub container : d.container ≡ c.container
  pub owners : d.owners ≡ c.owners
  pub adjust : d.adjust ≡ record c.adjust { annotations = d.adjust.annotations }
  pub annotations :
      (k : String)
      → lookup k d.adjust.annotations ≡ (if marks k then some "" else lookup k c.adjust.annotations)

mark_all-OnlyMarks :
    (del : Map String (Unit {0})) (c : Creation)
    → let (r, d) = for_each del (λ e. modify (set_reply_annotation (mark_for_removal e.0) "")) c in
      (r ≡ ok tt) × OnlyMarks (λ k. marked_in k del) c d
unfolding for_each
mark_all-OnlyMarks [] c =
    (refl, record { container = refl; owners = refl; adjust = refl; annotations = λ k. refl })
mark_all-OnlyMarks ((key, _) ∷ del) c =
    let marked = set_reply_annotation (mark_for_removal key) "" c in
    let (fine, rest) = mark_all-OnlyMarks del marked in
    (
      fine,
      record {
        container = rest.container;
        owners = rest.owners;
        adjust = rest.adjust;
        annotations = λ k.
            rest.annotations k
            ∙ ground (arith, lookup-insert (mark_for_removal key) k "" c.adjust.annotations);
      },
    )

-- Annotations of which all ask for a removal are accepted, and so are sysctls. Both put each of the
-- marked keys into the annotations of the reply, and change nothing else: not the container that
-- the next plugins see, nor the owners, nor any other annotation or other part of the reply.
pub removals-OnlyMarks :
    (m : Map String String) (plugin : String) (c : Creation)
    → AllMarked m
    → ((adjust_annotations m plugin c).0 ≡ ok tt)
      × OnlyMarks (λ k. has_key k m) c (adjust_annotations m plugin c).1
      × ((adjust_sysctl m plugin c).0 ≡ ok tt)
      × OnlyMarks (λ k. has_key k m) c (adjust_sysctl m plugin c).1
unfolding adjust_annotations adjust_sysctl adjust_entries set_entries
removals-OnlyMarks [] plugin c h =
    let same : OnlyMarks (λ k. has_key {V = String} k []) c c = record {
      container = refl;
      owners = refl;
      adjust = refl;
      annotations = λ k. unfold has_key lookup in refl;
    } in
    (refl, same, refl, same)
removals-OnlyMarks (e ∷ m) plugin c h =
    let (fine, marks) = mark_all-OnlyMarks (removed_keys (e ∷ m)) c in
    let all =
      subst
        (λ marked.
          OnlyMarks marked c
            (for_each (removed_keys (e ∷ m))
              (λ d. modify (set_reply_annotation (mark_for_removal d.0) "")) c).1)
        (fun_ext λ k. marked_in-removed_keys k (e ∷ m) h) marks in
    rw (unmarked_entries-AllMarked (e ∷ m) h) (fine, all, fine, all)

-- With no map of sysctls in the reply, setting one is refused or panics.
set_sysctl-ne-ok :
    (plugin k v : String) (c : Creation)
    → c.adjust.linux.sysctl ≡ none
    → (set_sysctl plugin k v c).0 ≢ ok tt
unfolding set_sysctl
set_sysctl-ne-ok plugin k v c nil = ground arith

replace_sysctl-ne-ok :
    (plugin k : String) (c : Creation)
    → c.adjust.linux.sysctl ≡ none
    → (replace_sysctl plugin k c).0 ≢ ok tt
unfolding replace_sysctl
replace_sysctl-ne-ok plugin k c nil = ground arith

set_entries-ne-ok :
    (plugin : String) (m : Map String String) (del : Map String (Unit {0})) (c : Creation)
    (del' : Map String (Unit {0}))
    → c.adjust.linux.sysctl ≡ none
    → m ≢ []
    → (set_entries (replace_sysctl plugin) (set_sysctl plugin) m del c).0 ≢ ok del'
unfolding set_entries
set_entries-ne-ok plugin [] del c del' nil some_left = absurd (some_left refl)
set_entries-ne-ok plugin ((k, v) ∷ m) del c del' nil some_left = elim (Bool-cases (has_key k del)) [
  | inl again ↦ ground (arith, replace_sysctl-ne-ok plugin k c nil)
  | inr fresh ↦ ground (arith, set_sysctl-ne-ok plugin k v c nil)
]

-- With no map of sysctls in the reply, which is how every creation starts, no sysctl can be set: a
-- claim is refused, or the write to the nil map panics.
pub adjust_sysctl-ne-ok :
    (m : Map String String) (plugin : String) (c : Creation)
    → c.adjust.linux.sysctl ≡ none
    → unmarked_entries m ≢ []
    → (adjust_sysctl m plugin c).0 ≢ ok tt
unfolding adjust_sysctl adjust_entries
adjust_sysctl-ne-ok [] plugin c nil some_left = absurd (some_left (unfold unmarked_entries in refl))
adjust_sysctl-ne-ok (e ∷ m) plugin c nil some_left = λ h.
    elim (Outcome-cases
      (set_entries (replace_sysctl plugin) (set_sysctl plugin) (unmarked_entries (e ∷ m))
        (removed_keys (e ∷ m)) c).0) [
          | inl (del, fine) ↦
              set_entries-ne-ok plugin (unmarked_entries (e ∷ m)) (removed_keys (e ∷ m)) c del nil
                some_left fine
          | inr (x, failed) ↦ cc (let g = h in rw failed at g)
        ]
