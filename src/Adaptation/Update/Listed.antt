-- ===== src/Adaptation/Update/Listed.antt =====
-- The list of pointers `reply.update` and the map `updates` agree: each pointer leads to an update, no
-- container is listed twice, and the list has all updates but that of the request's own container.
use nri.Base.{
  String, ◌≡◌, refl, Bool, true, false, ◌&&◌, ◌||◌, not, inl, inr, Option, none, some, List, [],
  ◌∷◌, ◌++◌, ◌==◌, string_eq, arith, Option-cases, Bool-cases, eq_iff,
}
use nri.Base.Map.{lookup, insert, lookup-insert}
use nri.Base.Exec.{Outcome-cases}
use nri.Api.Types.{ContainerUpdate, Container, LinuxResources}
use nri.Adaptation.Copy.{copy}
use nri.Adaptation.State.{Resources}
use nri.Adaptation.Limits.{Targets}
use nri.Adaptation.Adjust.{Ranges}
use nri.Api.Types.{ContainerAdjustment}
use nri.Adaptation.Update.{
  Result, CollectedUpdate, is_requested, is_created, get_container_update, update_resources,
  put_resources, update, is_panic, update_targets, current_resources, Response, no_response,
  create_response, update_response, stop_response, apply, apply_all, adjust_result,
  collect_update_container_result, collect_create_container_result,
}

abbrev pub member : String → List String → Bool
member id [] = false
member id (j ∷ js) = j == id || member id js

abbrev pub Unique : List String → Type 0
Unique [] = Unit
Unique (id ∷ ids) = (member id ids ≡ false) × Unique ids

abbrev pub present : Option CollectedUpdate → Bool
present none = false
present (some u) = true

-- `reply.update` holds exactly the containers of `updates` that are not the request's own.
pub record IsListed (r : Result) : Type 0 where
  pub unique : Unique r.reply_update
  pub agrees :
      (id : String)
      → member id r.reply_update ≡ (present (lookup id r.updates) && not (is_requested id r))

member-append :
    (id j : String) (ids : List String) → member id (ids ++ j ∷ []) ≡ (member id ids || j == id)
member-append id j [] = ground arith
member-append id j (k ∷ ids) = ground (arith, member-append id j ids)

Unique-append :
    (j : String) (ids : List String) → member j ids ≡ false → Unique ids → Unique (ids ++ j ∷ [])
Unique-append j [] h u = (refl, tt)
Unique-append j (k ∷ ids) h u = (
  ground (arith, member-append k j ids, eq_iff k j, eq_iff j k),
  Unique-append j ids (ground arith) u.1,
)

module _ (id : String) (w : CollectedUpdate) (r : Result) (h : IsListed r) where
  -- A write to an update that is there, or to that of the request's container.
  insert_old-IsListed :
      (present (lookup id r.updates) || is_requested id r) ≡ true
      → IsListed (record r { updates = insert id w r.updates })
  unfolding is_requested
  insert_old-IsListed old = record {
    unique = h.unique;
    agrees = λ j. ground (arith, lookup-insert id j w r.updates, h.agrees j, eq_iff id j);
  }

  -- A new update of another container is listed.
  insert_new-IsListed :
      lookup id r.updates ≡ none
      → is_requested id r ≡ false
      → IsListed
          (record r { updates = insert id w r.updates; reply_update = r.reply_update ++ id ∷ [] })
  unfolding is_requested
  insert_new-IsListed new foreign = record {
    unique = Unique-append id r.reply_update (ground (arith, h.agrees id)) h.unique;
    agrees = λ j. ground (
      arith,
      lookup-insert id j w r.updates,
      h.agrees j,
      eq_iff id j,
      member-append j id r.reply_update,
    );
  }

get_container_update-IsListed :
    (u : ContainerUpdate) (plugin : String) (r : Result)
    → IsListed r
    → IsListed (get_container_update u plugin r).1
unfolding get_container_update
get_container_update-IsListed u plugin r h = elim (Bool-cases (is_created u.container_id r)) [
  | inl created ↦ rw (created, get_container_update) h
  | inr other ↦ elim (Option-cases (lookup u.container_id r.updates)) [
    | inl new ↦ elim (Bool-cases (is_requested u.container_id r)) [
      | inl own ↦
          rw (other, new, own, get_container_update)
            (insert_old-IsListed u.container_id _ r h (ground arith))
      | inr foreign ↦
          rw (other, new, foreign, get_container_update)
            (insert_new-IsListed u.container_id _ r h new foreign)
    ]
    | inr (v, old) ↦
        rw (other, old, get_container_update)
          (insert_old-IsListed u.container_id _ r h (ground arith))
  ]
]

put_resources-IsListed :
    (id : String) (res : Resources) (r : Result) → IsListed r → IsListed (put_resources id res r)
unfolding put_resources is_requested
put_resources-IsListed id res r h = elim (Option-cases (lookup id r.updates)) [
  | inl none_yet ↦ record { unique = h.unique; agrees = λ j. ground (arith, h.agrees j) }
  | inr (v, old) ↦ record {
    unique = h.unique;
    agrees = λ j. ground (
      arith,
      lookup-insert id j (record v { resources = copy res }) r.updates,
      h.agrees j,
      eq_iff id j,
    );
  }
]

same_lists-IsListed :
    (r s : Result)
    → s.update ≡ r.update
    → s.reply_update ≡ r.reply_update
    → s.updates ≡ r.updates
    → IsListed r
    → IsListed s
unfolding is_requested
same_lists-IsListed r s eu er es h = record {
  unique = rw er h.unique;
  agrees = λ j. ground (arith, h.agrees j);
}

update_resources-IsListed :
    (u : ContainerUpdate) (plugin : String) (r : Result)
    → IsListed r
    → IsListed (update_resources u plugin r).1
unfolding update_resources
update_resources-IsListed u plugin r h = elim (Option-cases u.resources) [
  | inl nothing ↦ rw (nothing, update_resources) h
  | inr (res, asked) ↦
      let start : Targets Resources = record {
        container = copy (current_resources u.container_id r);
        reply = none;
        owners = r.owners;
      } in
      let done = update_targets res u.container_id plugin start in
      let h' = same_lists-IsListed r (record r { owners = done.1.owners }) refl refl refl h in
      elim (Outcome-cases done.0) [
        | inl (x, granted) ↦
            rw (asked, granted, update_resources)
              (put_resources-IsListed u.container_id done.1.container
                (record r { owners = done.1.owners }) h')
        | inr (e, refused) ↦ rw (asked, refused, update_resources) h'
      ]
]

update-IsListed :
    (us : List ContainerUpdate) (plugin : String) (r : Result)
    → IsListed r
    → IsListed (update us plugin r).1
unfolding update
update-IsListed [] plugin r h = h
update-IsListed (u ∷ us) plugin r h =
    let got = get_container_update u plugin r in
    let h₁ = get_container_update-IsListed u plugin r h in
    let h₂ = update_resources-IsListed u plugin got.1 h₁ in
    let h₃ = update-IsListed us plugin (update_resources u plugin got.1).1 h₂ in
    elim (Outcome-cases got.0) [
      | inr (e, refused) ↦ rw (refused, update) h₁
      | inl (x, found) ↦ elim (Outcome-cases (update_resources u plugin got.1).0) [
        | inl (y, done) ↦ rw (found, done, update) h₃
        | inr (e, failed) ↦ elim (Bool-cases (u.ignore_failure && not (is_panic e))) [
          | inl ignored ↦ rw (found, failed, ignored, update) h₃
          | inr fatal ↦ rw (found, failed, fatal, update) h₂
        ]
      ]
    ]

adjust_result-IsListed :
    (ranges : Ranges) (rpl : ContainerAdjustment) (plugin : String) (r : Result)
    → IsListed r
    → IsListed (adjust_result ranges rpl plugin r).1
unfolding adjust_result
adjust_result-IsListed ranges rpl plugin r h = elim (Option-cases r.create) [
  | inl none_created ↦ rw (none_created, adjust_result) h
  | inr (c, created) ↦ rw (created, adjust_result) (same_lists-IsListed r _ refl refl refl h)
]

apply-IsListed :
    (ranges : Ranges) (response : Response) (plugin : String) (r : Result)
    → IsListed r
    → IsListed (apply ranges response plugin r).1
unfolding apply
apply-IsListed ranges no_response plugin r h = h
apply-IsListed ranges (create_response none us) plugin r h = update-IsListed us plugin r h
apply-IsListed ranges (create_response (some rpl) us) plugin r h =
    let h' = adjust_result-IsListed ranges rpl plugin r h in
    elim (Outcome-cases (adjust_result ranges rpl plugin r).0) [
      | inl (x, adjusted) ↦
          rw (adjusted, apply) (update-IsListed us plugin (adjust_result ranges rpl plugin r).1 h')
      | inr (e, refused) ↦ rw (refused, apply) h'
    ]
apply-IsListed ranges (update_response us) plugin r h = update-IsListed us plugin r h
apply-IsListed ranges (stop_response us) plugin r h = update-IsListed us plugin r h

apply_all-IsListed :
    (ranges : Ranges) (answers : List (String × Response)) (r : Result)
    → IsListed r
    → IsListed (apply_all ranges answers r).1
unfolding apply_all
apply_all-IsListed ranges [] r h = h
apply_all-IsListed ranges ((plugin, response) ∷ rest) r h =
    let h₁ = apply-IsListed ranges response plugin r h in
    elim (Outcome-cases (apply ranges response plugin r).0) [
      | inl (x, applied) ↦
          rw (applied, apply_all)
            (apply_all-IsListed ranges rest (apply ranges response plugin r).1 h₁)
      | inr (e, refused) ↦ rw (refused, apply_all) h₁
    ]

empty-IsListed : (r : Result) → r.reply_update ≡ [] → r.updates ≡ [] → IsListed r
unfolding lookup
empty-IsListed r el eu = record { unique = rw el tt; agrees = λ j. rw (el, eu) refl }

-- Whatever the plugins answer to the creation, the update or the stop of a container, and also if one
-- of the answers is refused, the list of updates for the runtime has no container twice, and has
-- exactly the containers with a collected update, without the container of an update request.
pub reply_update-IsListed :
    (ranges : Ranges) (answers : List (String × Response))
    → ((c : Container) → IsListed (apply_all ranges answers (collect_create_container_result c)).1)
      × ((request : Option (String × Option LinuxResources))
          → IsListed (apply_all ranges answers (collect_update_container_result request)).1)
unfolding collect_create_container_result collect_update_container_result
reply_update-IsListed ranges answers = (
  (λ c.
      apply_all-IsListed ranges answers (collect_create_container_result c)
        (empty-IsListed _ refl refl)),
  (λ request.
      apply_all-IsListed ranges answers (collect_update_container_result request)
        (empty-IsListed _ refl refl)),
)
