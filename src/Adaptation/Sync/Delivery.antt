-- ===== src/Adaptation/Sync/Delivery.antt =====
-- A synchronization that ends well has sent every pod and container once, in order.
use nri.Base.{
  ℕ, zero, suc, ◌≤◌, ◌≡◌, refl, sym, ◌∙◌, ap, Bool, true, false, Bool-cases, inl, inr, List, [],
  ◌∷◌, ◌++◌, arith, All, All-append, length, take, drop, ltb, subst, append-take-drop, length-drop,
}
use mathlib.Core.List.{append_assoc, append-nil}
use nri.Api.Types.{ContainerUpdate}
use nri.Adaptation.Sync.{
  Slice, SyncRequest, SyncError, replied, failed, SyncPeer, synced, Scale, SyncAnswer-cases,
  Retry-cases, recalc_objs_per_sync_msg, Syncing, Round, ended, continued, Round-cases, answered,
  sync_round, sync_rounds, sync_start,
}
use nri.Adaptation.Sync.Rounds.{
  request_of, answer_of, sync_round_cases, answered_last, answered_more, advance_cases,
}

-- All elements of the messages, in order.
abbrev pub all_of : {R A : Type 0} → (R → List A) → List R → List A
all_of f [] = []
all_of f (r ∷ rs) = f r ++ all_of f rs

pub all_of-append_one :
    {R A : Type 0} (f : R → List A) (rs : List R) (r : R)
    → all_of f (rs ++ r ∷ []) ≡ all_of f rs ++ f r
all_of-append_one f [] r = append-nil (f r)
all_of-append_one f (s ∷ rs) r =
    rw (all_of-append_one f rs r) (sym (append_assoc (f s) (all_of f rs) (f r)))

all_of-sent :
    {R A : Type 0} (f : R → List A) (rs : List R) (r : R) (n : ℕ) (array : List A)
    → f r ≡ take n array
    → all_of f (rs ++ r ∷ []) ++ drop n array ≡ all_of f rs ++ array
all_of-sent f rs r n array part =
    rw (all_of-append_one f rs r, part)
      (append_assoc (all_of f rs) (take n array) (drop n array)
        ∙ ap (λ xs. all_of f rs ++ xs) (append-take-drop n array))

drop_all : {A : Type 0} (n : ℕ) (xs : List A) → length xs ≤ n → drop n xs ≡ []
drop_all zero [] h = refl
drop_all zero (x ∷ xs) h = absurd (omega arith)
drop_all (suc n) [] h = refl
drop_all (suc n) (x ∷ xs) h = drop_all n xs (omega arith)

-- All but the last message say that more will follow.
abbrev pub OnlyLast : {P C : Type 0} → List (SyncRequest P C) → Type 0
OnlyLast [] = ⊥
OnlyLast (r ∷ []) = r.more ≡ false
OnlyLast (r ∷ s ∷ rs) = (r.more ≡ true) × OnlyLast (s ∷ rs)

OnlyLast-append_one :
    {P C : Type 0} (rs : List (SyncRequest P C)) (r : SyncRequest P C)
    → All (λ s. s.more ≡ true) rs
    → r.more ≡ false
    → OnlyLast (rs ++ r ∷ [])
OnlyLast-append_one [] r h last = last
OnlyLast-append_one (s ∷ []) r h last = (h.0, last)
OnlyLast-append_one (s ∷ t ∷ rs) r h last = (h.0, OnlyLast-append_one (t ∷ rs) r h.1 last)

-- A list as a slice without spare capacity.
abbrev pub whole : {A : Type 0} → List A → Slice A
whole xs = record { array = xs; len = length xs }

-- A slice without spare capacity.
abbrev pub IsExact : {A : Type 0} → Slice A → Type 0
IsExact s = length s.array ≡ s.len

module _ {P C : Type 0} (plugin : SyncPeer P C) (scaled : Scale) (pods : List P)
    (ctrs : List C) where
  open plugin use {Peer, call, received}

  -- What has been sent and what is to be sent make up the whole.
  record IsPartial (s : Syncing plugin scaled) : Type 0 where
    exact_pods : IsExact s.pods_to_send
    exact_ctrs : IsExact s.ctrs_to_send
    pods_whole : all_of SyncRequest.pods (received s.peer) ++ s.pods_to_send.array ≡ pods
    ctrs_whole : all_of SyncRequest.containers (received s.peer) ++ s.ctrs_to_send.array ≡ ctrs
    more_follow : All (λ r. r.more ≡ true) (received s.peer)

  -- The plugin has got everything, and knows it.
  pub record IsWhole (peer : Peer) : Type 0 where
    pub all_pods : all_of SyncRequest.pods (received peer) ≡ pods
    pub all_containers : all_of SyncRequest.containers (received peer) ≡ ctrs
    pub last_marked : OnlyLast (received peer)

  abbrev Keeps : Round plugin scaled → Type 0
  Keeps (ended (synced us) peer) = IsWhole peer
  Keeps (ended _ peer) = Unit
  Keeps (continued t) = IsPartial t

  -- One more message was accepted.
  accepted :
      (s : Syncing plugin scaled) (us : List ContainerUpdate) (more : Bool)
      → IsPartial s
      → (answer_of plugin scaled s).0 ≡ replied us more
      → (all_of SyncRequest.pods (received (answer_of plugin scaled s).1)
            ++ drop s.pods_per_msg s.pods_to_send.array
          ≡ pods)
        × (all_of SyncRequest.containers (received (answer_of plugin scaled s).1)
              ++ drop s.ctrs_per_msg s.ctrs_to_send.array
            ≡ ctrs)
  accepted s us more h e =
      let now = plugin.received_replied (request_of plugin scaled s) s.peer us more e in
      (
        rw now (
            all_of-sent SyncRequest.pods (received s.peer) (request_of plugin scaled s)
              s.pods_per_msg s.pods_to_send.array refl
            ∙ h.pods_whole),
        rw now (
            all_of-sent SyncRequest.containers (received s.peer) (request_of plugin scaled s)
              s.ctrs_per_msg s.ctrs_to_send.array refl
            ∙ h.ctrs_whole),
      )

  -- Nothing is left of a slice that is sent whole.
  rest_empty :
      {A : Type 0} (n : ℕ) (x : Slice A) → IsExact x → ltb n x.len ≡ false → drop n x.array ≡ []
  rest_empty n x exact all = drop_all n x.array (ground arith)

  sent_all :
      {A : Type 0} (sent : List A) {rest whole : List A}
      → sent ++ rest ≡ whole
      → rest ≡ []
      → sent ≡ whole
  sent_all sent e none_left = sym (append-nil sent) ∙ (ap (λ xs. sent ++ xs) (sym none_left) ∙ e)

  replied-Keeps :
      (s : Syncing plugin scaled) (us : List ContainerUpdate) (more : Bool)
      → IsPartial s
      → (answer_of plugin scaled s).0 ≡ replied us more
      → Keeps (
          answered plugin scaled
            (request_of plugin scaled s)
            s
            (replied us more)
            (answer_of plugin scaled s).1)
  replied-Keeps s us more h e =
      let peer = (answer_of plugin scaled s).1 in
      let now = plugin.received_replied (request_of plugin scaled s) s.peer us more e in
      let (p, c) = accepted s us more h e in
      elim (Bool-cases (request_of plugin scaled s).more) [
        | inr last ↦
            subst Keeps
              (sym (answered_last plugin scaled (request_of plugin scaled s) s us more peer last))
              (record {
                all_pods =
                    sent_all _ p
                      (rest_empty s.pods_per_msg s.pods_to_send h.exact_pods (ground arith));
                all_containers =
                    sent_all _ c
                      (rest_empty s.ctrs_per_msg s.ctrs_to_send h.exact_ctrs (ground arith));
                last_marked = rw now (
                    OnlyLast-append_one (received s.peer) (request_of plugin scaled s) h.more_follow
                      last);
              })
        | inl follows ↦
            elim (answered_more plugin scaled (request_of plugin scaled s) s us more peer follows) [
              | inl refused ↦ subst Keeps (sym refused) tt
              | inr split ↦ elim (advance_cases plugin scaled s peer) [
                | inl far ↦ subst Keeps (sym (split ∙ far)) tt
                | inr (_, _, on) ↦ subst Keeps (sym (split ∙ on)) (record {
                  exact_pods = omega (arith, length-drop s.pods_per_msg s.pods_to_send.array);
                  exact_ctrs = omega (arith, length-drop s.ctrs_per_msg s.ctrs_to_send.array);
                  pods_whole = p;
                  ctrs_whole = c;
                  more_follow = rw now (
                      All-append _ (received s.peer) (request_of plugin scaled s ∷ []) h.more_follow
                        (follows, tt));
                })
              ]
            ]
      ]

  failed-Keeps :
      (s : Syncing plugin scaled) (e : SyncError)
      → IsPartial s
      → (answer_of plugin scaled s).0 ≡ failed e
      → Keeps (
          answered plugin scaled
            (request_of plugin scaled s)
            s
            (failed e)
            (answer_of plugin scaled s).1)
  unfolding answered
  failed-Keeps s e h error =
      let same = plugin.received_failed (request_of plugin scaled s) s.peer e error in
      elim (Retry-cases (recalc_objs_per_sync_msg scaled s.pods_per_msg s.ctrs_per_msg e)) [
        | inl (p, c, again) ↦
            rw (again, answered)
              (record {
                exact_pods = h.exact_pods;
                exact_ctrs = h.exact_ctrs;
                pods_whole = rw same h.pods_whole;
                ctrs_whole = rw same h.ctrs_whole;
                more_follow = rw same h.more_follow;
              })
        | inr (x, stop) ↦ rw (stop, answered) tt
      ]

  sync_round-Keeps : (s : Syncing plugin scaled) → IsPartial s → Keeps (sync_round plugin scaled s)
  sync_round-Keeps s h = elim (sync_round_cases plugin scaled s) [
    | inl far ↦ subst Keeps (sym far) tt
    | inr (_, _, e) ↦ elim (SyncAnswer-cases (answer_of plugin scaled s).0) [
      | inl (us, more, reply) ↦
          subst Keeps
            (sym (
              e
              ∙ ap
                  (λ a.
                    answered plugin scaled (request_of plugin scaled s) s a
                      (answer_of plugin scaled s).1)
                  reply))
            (replied-Keeps s us more h reply)
      | inr (x, error) ↦
          subst Keeps
            (sym (
              e
              ∙ ap
                  (λ a.
                    answered plugin scaled (request_of plugin scaled s) s a
                      (answer_of plugin scaled s).1)
                  error))
            (failed-Keeps s x h error)
    ]
  ]

  sync_rounds-Keeps :
      (n : ℕ) (s : Syncing plugin scaled) → IsPartial s → Keeps (sync_rounds plugin scaled n s)
  unfolding sync_rounds
  sync_rounds-Keeps zero s h = h
  sync_rounds-Keeps (suc n) s h =
      let kept = sync_round-Keeps s h in
      elim (Round-cases plugin scaled (sync_round plugin scaled s)) [
        | inl (x, peer, stop) ↦ rw (stop, sync_rounds) (let k = kept in rw stop at k)
        | inr (t, on) ↦ rw (on, sync_rounds) (sync_rounds-Keeps n t (let k = kept in rw on at k))
      ]

  -- A synchronization that ends with the plugin's updates has sent every pod and every container once,
  -- in order, with only the last message marked as the last. The plugin is a fresh one, and the slices
  -- have no spare capacity; the plugin may reject messages as oversized, and accept them, as it
  -- likes.
  pub sync_rounds-IsWhole :
      (n : ℕ) (peer final : Peer) (us : List ContainerUpdate)
      → received peer ≡ []
      → sync_rounds plugin scaled n (sync_start plugin scaled (whole pods) (whole ctrs) peer)
        ≡ ended (synced us) final
      → IsWhole final
  unfolding sync_start
  sync_rounds-IsWhole n peer final us fresh e = subst Keeps e (
      sync_rounds-Keeps n (sync_start plugin scaled (whole pods) (whole ctrs) peer) (record {
        exact_pods = refl;
        exact_ctrs = refl;
        pods_whole = rw fresh refl;
        ctrs_whole = rw fresh refl;
        more_follow = rw fresh tt;
      }))
