-- ===== src/Adaptation/Sync/Progress.antt =====
-- When a synchronization ends.
use nri.Base.{
  ℕ, zero, suc, ◌+◌, ◌≤◌, ◌<◌, ◌≡◌, refl, sym, ◌∙◌, ap, subst, Bool, true, Bool-cases, inl, inr,
  ◌⊎◌, Option-cases, List, arith, nat_beq, ◌*◌,
}
use nri.Api.Types.{ContainerUpdate}
use nri.Adaptation.Sync.{
  Slice, SyncError, SyncAnswer, replied, failed, SyncAnswer-cases, SyncPeer, SyncEnd, Scale, retry,
  Retry-cases, rescaled, recalc_objs_per_sync_msg, Syncing, Round, ended, continued, Round-cases,
  answered, sync_round, sync_rounds, sync_start,
}
use nri.Adaptation.Sync.Rounds.{
  request_of, answer_of, sync_round_cases, answered_last, answered_more, remaining, advance_cases,
}

-- What `float64` arithmetic gives for a factor of at most 0.9: no number grows, and none but 0 stays.
pub record Shrinks (scaled : Scale) : Type 0 where
  pub zero_stays : (max_len msg_len : ℕ) → scaled max_len msg_len 0 ≡ 0
  pub falls : (max_len msg_len n : ℕ) → max_len < msg_len → 0 < n → scaled max_len msg_len n < n

module _ (scaled : Scale) (shrinks : Shrinks scaled) where
  scaled_le : (max_len msg_len n : ℕ) → max_len < msg_len → scaled max_len msg_len n ≤ n
  scaled_le max_len msg_len zero h = omega (arith, shrinks.zero_stays max_len msg_len)
  scaled_le max_len msg_len (suc n) h =
      omega (arith, shrinks.falls max_len msg_len (suc n) h (omega arith))

  rescaled_fewer :
      (max_len msg_len pods ctrs p c : ℕ)
      → max_len < msg_len
      → 8 < pods + ctrs
      → rescaled scaled max_len msg_len pods ctrs ≡ retry p c
      → p + c < pods + ctrs
  unfolding rescaled
  rescaled_fewer max_len msg_len pods ctrs p c less many h = ground (
    arith,
    scaled_le max_len msg_len pods less,
    scaled_le max_len msg_len ctrs less,
    shrinks.falls max_len msg_len pods less,
    shrinks.falls max_len msg_len ctrs less,
  )

  -- Each retry is with fewer objects.
  retry_fewer :
      (pods ctrs p c : ℕ) (e : SyncError)
      → recalc_objs_per_sync_msg scaled pods ctrs e ≡ retry p c
      → p + c < pods + ctrs
  unfolding recalc_objs_per_sync_msg
  retry_fewer pods ctrs p c e h = elim (Option-cases e.oversized) [
    | inl other ↦ ground arith
    | inr ((max_len, msg_len), over) ↦ ground (arith, rescaled_fewer max_len msg_len pods ctrs p c)
  ]

  module _ {P C : Type 0} (plugin : SyncPeer P C) where
    open plugin use {Peer, call}

    -- What is to be sent, and what the next message has.
    abbrev pub unsent : Syncing plugin scaled → ℕ
    unsent s = s.pods_to_send.len + s.ctrs_to_send.len

    abbrev pub per_msg : Syncing plugin scaled → ℕ
    per_msg s = s.pods_per_msg + s.ctrs_per_msg

    -- Something is to be sent, and the messages are empty.
    abbrev pub Stalled : Syncing plugin scaled → Type 0
    Stalled s = (per_msg s ≡ 0) × (0 < unsent s)

    abbrev Progress : Syncing plugin scaled → Round plugin scaled → Type 0
    Progress s (ended x peer) = Unit
    Progress s (continued t) = (unsent t + per_msg t < unsent s + per_msg s) ⊎ Stalled s

    remaining-Progress :
        (s : Syncing plugin scaled) (peer : Peer)
        → s.pods_per_msg ≤ s.pods_to_send.len
        → s.ctrs_per_msg ≤ s.ctrs_to_send.len
        → (request_of plugin scaled s).more ≡ true
        → Progress s (continued (remaining plugin scaled s peer))
    remaining-Progress s peer a b follows =
        elim (Bool-cases (nat_beq (s.pods_per_msg + s.ctrs_per_msg) 0)) [
          | inl stuck ↦ inr (ground arith, ground arith)
          | inr some_left ↦ inl (ground arith)
        ]

    replied-Progress :
        (s : Syncing plugin scaled) (us : List ContainerUpdate) (more : Bool) (peer : Peer)
        → Progress s (answered plugin scaled (request_of plugin scaled s) s (replied us more) peer)
    replied-Progress s us more peer =
        let req = request_of plugin scaled s in
        elim (Bool-cases req.more) [
          | inr last ↦
              subst (Progress s) (sym (answered_last plugin scaled req s us more peer last)) tt
          | inl follows ↦ elim (answered_more plugin scaled req s us more peer follows) [
            | inl refused ↦ subst (Progress s) (sym refused) tt
            | inr split ↦ elim (advance_cases plugin scaled s peer) [
              | inl far ↦ subst (Progress s) (sym (split ∙ far)) tt
              | inr (a, b, on) ↦
                  subst (Progress s) (sym (split ∙ on)) (remaining-Progress s peer a b follows)
            ]
          ]
        ]

    failed-Progress :
        (s : Syncing plugin scaled) (e : SyncError) (peer : Peer)
        → Progress s (answered plugin scaled (request_of plugin scaled s) s (failed e) peer)
    unfolding answered
    failed-Progress s e peer =
        elim (Retry-cases (recalc_objs_per_sync_msg scaled s.pods_per_msg s.ctrs_per_msg e)) [
          | inl (p, c, again) ↦
              rw (again, answered)
                (inl (omega (arith, retry_fewer s.pods_per_msg s.ctrs_per_msg p c e again)))
          | inr (x, stop) ↦ rw (stop, answered) tt
        ]

    sync_round-Progress : (s : Syncing plugin scaled) → Progress s (sync_round plugin scaled s)
    sync_round-Progress s =
        let answers = λ (a : SyncAnswer).
          answered plugin scaled (request_of plugin scaled s) s a (answer_of plugin scaled s).1 in
        elim (sync_round_cases plugin scaled s) [
          | inl far ↦ subst (Progress s) (sym far) tt
          | inr (_, _, e) ↦ elim (SyncAnswer-cases (answer_of plugin scaled s).0) [
            | inl (us, more, reply) ↦
                subst (Progress s) (sym (e ∙ ap answers reply))
                  (replied-Progress s us more (answer_of plugin scaled s).1)
            | inr (x, error) ↦
                subst (Progress s) (sym (e ∙ ap answers error))
                  (failed-Progress s x (answer_of plugin scaled s).1)
          ]
        ]

    -- A run of some rounds has ended, or it has come to messages that are empty.
    abbrev pub Ends : ℕ → Syncing plugin scaled → Type 0
    Ends n s = (x : SyncEnd) × (peer : Peer) × (sync_rounds plugin scaled n s ≡ ended x peer)

    abbrev pub Stalls : Syncing plugin scaled → Type 0
    Stalls s =
        (k : ℕ) × (t : Syncing plugin scaled) × (sync_rounds plugin scaled k s ≡ continued t)
        × Stalled t

    Ends-or_Stalls :
        (n : ℕ) (s : Syncing plugin scaled) → unsent s + per_msg s < n → Ends n s ⊎ Stalls s
    unfolding sync_rounds
    Ends-or_Stalls zero s h = absurd (omega arith)
    Ends-or_Stalls (suc n) s h =
        let progress = sync_round-Progress s in
        elim (Round-cases plugin scaled (sync_round plugin scaled s)) [
          | inl (x, peer, stop) ↦ inl (x, peer, rw (stop, sync_rounds))
          | inr (t, on) ↦ elim (let p = progress in rw on at p) [
            | inr stuck ↦ inr (0, s, refl, stuck)
            | inl less ↦ elim (Ends-or_Stalls n t (omega arith)) [
              | inl (x, peer, stop) ↦ inl (x, peer, rw (on, sync_rounds) stop)
              | inr (k, u, more, stuck) ↦ inr (suc k, u, rw (on, sync_rounds) more, stuck)
            ]
          ]
        ]

    -- Twice as many rounds as there are pods and containers are enough, and one more: the
    -- synchronization then has ended, or it has come to a state in which something is to be sent and the
    -- messages are empty. The plugin may answer as it likes.
    pub sync_start-Ends_or_Stalls :
        (pods : Slice P) (ctrs : Slice C) (peer : Peer) (n : ℕ)
        → 2 * (pods.len + ctrs.len) < n
        → Ends n (sync_start plugin scaled pods ctrs peer)
          ⊎ Stalls (sync_start plugin scaled pods ctrs peer)
    unfolding sync_start
    sync_start-Ends_or_Stalls pods ctrs peer n h =
        Ends-or_Stalls n (sync_start plugin scaled pods ctrs peer) (omega arith)
