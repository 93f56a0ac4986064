-- ===== src/Adaptation/Sync/Rounds.antt =====
-- The ways in which a round of `synchronize` goes.
use nri.Base.{
  ℕ, ◌-◌, ◌≤◌, ◌≡◌, Bool, true, false, not, Bool-cases, inl, inr, ◌⊎◌, ◌||◌, none, some, List,
  arith, length, take, drop, ltb, leb, min,
}
use nri.Api.Types.{ContainerUpdate}
use nri.Adaptation.Sync.{
  Slice, SyncRequest, SyncAnswer, replied, SyncPeer, synced, out_of_range, closed, Scale, Syncing,
  not_split, Round, ended, continued, advance, has_update, answered, request, sync_round, first_of,
  from_of,
}

pub first_of_near :
    {A : Type 0} (n : ℕ) (s : Slice A)
    → leb n (length s.array) ≡ true
    → first_of n s ≡ some (record s { len = n })
unfolding first_of
first_of_near n s near = rw near

first_of_far :
    {A : Type 0} (n : ℕ) (s : Slice A) → leb n (length s.array) ≡ false → first_of n s ≡ none
unfolding first_of
first_of_far n s far = rw far

pub from_of_near :
    {A : Type 0} (n : ℕ) (s : Slice A)
    → leb n s.len ≡ true
    → from_of n s ≡ some (record { array = drop n s.array; len = s.len - n })
unfolding from_of
from_of_near n s near = rw near

from_of_far : {A : Type 0} (n : ℕ) (s : Slice A) → leb n s.len ≡ false → from_of n s ≡ none
unfolding from_of
from_of_far n s far = rw far

module _ {P C : Type 0} (plugin : SyncPeer P C) (scaled : Scale) where
  open plugin use {Peer, call}

  -- The request of a round whose slices are in range.
  abbrev pub request_of : Syncing plugin scaled → SyncRequest P C
  request_of s = record {
    pods = take s.pods_per_msg s.pods_to_send.array;
    containers = take s.ctrs_per_msg s.ctrs_to_send.array;
    more = ltb s.pods_per_msg s.pods_to_send.len || ltb s.ctrs_per_msg s.ctrs_to_send.len;
  }

  abbrev pub answer_of : Syncing plugin scaled → SyncAnswer × Peer
  answer_of s = call (request_of s) s.peer

  abbrev pub answered_of : Syncing plugin scaled → Round plugin scaled
  answered_of s = answered plugin scaled (request_of s) s (answer_of s).0 (answer_of s).1

  pub sync_round_in_range :
      (s : Syncing plugin scaled)
      → s.pods_per_msg ≤ length s.pods_to_send.array
      → s.ctrs_per_msg ≤ length s.ctrs_to_send.array
      → sync_round plugin scaled s ≡ answered_of s
  unfolding request sync_round
  sync_round_in_range s p c = rw (
    first_of_near s.pods_per_msg s.pods_to_send (ground arith),
    first_of_near s.ctrs_per_msg s.ctrs_to_send (ground arith),
    sync_round,
  )

  pub sync_round_cases :
      (s : Syncing plugin scaled)
      → (sync_round plugin scaled s ≡ ended out_of_range s.peer)
        ⊎ ((s.pods_per_msg ≤ length s.pods_to_send.array)
            × (s.ctrs_per_msg ≤ length s.ctrs_to_send.array)
            × (sync_round plugin scaled s ≡ answered_of s))
  unfolding request sync_round
  sync_round_cases s = elim (Bool-cases (leb s.pods_per_msg (length s.pods_to_send.array))) [
    | inr far ↦ inl (rw (first_of_far s.pods_per_msg s.pods_to_send far, sync_round))
    | inl near ↦ elim (Bool-cases (leb s.ctrs_per_msg (length s.ctrs_to_send.array))) [
      | inr far ↦ inl (
          rw (
            first_of_near s.pods_per_msg s.pods_to_send near,
            first_of_far s.ctrs_per_msg s.ctrs_to_send far,
            sync_round,
          ))
      | inl close ↦
          let p : s.pods_per_msg ≤ length s.pods_to_send.array = ground arith in
          let c : s.ctrs_per_msg ≤ length s.ctrs_to_send.array = ground arith in
          inr (p, c, sync_round_in_range s p c)
    ]
  ]

  module _ (req : SyncRequest P C) (s : Syncing plugin scaled) (us : List ContainerUpdate)
      (more : Bool) (peer : Peer) where
    pub answered_last :
        req.more ≡ false
        → answered plugin scaled req s (replied us more) peer ≡ ended (synced us) peer
    unfolding answered
    answered_last last = rw last

    pub answered_more :
        req.more ≡ true
        → (answered plugin scaled req s (replied us more) peer ≡ ended (closed not_split) peer)
          ⊎ (answered plugin scaled req s (replied us more) peer ≡ advance plugin scaled s peer)
    unfolding answered
    answered_more follows = elim (Bool-cases (has_update plugin scaled us || not more)) [
      | inl refused ↦ inl (rw (follows, refused))
      | inr split ↦ inr (rw (follows, split))
    ]

  -- What is to be sent after a message of several.
  abbrev pub remaining : Syncing plugin scaled → Peer → Syncing plugin scaled
  remaining s peer = record {
    pods_to_send = record {
      array = drop s.pods_per_msg s.pods_to_send.array;
      len = s.pods_to_send.len - s.pods_per_msg;
    };
    ctrs_to_send = record {
      array = drop s.ctrs_per_msg s.ctrs_to_send.array;
      len = s.ctrs_to_send.len - s.ctrs_per_msg;
    };
    pods_per_msg = min s.pods_per_msg (s.pods_to_send.len - s.pods_per_msg);
    ctrs_per_msg = min s.ctrs_per_msg (s.ctrs_to_send.len - s.ctrs_per_msg);
    peer = peer;
  }

  pub advance_cases :
      (s : Syncing plugin scaled) (peer : Peer)
      → (advance plugin scaled s peer ≡ ended out_of_range peer)
        ⊎ ((s.pods_per_msg ≤ s.pods_to_send.len)
            × (s.ctrs_per_msg ≤ s.ctrs_to_send.len)
            × (advance plugin scaled s peer ≡ continued (remaining s peer)))
  unfolding advance
  advance_cases s peer = elim (Bool-cases (leb s.pods_per_msg s.pods_to_send.len)) [
    | inr far ↦ inl (rw (from_of_far s.pods_per_msg s.pods_to_send far, advance))
    | inl near ↦ elim (Bool-cases (leb s.ctrs_per_msg s.ctrs_to_send.len)) [
      | inr far ↦ inl (
          rw (
            from_of_near s.pods_per_msg s.pods_to_send near,
            from_of_far s.ctrs_per_msg s.ctrs_to_send far,
            advance,
          ))
      | inl close ↦ inr (
        ground arith,
        ground arith,
        rw (
          from_of_near s.pods_per_msg s.pods_to_send near,
          from_of_near s.ctrs_per_msg s.ctrs_to_send close,
          advance,
        ),
      )
    ]
  ]
