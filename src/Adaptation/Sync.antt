-- ===== src/Adaptation/Sync.antt =====
-- `plugin.synchronize` and `recalcObjsPerSyncMsg` (pkg/adaptation/plugin.go): the pods and containers
-- of the runtime are sent to a plugin, in smaller messages once the plugin's connection rejects one
-- as oversized.
pub mod Rounds
pub mod Delivery
pub mod Calls
pub mod Progress
pub mod Stall
pub mod Clamp
mod Tests
use nri.Base.{
  ℕ, zero, suc, ◌+◌, ◌-◌, ◌≤◌, ◌<◌, ◌≡◌, refl, ◌⊎◌, inl, inr, Bool, true, false, not, ◌&&◌, ◌||◌,
  Option, none, some, List, [], ◌∷◌, ◌++◌, length, take, drop, ltb, leb, min, nat_beq,
  if◌then◌else◌,
}
use nri.Api.Types.{ContainerUpdate}

-- A Go slice: the elements of its array up to its capacity, and its length.
pub record Slice (A : Type 0) : Type 0 where
  pub array : List A
  pub len : ℕ

abbrev pub elements : {A : Type 0} → Slice A → List A
elements s = take s.len s.array

-- `s[:n]`, which panics past the capacity, and may reach past the length.
unfoldable pub first_of : {A : Type 0} → ℕ → Slice A → Option (Slice A)
first_of n s = if leb n (length s.array) then some (record s { len = n }) else none

-- `s[n:]`, which panics past the length.
unfoldable pub from_of : {A : Type 0} → ℕ → Slice A → Option (Slice A)
from_of n s =
    if leb n s.len then some (record { array = drop n s.array; len = s.len - n }) else none

pub record SyncRequest (P C : Type 0) : Type 0 where
  pub pods : List P
  pub containers : List C
  pub more : Bool

-- An error of the call: whether its status code is `ResourceExhausted`, and the limit and the length
-- that `ttrpc.OversizedMessageErr` reports, if it is one.
pub record SyncError : Type 0 where
  pub exhausted : Bool
  pub oversized : Option (ℕ × ℕ)

pub data SyncAnswer : Type 0 where
  -- the plugin's updates, and its `More`
  replied : List ContainerUpdate → Bool → SyncAnswer
  failed : SyncError → SyncAnswer

pub SyncAnswer-cases :
    (a : SyncAnswer)
    → ((us : List ContainerUpdate) × (more : Bool) × (a ≡ replied us more))
      ⊎ ((e : SyncError) × (a ≡ failed e))
SyncAnswer-cases (replied us more) = inl (us, more, refl)
SyncAnswer-cases (failed e) = inr (e, refl)

pub data SyncFailure : Type 0 where
  -- the error of the call itself
  call_failed : SyncError → SyncFailure
  -- "failed to synchronize plugin with split messages"
  cannot_split : SyncFailure
  -- "plugin does not handle split sync requests"
  not_split : SyncFailure

abbrev pub min_objs_per_msg : ℕ
min_objs_per_msg = 8

-- `scaled maxLen msgLen n` stands for `int(float64(n) * factor)`, where `factor` is the quotient
-- of the two lengths, or 0.9 if that is less.
abbrev pub Scale : Type 0
Scale = ℕ → ℕ → ℕ → ℕ

-- The numbers of objects for the next try, or the error to return.
pub data Retry : Type 0 where
  retry : ℕ → ℕ → Retry
  give_up : SyncFailure → Retry

pub Retry-cases :
    (r : Retry) → ((p : ℕ) × (c : ℕ) × (r ≡ retry p c)) ⊎ ((x : SyncFailure) × (r ≡ give_up x))
Retry-cases (retry p c) = inl (p, c, refl)
Retry-cases (give_up x) = inr (x, refl)

unfoldable pub rescaled : Scale → ℕ → ℕ → ℕ → ℕ → Retry
rescaled scaled max_len msg_len pods ctrs =
    let p = scaled max_len msg_len pods in
    let c = scaled max_len msg_len ctrs in
    if ltb (p + c) min_objs_per_msg then retry 4 4 else retry p c

unfoldable pub recalc_objs_per_sync_msg : Scale → ℕ → ℕ → SyncError → Retry
unfolding rescaled
recalc_objs_per_sync_msg scaled pods ctrs e =
    if not e.exhausted
    then give_up (call_failed e)
    else if leb (pods + ctrs) min_objs_per_msg
    then give_up cannot_split
    else elim e.oversized [
      | none ↦ give_up cannot_split
      | some (max_len, msg_len) ↦
          if nat_beq msg_len 0 || (nat_beq max_len 0 || leb msg_len max_len)
          then give_up cannot_split
          else rescaled scaled max_len msg_len pods ctrs
    ]

-- What `plugin.synchronize` relies on: a plugin behind its connection, which keeps the requests that
-- it has answered. A call that fails has not reached it.
pub record SyncPeer (P C : Type 0) : Type 1 where
  pub Peer : Type 0
  pub call : SyncRequest P C → Peer → SyncAnswer × Peer
  pub received : Peer → List (SyncRequest P C)
  pub received_replied :
      (req : SyncRequest P C) (p : Peer) (us : List ContainerUpdate) (more : Bool)
      → (call req p).0 ≡ replied us more
      → received (call req p).1 ≡ received p ++ req ∷ []
  pub received_failed :
      (req : SyncRequest P C) (p : Peer) (e : SyncError)
      → (call req p).0 ≡ failed e
      → received (call req p).1 ≡ received p

-- How the call ends: with the plugin's updates, with an error after the plugin is closed, or with the
-- panic of a slice out of range.
pub data SyncEnd : Type 0 where
  synced : List ContainerUpdate → SyncEnd
  closed : SyncFailure → SyncEnd
  out_of_range : SyncEnd

module _ {P C : Type 0} (plugin : SyncPeer P C) (scaled : Scale) where
  open plugin use {Peer, call}

  -- `podsToSend`, `ctrsToSend`, `podsPerMsg`, `ctrsPerMsg`, and the plugin.
  pub record Syncing : Type 0 where
    pub pods_to_send : Slice P
    pub ctrs_to_send : Slice C
    pub pods_per_msg : ℕ
    pub ctrs_per_msg : ℕ
    pub peer : Peer

  pub data Round : Type 0 where
    ended : SyncEnd → Peer → Round
    continued : Syncing → Round

  pub Round-cases :
      (r : Round)
      → ((x : SyncEnd) × (p : Peer) × (r ≡ ended x p)) ⊎ ((s : Syncing) × (r ≡ continued s))
  Round-cases (ended x p) = inl (x, p, refl)
  Round-cases (continued s) = inr (s, refl)

  -- After a message of several was accepted, the rest is to be sent.
  unfoldable pub advance : Syncing → Peer → Round
  unfolding from_of
  advance s peer = elim (from_of s.pods_per_msg s.pods_to_send) [
    | none ↦ ended out_of_range peer
    | some pods ↦ elim (from_of s.ctrs_per_msg s.ctrs_to_send) [
      | none ↦ ended out_of_range peer
      | some ctrs ↦ continued (record {
        pods_to_send = pods;
        ctrs_to_send = ctrs;
        pods_per_msg = min s.pods_per_msg pods.len;
        ctrs_per_msg = min s.ctrs_per_msg ctrs.len;
        peer = peer;
      })
    ]
  ]

  abbrev pub has_update : List ContainerUpdate → Bool
  has_update [] = false
  has_update (u ∷ us) = true

  -- The branches on the plugin's answer to a request.
  unfoldable pub answered : SyncRequest P C → Syncing → SyncAnswer → Peer → Round
  unfolding advance recalc_objs_per_sync_msg
  answered req s (replied us more) peer =
      if not req.more
      then ended (synced us) peer
      else if has_update us || not more
      then ended (closed not_split) peer
      else advance s peer
  answered req s (failed e) peer =
      elim (recalc_objs_per_sync_msg scaled s.pods_per_msg s.ctrs_per_msg e) [
        | retry p c ↦ continued (record s { pods_per_msg = p; ctrs_per_msg = c; peer = peer })
        | give_up x ↦ ended (closed x) peer
      ]

  unfoldable pub request : Syncing → Slice P → Slice C → SyncRequest P C
  request s pods ctrs = record {
    pods = elements pods;
    containers = elements ctrs;
    more = ltb s.pods_per_msg s.pods_to_send.len || ltb s.ctrs_per_msg s.ctrs_to_send.len;
  }

  -- One round of the loop.
  unfoldable pub sync_round : Syncing → Round
  unfolding first_of request answered
  sync_round s = elim (first_of s.pods_per_msg s.pods_to_send) [
    | none ↦ ended out_of_range s.peer
    | some pods ↦ elim (first_of s.ctrs_per_msg s.ctrs_to_send) [
      | none ↦ ended out_of_range s.peer
      | some ctrs ↦
          let req = request s pods ctrs in
          let (answer, peer) = call req s.peer in answered req s answer peer
    ]
  ]

  -- The loop, for a number of rounds.
  unfoldable pub sync_rounds : ℕ → Syncing → Round
  sync_rounds zero s = continued s
  sync_rounds (suc n) s = elim (sync_round s) [
    | ended x peer ↦ ended x peer
    | continued t ↦ sync_rounds n t
  ]

  -- The first message has everything.
  unfoldable pub sync_start : Slice P → Slice C → Peer → Syncing
  sync_start pods ctrs peer = record {
    pods_to_send = pods;
    ctrs_to_send = ctrs;
    pods_per_msg = pods.len;
    ctrs_per_msg = ctrs.len;
    peer = peer;
  }
