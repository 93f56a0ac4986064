-- ===== src/Adaptation/Sync/Stall.antt =====
-- Empty messages (pkg/adaptation/plugin.go), once a synchronization has come to them, go on until a call
-- fails.
use nri.Base.{
  ℕ, zero, suc, ◌+◌, ◌<◌, ◌≡◌, refl, ◌∙◌, ap, true, ◌||◌, some, List, [], ◌∷◌, ◌++◌, arith, ltb,
  sym, if◌then◌else◌,
}
use mathlib.Core.List.{append_assoc, append-nil}
use nri.Adaptation.Sync.{
  Slice, SyncRequest, replied, SyncPeer, Scale, SyncError, SyncFailure, call_failed, cannot_split,
  failed, closed, ended, recalc_objs_per_sync_msg, Syncing, continued, advance, answered, request,
  sync_round, sync_rounds, from_of,
}
use nri.Adaptation.Sync.Rounds.{first_of_near, from_of_near}

module _ {P C : Type 0} (plugin : SyncPeer P C) (scaled : Scale) where
  open plugin use {Peer, call}

  -- The empty message, with more to follow.
  abbrev pub empty_request : SyncRequest P C
  empty_request = record { pods = []; containers = []; more = true }

  -- A state with empty messages.
  abbrev pub stalled_at : Slice P → Slice C → Peer → Syncing plugin scaled
  stalled_at pods ctrs peer = record {
    pods_to_send = pods;
    ctrs_to_send = ctrs;
    pods_per_msg = 0;
    ctrs_per_msg = 0;
    peer = peer;
  }

  -- The plugin after some empty messages.
  abbrev pub after : ℕ → Peer → Peer
  after zero peer = peer
  after (suc n) peer = after n (call empty_request peer).1

  -- A plugin that collects split messages answers each of them with `More` and no updates.
  abbrev pub Collects : ℕ → Peer → Type 0
  Collects zero peer = Unit
  Collects (suc n) peer =
      ((call empty_request peer).0 ≡ replied [] true) × Collects n (call empty_request peer).1

  abbrev pub empty_requests : ℕ → List (SyncRequest P C)
  empty_requests zero = []
  empty_requests (suc n) = empty_request ∷ empty_requests n

  after_received :
      (n : ℕ) (peer : Peer)
      → Collects n peer
      → plugin.received (after n peer) ≡ plugin.received peer ++ empty_requests n
  after_received zero peer collects = sym (append-nil _)
  after_received (suc n) peer (reply, collects) =
      after_received n (call empty_request peer).1 collects
      ∙ (ap (λ l. l ++ empty_requests n) (plugin.received_replied empty_request peer [] true reply)
          ∙ append_assoc (plugin.received peer) (empty_request ∷ []) (empty_requests n))

  -- With nothing in the message there is nothing to split.
  abbrev pub failure : SyncError → SyncFailure
  failure e = if e.exhausted then cannot_split else call_failed e

  module _ (pods : Slice P) (ctrs : Slice C) (some_left : 0 < pods.len + ctrs.len) where
    stalled_request :
        (peer : Peer)
        → request plugin scaled
            (stalled_at pods ctrs peer)
            (record pods { len = 0 })
            (record ctrs { len = 0 })
          ≡ empty_request
    unfolding request
    stalled_request peer =
        let follows : (ltb 0 pods.len || ltb 0 ctrs.len) ≡ true = ground arith in
        ap (λ b. record empty_request { more = b }) follows

    from_start : {A : Type 0} (x : Slice A) → from_of 0 x ≡ some x
    from_start x =
        from_of_near 0 x (ground arith) ∙ ap (λ n. some (record x { len = n })) (omega arith)

    stalled_advance :
        (peer next : Peer)
        → advance plugin scaled (stalled_at pods ctrs peer) next
          ≡ continued (stalled_at pods ctrs next)
    unfolding advance
    stalled_advance peer next = rw (from_start pods, from_start ctrs, advance) (ground arith)

    stalled_round :
        (peer : Peer)
        → (call empty_request peer).0 ≡ replied [] true
        → sync_round plugin scaled (stalled_at pods ctrs peer)
          ≡ continued (stalled_at pods ctrs (call empty_request peer).1)
    unfolding sync_round answered
    stalled_round peer reply =
        rw (first_of_near 0 pods (ground arith), first_of_near 0 ctrs (ground arith), sync_round)
          (rw (stalled_request peer)
            (rw (reply, answered) (stalled_advance peer (call empty_request peer).1)))

    stalled_more :
        (peer : Peer)
        → (call empty_request peer).0 ≡ replied [] true
        → (n : ℕ)
        → sync_rounds plugin scaled (suc n) (stalled_at pods ctrs peer)
          ≡ sync_rounds plugin scaled n (stalled_at pods ctrs (call empty_request peer).1)
    unfolding sync_rounds
    stalled_more peer reply n = rw (stalled_round peer reply, sync_rounds) refl

    stalled_failure :
        (peer : Peer) (e : SyncError)
        → (call empty_request peer).0 ≡ failed e
        → sync_round plugin scaled (stalled_at pods ctrs peer)
          ≡ ended (closed (failure e)) (call empty_request peer).1
    unfolding sync_round answered recalc_objs_per_sync_msg
    stalled_failure peer e reply =
        rw (first_of_near 0 pods (ground arith), first_of_near 0 ctrs (ground arith), sync_round)
          (rw (stalled_request peer) (rw (reply, answered) (ground arith)))

    -- With something to be sent and empty messages, each message that the plugin answers, with
    -- `More` and no updates as one that collects split messages does, is followed by another empty
    -- one, with the same objects left; the first call that fails, as one does at the latest when the
    -- request has timed out, ends the synchronization with an error. Until then the plugin has
    -- received nothing but empty messages.
    pub stalled_until_failure :
        (n : ℕ) (peer : Peer) (e : SyncError)
        → Collects n peer
        → (call empty_request (after n peer)).0 ≡ failed e
        → let end = (call empty_request (after n peer)).1 in
          (sync_rounds plugin scaled n (stalled_at pods ctrs peer)
            ≡ continued (stalled_at pods ctrs (after n peer)))
          × (sync_rounds plugin scaled (suc n) (stalled_at pods ctrs peer)
              ≡ ended (closed (failure e)) end)
          × (plugin.received end ≡ plugin.received peer ++ empty_requests n)
    unfolding sync_rounds
    stalled_until_failure zero peer e collects fails = (
      refl,
      rw (stalled_failure peer e fails, sync_rounds) refl,
      plugin.received_failed empty_request peer e fails ∙ sym (append-nil _),
    )
    stalled_until_failure (suc n) peer e (reply, collects) fails =
        let next = (call empty_request peer).1 in
        let (goes_on, ends, got) = stalled_until_failure n next e collects fails in
        (
          stalled_more peer reply n ∙ goes_on,
          stalled_more peer reply (suc n) ∙ ends,
          plugin.received_failed empty_request (after (suc n) peer) e fails
              ∙ after_received (suc n) peer (reply, collects),
        )
