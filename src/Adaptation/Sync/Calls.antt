-- ===== src/Adaptation/Sync/Calls.antt =====
-- What holds of the plugin as long as `synchronize` goes on, and once it has ended well.
use nri.Base.{ℕ, zero, suc, ◌≡◌, sym, ◌∙◌, ap, Bool, true, false, Bool-cases, inl, inr, List, subst}
use nri.Api.Types.{ContainerUpdate}
use nri.Adaptation.Sync.{
  SyncRequest, SyncError, SyncAnswer, replied, failed, SyncPeer, synced, Scale, SyncAnswer-cases,
  Retry-cases, recalc_objs_per_sync_msg, Syncing, Round, ended, continued, Round-cases, answered,
  sync_round, sync_rounds,
}
use nri.Adaptation.Sync.Rounds.{
  request_of, answer_of, sync_round_cases, answered_last, answered_more, advance_cases,
}

-- `During` is kept by the calls after which the loop goes on, and `After` holds after the last one.
module _ {P C : Type 0} (plugin : SyncPeer P C) (During : SyncPeer.Peer plugin → Type 0)
    (After : List ContainerUpdate → SyncPeer.Peer plugin → Type 0) where
  open plugin use {Peer, call}

  pub record CallsKeep : Type 0 where
    pub on_more :
        (req : SyncRequest P C) (p : Peer) (us : List ContainerUpdate) (more : Bool)
        → During p
        → req.more ≡ true
        → (call req p).0 ≡ replied us more
        → During (call req p).1
    pub on_last :
        (req : SyncRequest P C) (p : Peer) (us : List ContainerUpdate) (more : Bool)
        → During p
        → req.more ≡ false
        → (call req p).0 ≡ replied us more
        → After us (call req p).1
    pub on_exhausted :
        (req : SyncRequest P C) (p : Peer) (e : SyncError)
        → During p
        → (call req p).0 ≡ failed e
        → e.exhausted ≡ true
        → During (call req p).1

  module _ (scaled : Scale) where
    abbrev Keeps : Round plugin scaled → Type 0
    Keeps (ended (synced us) peer) = After us peer
    Keeps (ended _ peer) = Unit
    Keeps (continued t) = During t.peer

    module _ (keep : CallsKeep) where
      replied-Keeps :
          (s : Syncing plugin scaled) (us : List ContainerUpdate) (more : Bool)
          → During s.peer
          → (answer_of plugin scaled s).0 ≡ replied us more
          → Keeps (
              answered plugin scaled
                (request_of plugin scaled s)
                s
                (replied us more)
                (answer_of plugin scaled s).1)
      replied-Keeps s us more h reply =
          let req = request_of plugin scaled s in
          let peer = (answer_of plugin scaled s).1 in
          elim (Bool-cases req.more) [
            | inr last ↦
                subst Keeps (sym (answered_last plugin scaled req s us more peer last))
                  (keep.on_last req s.peer us more h last reply)
            | inl follows ↦ elim (answered_more plugin scaled req s us more peer follows) [
              | inl refused ↦ subst Keeps (sym refused) tt
              | inr split ↦ elim (advance_cases plugin scaled s peer) [
                | inl far ↦ subst Keeps (sym (split ∙ far)) tt
                | inr (_, _, on) ↦
                    subst Keeps (sym (split ∙ on)) (keep.on_more req s.peer us more h follows reply)
              ]
            ]
          ]

      failed-Keeps :
          (s : Syncing plugin scaled) (e : SyncError)
          → During s.peer
          → (answer_of plugin scaled s).0 ≡ failed e
          → Keeps (
              answered plugin scaled
                (request_of plugin scaled s)
                s
                (failed e)
                (answer_of plugin scaled s).1)
      unfolding answered recalc_objs_per_sync_msg
      failed-Keeps s e h error = elim (Bool-cases e.exhausted) [
        | inr other ↦ rw other tt
        | inl full ↦
            elim (Retry-cases (recalc_objs_per_sync_msg scaled s.pods_per_msg s.ctrs_per_msg e)) [
              | inl (p, c, again) ↦
                  rw (again, answered)
                    (keep.on_exhausted (request_of plugin scaled s) s.peer e h error full)
              | inr (x, stop) ↦ rw (stop, answered) tt
            ]
      ]

      sync_round-Keeps :
          (s : Syncing plugin scaled) → During s.peer → Keeps (sync_round plugin scaled s)
      sync_round-Keeps s h = elim (sync_round_cases plugin scaled s) [
        | inl far ↦ subst Keeps (sym far) tt
        | inr (_, _, e) ↦
            let go : SyncAnswer → Round plugin scaled = λ a.
              answered plugin scaled (request_of plugin scaled s) s a
                (answer_of plugin scaled s).1 in
            elim (SyncAnswer-cases (answer_of plugin scaled s).0) [
              | inl (us, more, reply) ↦
                  subst Keeps (sym (e ∙ ap go reply)) (replied-Keeps s us more h reply)
              | inr (x, error) ↦ subst Keeps (sym (e ∙ ap go error)) (failed-Keeps s x h error)
            ]
      ]

      sync_rounds-Keeps :
          (n : ℕ) (s : Syncing plugin scaled)
          → During s.peer
          → Keeps (sync_rounds plugin scaled n s)
      unfolding sync_rounds
      sync_rounds-Keeps zero s h = h
      sync_rounds-Keeps (suc n) s h =
          let kept = sync_round-Keeps s h in
          elim (Round-cases plugin scaled (sync_round plugin scaled s)) [
            | inl (x, peer, stop) ↦ rw (stop, sync_rounds) (let k = kept in rw stop at k)
            | inr (t, on) ↦
                rw (on, sync_rounds) (sync_rounds-Keeps n t (let k = kept in rw on at k))
          ]

      pub sync_rounds-after :
          (n : ℕ) (s : Syncing plugin scaled) (us : List ContainerUpdate) (final : Peer)
          → During s.peer
          → sync_rounds plugin scaled n s ≡ ended (synced us) final
          → After us final
      sync_rounds-after n s us final h e = subst Keeps e (sync_rounds-Keeps n s h)
