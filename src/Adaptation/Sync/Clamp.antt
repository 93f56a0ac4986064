-- ===== src/Adaptation/Sync/Clamp.antt =====
-- The least numbers of objects in a message, against slices that are shorter.
use nri.Base.{ℕ, ◌+◌, ◌≤◌, ◌<◌, ◌≡◌, refl, ◌∙◌, ap, true, some, inl, inr, ◌⊎◌, arith, length}
use nri.Adaptation.Sync.{
  failed, SyncPeer, out_of_range, Scale, retry, rescaled, recalc_objs_per_sync_msg, Syncing, ended,
  continued, answered, sync_round, sync_rounds,
}
use nri.Adaptation.Sync.Rounds.{answer_of, sync_round_cases, sync_round_in_range, request_of}

-- A rejected message of more than 8 objects of which fewer than 8 are left by the factor is followed
-- by one of 4 and 4.
clamped :
    (scaled : Scale) (max_len msg_len pods ctrs : ℕ)
    → 0 < max_len
    → max_len < msg_len
    → 8 < pods + ctrs
    → scaled max_len msg_len pods + scaled max_len msg_len ctrs < 8
    → recalc_objs_per_sync_msg scaled pods ctrs
        (record { exhausted = true; oversized = some (max_len, msg_len) })
      ≡ retry 4 4
unfolding recalc_objs_per_sync_msg rescaled
clamped scaled max_len msg_len pods ctrs low less many few = ground arith

module _ {P C : Type 0} (plugin : SyncPeer P C) (scaled : Scale) where
  short_round :
      (s : Syncing plugin scaled)
      → (length s.pods_to_send.array < s.pods_per_msg)
        ⊎ (length s.ctrs_to_send.array < s.ctrs_per_msg)
      → sync_round plugin scaled s ≡ ended out_of_range s.peer
  short_round s short = elim (sync_round_cases plugin scaled s) [
    | inl far ↦ far
    | inr (p, c, e) ↦ elim short [ inl a ↦ absurd (omega arith) | inr a ↦ absurd (omega arith) ]
  ]

  -- When the plugin's connection rejects a message of more than 8 objects as so much oversized that
  -- fewer than 8 of them are left, the next round panics if fewer than 4 pods or fewer than 4
  -- containers are there.
  pub sync_rounds_out_of_range :
      (s : Syncing plugin scaled) (max_len msg_len : ℕ)
      → s.pods_per_msg ≤ length s.pods_to_send.array
      → s.ctrs_per_msg ≤ length s.ctrs_to_send.array
      → (answer_of plugin scaled s).0
        ≡ failed (record { exhausted = true; oversized = some (max_len, msg_len) })
      → 0 < max_len
      → max_len < msg_len
      → 8 < s.pods_per_msg + s.ctrs_per_msg
      → scaled max_len msg_len s.pods_per_msg + scaled max_len msg_len s.ctrs_per_msg < 8
      → (length s.pods_to_send.array < 4) ⊎ (length s.ctrs_to_send.array < 4)
      → sync_rounds plugin scaled 2 s ≡ ended out_of_range (answer_of plugin scaled s).1
  unfolding sync_rounds answered
  sync_rounds_out_of_range s max_len msg_len p c error low less many few short =
      let peer = (answer_of plugin scaled s).1 in
      let next : Syncing plugin scaled = record s {
        pods_per_msg = 4;
        ctrs_per_msg = 4;
        peer = peer;
      } in
      let again = clamped scaled max_len msg_len s.pods_per_msg s.ctrs_per_msg low less many few in
      let first : sync_round plugin scaled s ≡ continued next =
        sync_round_in_range plugin scaled s p c
        ∙ (ap (λ a. answered plugin scaled (request_of plugin scaled s) s a peer) error
            ∙ rw (again, answered) refl) in
      rw (first, sync_rounds) (rw (short_round next short, sync_rounds) refl)
