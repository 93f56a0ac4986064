-- ===== src/Net/Multiplex/Reads.antt =====
-- What `conn.Read` (pkg/net/multiplex/mux.go) takes from a queue, and the queues over any step.
use nri.Base.{
  subst, List-cases, nat_eq, nat_beq_iff, ℕ, ◌<◌, ◌≡◌, refl, sym, ◌∙◌, Bool, true, ◌&&◌, Option,
  List, [], ◌∷◌, ◌++◌, length, take, ltb, nat_beq, if◌then◌else◌, Bool-cases, inl, inr,
}
use mathlib.Core.List.{append-nil}
use nri.Net.Multiplex.Frames.{Bytes, Trunk, MuxError}
use nri.Net.Multiplex.Conns.{
  read_failed, blocks, Mux, put, error, take_message, read, Event, opened, closes_conn, closes,
  unblocks, reader_runs, receives, reads, writes, step,
}
use nri.Net.Multiplex.Queues.{
  queue_of, arrived, takes, taken_out, close_queue, error_queue, open_queue, close_conn_queue,
  advance_reader_queue, write_conn_queue,
}
use nri.Net.Multiplex.Arrivals.{put_self, put_other, receive_queue}

module _ (trunk : Trunk) where
  take_message-takes :
      (g len cap : ℕ) (msg : Bytes) (rest : List Bytes) (m : Mux trunk)
      → takes trunk (take_message trunk g len cap msg rest m).0 ≡ true
  unfolding take_message
  take_message-takes g len cap msg rest m = elim (Bool-cases (ltb cap (length msg))) [
    | inl short ↦ rw short refl
    | inr fits ↦ rw fits refl
  ]

  take_message_store :
      (h g len cap : ℕ) (msg : Bytes) (rest : List Bytes) (m : Mux trunk)
      → queue_of trunk h (take_message trunk g len cap msg rest m).1
        ≡ (put trunk g (record (m.store g) { queue = rest }) m.store h).queue
  unfolding take_message
  take_message_store h g len cap msg rest m = elim (Bool-cases (ltb cap (length msg))) [
    | inl short ↦ rw short refl
    | inr fits ↦ rw fits refl
  ]

  take_message_self :
      (h len cap : ℕ) (msg : Bytes) (rest : List Bytes) (m : Mux trunk)
      → queue_of trunk h m ≡ msg ∷ rest
      → queue_of trunk h m
        ≡ take 1 (queue_of trunk h m)
          ++ queue_of trunk h (take_message trunk h len cap msg rest m).1
  take_message_self h len cap msg rest m e =
      rw
        (
          take_message_store h h len cap msg rest m,
          put_self trunk h (record (m.store h) { queue = rest }) m.store,
          e,
        )
        refl

  -- What a read leaves in the queues: all of them, or all but the first message of the one.
  take_message_queue :
      (h g len cap : ℕ) (msg : Bytes) (rest : List Bytes) (m : Mux trunk)
      → queue_of trunk g m ≡ msg ∷ rest
      → queue_of trunk h m
        ≡ (if nat_beq g h && takes trunk (take_message trunk g len cap msg rest m).0
            then take 1 (queue_of trunk h m)
            else [])
          ++ queue_of trunk h (take_message trunk g len cap msg rest m).1
  take_message_queue h g len cap msg rest m e = elim (Bool-cases (nat_beq g h)) [
    | inl same ↦
        let here = take_message_self g len cap msg rest m e in
        rw (same, take_message-takes g len cap msg rest m)
          (subst
            (λ k.
              queue_of trunk k m
              ≡ take 1 (queue_of trunk k m)
                ++ queue_of trunk k (take_message trunk g len cap msg rest m).1)
            ((nat_beq_iff g h).0 same) here)
    | inr other ↦
        rw
          (
            other,
            take_message_store h g len cap msg rest m,
            put_other trunk h g (record (m.store g) { queue = rest }) m.store other,
          )
          refl
  ]

  failed_queue :
      (h g : ℕ) (m : Mux trunk) (e : Option MuxError)
      → queue_of trunk h m
        ≡ (if nat_beq g h && takes trunk (read_failed e) then take 1 (queue_of trunk h m) else [])
          ++ queue_of trunk h (error trunk m).1
  failed_queue h g m e = elim (Bool-cases (nat_beq g h)) [
    | inl same ↦ rw same (sym (error_queue trunk h m))
    | inr other ↦ rw other (sym (error_queue trunk h m))
  ]

  blocks_queue :
      (h g : ℕ) (m : Mux trunk)
      → queue_of trunk h m
        ≡ (if nat_beq g h && takes trunk blocks then take 1 (queue_of trunk h m) else [])
          ++ queue_of trunk h m
  blocks_queue h g m = elim (Bool-cases (nat_beq g h)) [
    | inl same ↦ rw same refl
    | inr other ↦ rw other refl
  ]

  read_queue :
      (h g len cap : ℕ) (pick : Bool) (m : Mux trunk)
      → queue_of trunk h m
        ≡ taken_out trunk h (reads g len cap pick) m
          ++ queue_of trunk h (read trunk g len cap pick m).1
  unfolding read
  read_queue h g len cap pick m = elim (List-cases (queue_of trunk g m)) [
    | inl none_ ↦ elim (Bool-cases (m.store g).done) [
      | inl done ↦ rw (none_, read, done) (failed_queue h g m (error trunk m).0)
      | inr live ↦ rw (none_, read, live) (blocks_queue h g m)
    ]
    | inr (msg, rest, e) ↦ elim (Bool-cases ((m.store g).done && pick)) [
      | inl failed ↦ rw (e, read, failed) (failed_queue h g m (error trunk m).0)
      | inr taken ↦ rw (e, read, taken) (take_message_queue h g len cap msg rest m e)
    ]
  ]

  pub step_queue :
      (h : ℕ) (e : Event trunk) (m : Mux trunk)
      → h < m.next
      → queue_of trunk h m ++ arrived trunk h e m
        ≡ taken_out trunk h e m ++ queue_of trunk h (step trunk e m)
  unfolding step
  step_queue h (opened id) m old = append-nil _ ∙ sym (open_queue trunk h id m old)
  step_queue h (closes_conn g) m old = append-nil _ ∙ sym (close_conn_queue trunk h g m)
  step_queue h closes m old = append-nil _ ∙ sym (close_queue trunk h m)
  step_queue h unblocks m old = append-nil _
  step_queue h reader_runs m old = append-nil _ ∙ sym (advance_reader_queue trunk h m)
  step_queue h (receives n) m old = sym (receive_queue trunk h n m)
  step_queue h (reads g len cap pick) m old = append-nil _ ∙ read_queue h g len cap pick m
  step_queue h (writes g buf) m old = append-nil _ ∙ sym (write_conn_queue trunk h g buf m)
