-- ===== src/Net/Multiplex/Fifo.antt =====
-- The queues, and what is read from them, over a run of events of a mux (pkg/net/multiplex/mux.go).
use nri.Base.{ℕ, ◌≤◌, ◌<◌, ◌≡◌, sym, ap, ◌∙◌, List, [], ◌∷◌, ◌++◌, arith}
use mathlib.Core.List.{append_assoc, append-nil}
use nri.Net.Multiplex.Frames.{Bytes, Trunk, frame, no_frame}
use nri.Net.Multiplex.Conns.{
  Mux, set_error, error, close, open_, enqueue, dispatch, receive, take_message, read, after_write,
  write_conn, close_conn, advance_reader, Event, opened, closes_conn, closes, unblocks, reader_runs,
  receives, reads, writes, step, run,
}
use nri.Net.Multiplex.Queues.{queue_of, arrived, taken_out, all_arrived, all_taken_out}
use nri.Net.Multiplex.Reads.{step_queue}
use nri.Net.Multiplex.Returns.{AllGive, all_returned, run-AllGive}

module _ (trunk : Trunk) where
  step_next : (e : Event trunk) (m : Mux trunk) → m.next ≤ (step trunk e m).next
  unfolding step open_ close_conn close advance_reader receive dispatch enqueue set_error read
      take_message error write_conn after_write
  step_next (opened id) m = ground arith
  step_next (closes_conn g) m = ground arith
  step_next closes m = ground arith
  step_next unblocks m = ground arith
  step_next reader_runs m = ground arith
  step_next (receives (frame f rest)) m = ground arith
  step_next (receives (no_frame e)) m = ground arith
  step_next (reads g len cap pick) m = ground arith
  step_next (writes g buf) m = ground arith

  taken_queue :
      (h : ℕ) (es : List (Event trunk)) (m : Mux trunk)
      → h < m.next
      → queue_of trunk h m ++ all_arrived trunk h es m
        ≡ all_taken_out trunk h es m ++ queue_of trunk h (run trunk es m)
  unfolding run
  taken_queue h [] m old = append-nil _
  taken_queue h (e ∷ es) m old =
      let m' = step trunk e m in
      let rest = taken_queue h es m' (omega (arith, step_next e m)) in
      sym (append_assoc (queue_of trunk h m) (arrived trunk h e m) (all_arrived trunk h es m'))
      ∙ (ap (λ xs. xs ++ all_arrived trunk h es m') (step_queue trunk h e m old)
          ∙ (append_assoc (taken_out trunk h e m) (queue_of trunk h m') (all_arrived trunk h es m')
              ∙ (ap (λ xs. taken_out trunk h e m ++ xs) rest
                  ∙ sym (
                      append_assoc (taken_out trunk h e m) (all_taken_out trunk h es m')
                        (queue_of trunk h (run trunk es m'))))))

  -- Over any run of calls and of the reader, what was in the queue of a connection and the payloads
  -- that came for it are, in this order, the messages that reads took and what is in the queue at
  -- the end. For each message, in the order of the reads, the one that took it returned its size and
  -- as many of its bytes as the buffer is long, or, if the message is larger than the buffer's
  -- capacity, that it has no memory for it, and then it is lost. The connection is one that was
  -- opened before the run.
  pub run-queue :
      (h : ℕ) (es : List (Event trunk)) (m : Mux trunk)
      → h < m.next
      → (taken : List Bytes) × AllGive (all_returned trunk h es m) taken
        × (queue_of trunk h m ++ all_arrived trunk h es m
            ≡ taken ++ queue_of trunk h (run trunk es m))
  run-queue h es m old =
      (all_taken_out trunk h es m, run-AllGive trunk h es m, taken_queue h es m old)
