-- ===== src/Net/Multiplex/Bounds.antt =====
-- The queues of a mux (pkg/net/multiplex/mux.go) do not outgrow the length it was made with.
use nri.Base.{
  ℕ, ◌+◌, ◌≤◌, ◌<◌, ◌≡◌, refl, ap, ◌∙◌, Bool, List, [], ◌∷◌, length, ltb, arith, Bool-cases, inl,
  inr, length-append,
}
use nri.Net.Multiplex.Frames.{Trunk, frame, no_frame}
use nri.Net.Multiplex.Conns.{
  Mux, new_mux, set_error, error, close, open_, enqueue, dispatch, receive, take_message, read,
  after_write, write_conn, close_conn, advance_reader, Event, opened, closes_conn, closes, unblocks,
  reader_runs, receives, reads, writes, step, run,
}
use nri.Net.Multiplex.Queues.{queue_of, arrived, taken_out}
use nri.Net.Multiplex.Reads.{step_queue}

module _ (trunk : Trunk) where
  step_qlen : (e : Event trunk) (m : Mux trunk) → (step trunk e m).qlen ≡ m.qlen
  unfolding step open_ close_conn close advance_reader receive dispatch enqueue set_error read
      take_message error write_conn after_write
  step_qlen (opened id) m = ground arith
  step_qlen (closes_conn g) m = ground arith
  step_qlen closes m = ground arith
  step_qlen unblocks m = ground arith
  step_qlen reader_runs m = ground arith
  step_qlen (receives (frame f rest)) m = ground arith
  step_qlen (receives (no_frame e)) m = ground arith
  step_qlen (reads g len cap pick) m = ground arith
  step_qlen (writes g buf) m = ground arith

  -- The queue of a connection that a step opens is empty.
  step_fresh :
      (e : Event trunk) (m : Mux trunk) (h : ℕ)
      → m.next ≤ h
      → h < (step trunk e m).next
      → queue_of trunk h (step trunk e m) ≡ []
  unfolding step open_ close_conn close advance_reader receive dispatch enqueue set_error read
      take_message error write_conn after_write
  step_fresh (opened id) m h new old = ground arith
  step_fresh (closes_conn g) m h new old = ground arith
  step_fresh closes m h new old = ground arith
  step_fresh unblocks m h new old = ground arith
  step_fresh reader_runs m h new old = ground arith
  step_fresh (receives (frame f rest)) m h new old = ground arith
  step_fresh (receives (no_frame e)) m h new old = ground arith
  step_fresh (reads g len cap pick) m h new old = ground arith
  step_fresh (writes g buf) m h new old = ground arith

  -- A payload comes only where there is room.
  arrived_room :
      (h : ℕ) (e : Event trunk) (m : Mux trunk)
      → length (queue_of trunk h m) ≤ m.qlen
      → length (queue_of trunk h m) + length (arrived trunk h e m) ≤ m.qlen
  arrived_room h (receives (frame f rest)) m fits = ground arith
  arrived_room h (receives (no_frame e)) m fits = omega arith
  arrived_room h (opened id) m fits = omega arith
  arrived_room h (closes_conn g) m fits = omega arith
  arrived_room h closes m fits = omega arith
  arrived_room h unblocks m fits = omega arith
  arrived_room h reader_runs m fits = omega arith
  arrived_room h (reads g len cap pick) m fits = omega arith
  arrived_room h (writes g buf) m fits = omega arith

  abbrev IsBounded : ℕ → Mux trunk → Type 0
  IsBounded q m = (m.qlen ≡ q) × ((h : ℕ) → h < m.next → length (queue_of trunk h m) ≤ q)

  step-IsBounded :
      (q : ℕ) (e : Event trunk) (m : Mux trunk) → IsBounded q m → IsBounded q (step trunk e m)
  step-IsBounded q e m (same, fits) = (
    step_qlen e m ∙ same,
    λ h old. elim (Bool-cases (ltb h m.next)) [
      | inl before ↦
          let m' = step trunk e m in
          omega (
            arith,
            fits h (ground arith),
            arrived_room h e m (rw same (fits h (ground arith))),
            ap length (step_queue trunk h e m (ground arith)),
            length-append (queue_of trunk h m) (arrived trunk h e m),
            length-append (taken_out trunk h e m) (queue_of trunk h m'),
          )
      | inr new ↦ rw (step_fresh e m h (ground arith) old) (omega arith)
    ],
  )

  run-IsBounded :
      (q : ℕ) (es : List (Event trunk)) (m : Mux trunk)
      → IsBounded q m
      → IsBounded q (run trunk es m)
  unfolding run
  run-IsBounded q [] m fits = fits
  run-IsBounded q (e ∷ es) m fits = run-IsBounded q es (step trunk e m) (step-IsBounded q e m fits)

  -- Whatever is done with a new mux, no connection that it has opened has more messages in its queue
  -- than the read queue length of the mux.
  pub run-new_mux_bounded :
      (w : trunk.Wire) (qlen : ℕ) (blocked : Bool) (es : List (Event trunk)) (h : ℕ)
      → h < (run trunk es (new_mux trunk w qlen blocked)).next
      → length (queue_of trunk h (run trunk es (new_mux trunk w qlen blocked))) ≤ qlen
  unfolding new_mux
  run-new_mux_bounded w qlen blocked es h old =
      (run-IsBounded qlen es (new_mux trunk w qlen blocked)
          (refl, λ g none_. absurd (ground arith))).1
        h old
