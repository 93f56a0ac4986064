-- ===== src/Net/Multiplex/ValidRuns.antt =====
-- The steps of a mux (pkg/net/multiplex/mux.go) keep it valid.
use nri.Base.{
  List-cases, nat_eq, nat_beq_iff, subst, ℕ, ◌≡◌, refl, sym, ◌∙◌, Bool, true, false, ◌&&◌, Option,
  none, some, List, [], ◌∷◌, length, ltb, nat_beq, if◌then◌else◌, arith, Bool-cases, Option-cases,
  inl, inr,
}
use nri.Base.Map.{lookup}
use nri.Net.Multiplex.Frames.{
  Trunk, Bytes, Written, wrote, broken, unfinished, write, Frame, NextFrame, frame, no_frame,
  queue_error, write_error,
}
use nri.Net.Multiplex.Conns.{
  Conn, Mux, put, returned, new_mux, error, enqueue, dispatch, receive, take_message, read,
  after_write, write_conn, Reader, at_top, unblock, ReadEnd, blocks, read_failed, advance_reader,
  is_reading, Event, opened, closes_conn, closes, unblocks, reader_runs, receives, reads, writes,
  step, run,
}
use nri.Net.Multiplex.Valid.{
  IsValid, if-IsValid, if-IsValid_second, set_error-IsValid, error-IsValid, close-IsValid,
  open-IsValid, close_conn-IsValid,
}

module _ (trunk : Trunk) where
  -- Nothing that counts has changed but what is in the queues, the reader, and the bytes sent.
  same-IsValid :
      (m m' : Mux trunk)
      → m'.conns ≡ m.conns
      → m'.next ≡ m.next
      → m'.closed ≡ m.closed
      → m'.err ≡ m.err
      → m'.err_once ≡ m.err_once
      → ((h : ℕ) → ((m'.store h).id ≡ (m.store h).id) × ((m'.store h).done ≡ (m.store h).done))
      → IsValid trunk m
      → IsValid trunk m'
  same-IsValid m m' conns next closed err once same v = record {
    reserved = rw conns v.reserved;
    same_id = λ id h at. (same h).0 ∙ v.same_id id h (rw⁻¹ conns at);
    allocated = λ id h at. rw next (v.allocated id h (rw⁻¹ conns at));
    live = λ id h up at. (same h).1 ∙ v.live id h (rw⁻¹ closed up) (rw⁻¹ conns at);
    explained = λ o e. v.explained (rw⁻¹ once o) (rw⁻¹ err e);
  }

  put_same :
      (h g : ℕ) (q : List Bytes) (store : ℕ → Conn)
      → ((put trunk g (record (store g) { queue = q }) store h).id ≡ (store h).id)
        × ((put trunk g (record (store g) { queue = q }) store h).done ≡ (store h).done)
  put_same h g q store = elim (Bool-cases (nat_beq h g)) [
    | inl same ↦ rw (same, (nat_beq_iff h g).0 same) (refl, refl)
    | inr other ↦ rw other (refl, refl)
  ]

  with_reader :
      (r : Reader) (m : Mux trunk) → IsValid trunk m → IsValid trunk (record m { reader = r })
  with_reader r m = same-IsValid m _ refl refl refl refl refl (λ h. (refl, refl))

  with_queue :
      (g : ℕ) (q : List Bytes) (r : Reader) (m : Mux trunk)
      → IsValid trunk m
      → IsValid trunk
          (record m { store = put trunk g (record (m.store g) { queue = q }) m.store; reader = r })
  with_queue g q r m = same-IsValid m _ refl refl refl refl refl (λ h. put_same h g q m.store)

  enqueue-IsValid :
      (h : ℕ) (payload : Bytes) (m : Mux trunk)
      → IsValid trunk m
      → IsValid trunk (enqueue trunk h payload m)
  unfolding enqueue
  enqueue-IsValid h payload m v =
      if-IsValid trunk (ltb (length (m.store h).queue) m.qlen) _ _ (with_queue h _ _ m v)
        (close-IsValid trunk _ (set_error-IsValid trunk queue_error _ (with_reader returned m v)))

  dispatch-IsValid :
      (f : Frame) (m : Mux trunk) → IsValid trunk m → IsValid trunk (dispatch trunk f m)
  unfolding dispatch
  dispatch-IsValid f m v =
      let found : Option ℕ → Mux trunk = λ o. elim o [
        | none ↦ record m { reader = at_top }
        | some h ↦ enqueue trunk h f.payload m
      ] in
      elim (Option-cases (lookup f.conn_id m.conns)) [
        | inl none_ ↦ subst (λ o. IsValid trunk (found o)) (sym none_) (with_reader at_top m v)
        | inr (g, at_g) ↦
            subst (λ o. IsValid trunk (found o)) (sym at_g) (enqueue-IsValid g f.payload m v)
      ]

  receive-IsValid :
      (n : NextFrame) (m : Mux trunk) → IsValid trunk m → IsValid trunk (receive trunk n m)
  unfolding receive
  receive-IsValid (frame f rest) m v =
      if-IsValid trunk (is_reading m.reader) _ m (dispatch-IsValid f m v) v
  receive-IsValid (no_frame e) m v =
      if-IsValid trunk (is_reading m.reader) _ m
        (close-IsValid trunk _ (set_error-IsValid trunk e _ (with_reader returned m v))) v

  advance_reader-IsValid :
      (m : Mux trunk) → IsValid trunk m → IsValid trunk (advance_reader trunk m)
  unfolding advance_reader
  advance_reader-IsValid m v = with_reader _ m v

  take_message-IsValid :
      (h len cap : ℕ) (msg : Bytes) (rest : List Bytes) (m : Mux trunk)
      → IsValid trunk m
      → IsValid trunk (take_message trunk h len cap msg rest m).1
  unfolding take_message
  take_message-IsValid h len cap msg rest m v =
      if-IsValid_second trunk (ltb cap (length msg)) _ _ (with_queue h rest m.reader m v)
        (with_queue h rest m.reader m v)

  read-IsValid :
      (h len cap : ℕ) (pick : Bool) (m : Mux trunk)
      → IsValid trunk m
      → IsValid trunk (read trunk h len cap pick m).1
  unfolding read
  read-IsValid h len cap pick m v =
      let (e, failed) = error trunk m in
      let failed-IsValid = error-IsValid trunk m v in
      let selected : List Bytes → ReadEnd × Mux trunk = λ q. elim q [
        | [] ↦ if (m.store h).done then (read_failed e, failed) else (blocks, m)
        | msg ∷ rest ↦
            if (m.store h).done && pick
            then (read_failed e, failed)
            else take_message trunk h len cap msg rest m
      ] in
      elim (List-cases (m.store h).queue) [
        | inl none_ ↦
            subst (λ q. IsValid trunk (selected q).1) (sym none_)
              (if-IsValid_second trunk (m.store h).done (read_failed e, failed) (blocks, m)
                failed-IsValid v)
        | inr (msg, rest, first) ↦
            subst (λ q. IsValid trunk (selected q).1) (sym first)
              (if-IsValid_second trunk ((m.store h).done && pick) (read_failed e, failed) _
                failed-IsValid (take_message-IsValid h len cap msg rest m v))
      ]

  after_write-IsValid :
      (r : Written) (m : Mux trunk) → IsValid trunk m → IsValid trunk (after_write trunk r m)
  unfolding after_write
  after_write-IsValid (wrote n) m v = v
  after_write-IsValid (broken true) m v =
      close-IsValid trunk _ (set_error-IsValid trunk write_error m v)
  after_write-IsValid (broken false) m v = v
  after_write-IsValid unfinished m v = v

  write_conn-IsValid :
      (h : ℕ) (buf : Bytes) (m : Mux trunk)
      → IsValid trunk m
      → IsValid trunk (write_conn trunk h buf m).1
  unfolding write_conn
  write_conn-IsValid h buf m v =
      let (result, w) = write trunk (m.store h).id buf m.wire in
      if-IsValid_second trunk (m.store h).done (none, m) _ v
        (after_write-IsValid result (record m { wire = w })
          (same-IsValid m _ refl refl refl refl refl (λ h. (refl, refl)) v))

  pub step-IsValid :
      (e : Event trunk) (m : Mux trunk) → IsValid trunk m → IsValid trunk (step trunk e m)
  unfolding step unblock
  step-IsValid (opened id) m v = open-IsValid trunk id m v
  step-IsValid (closes_conn g) m v = close_conn-IsValid trunk g m v
  step-IsValid closes m v = close-IsValid trunk m v
  step-IsValid unblocks m v = same-IsValid m _ refl refl refl refl refl (λ h. (refl, refl)) v
  step-IsValid reader_runs m v = advance_reader-IsValid m v
  step-IsValid (receives n) m v = receive-IsValid n m v
  step-IsValid (reads g len cap pick) m v = read-IsValid g len cap pick m v
  step-IsValid (writes g buf) m v = write_conn-IsValid g buf m v

  run-IsValid :
      (es : List (Event trunk)) (m : Mux trunk) → IsValid trunk m → IsValid trunk (run trunk es m)
  unfolding run
  run-IsValid [] m v = v
  run-IsValid (e ∷ es) m v = run-IsValid es (step trunk e m) (step-IsValid e m v)

  -- Whatever is done with a new mux: the reserved id is never registered; what is registered under an
  -- id is a connection with that id, and it is not closed before the mux is; and once an error is
  -- kept for the reads to return, there is one.
  pub run-new_mux-IsValid :
      (w : trunk.Wire) (qlen : ℕ) (blocked : Bool) (es : List (Event trunk))
      → IsValid trunk (run trunk es (new_mux trunk w qlen blocked))
  unfolding new_mux lookup
  run-new_mux-IsValid w qlen blocked es = run-IsValid es _ (record {
    reserved = refl;
    same_id = λ id h at. ground arith;
    allocated = λ id h at. ground arith;
    live = λ id h up at. ground arith;
    explained = λ once. ground arith;
  })
