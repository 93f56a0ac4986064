-- ===== src/Net/Multiplex/Queues.antt =====
-- The queues of the connections of a mux (pkg/net/multiplex/mux.go): what `mux.reader` puts into
-- them, and what `conn.Read` takes out.
use nri.Base.{
  nat_eq, nat_beq_iff, ℕ, ◌<◌, ◌≡◌, refl, ◌∙◌, Bool, true, false, ◌&&◌, List, [], ◌∷◌, ◌++◌, length,
  take, ltb, nat_beq, if◌then◌else◌, arith, Bool-cases, inl, inr,
}
use nri.Base.Map.{Map}
use nri.Net.Multiplex.Frames.{
  Bytes, Trunk, Written, wrote, broken, unfinished, write, frame, MuxError, queue_error,
  write_error,
}
use nri.Net.Multiplex.Conns.{
  Conn, ReadEnd, got, no_memory, Mux, put, set_error, error, open_, finish, finish_all, close,
  close_conn, is_reading, is_at, advance_reader, read, after_write, write_conn, Event, receives,
  reads, step,
}

module _ (trunk : Trunk) where
  abbrev pub queue_of : ℕ → Mux trunk → List Bytes
  queue_of h m = (m.store h).queue

  -- The messages that an event puts into the queue of a connection: the payload of a frame for its id,
  -- if the reader reads and there is room.
  abbrev pub arrived : ℕ → Event trunk → Mux trunk → List Bytes
  arrived h (receives (frame f rest)) m =
      if is_reading m.reader
        && is_at trunk f.conn_id h m.conns
        && ltb (length (queue_of h m)) m.qlen
      then f.payload ∷ []
      else []
  arrived h _ m = []

  abbrev pub takes : ReadEnd → Bool
  takes (got _ _) = true
  takes no_memory = true
  takes _ = false

  -- The messages that an event takes out: the first in the queue, for a read that gets it or that fails
  -- for the size of its buffer.
  abbrev pub taken_out : ℕ → Event trunk → Mux trunk → List Bytes
  taken_out h (reads g len cap pick) m =
      if nat_beq g h && takes (read trunk g len cap pick m).0 then take 1 (queue_of h m) else []
  taken_out h _ m = []

  abbrev pub all_arrived : ℕ → List (Event trunk) → Mux trunk → List Bytes
  all_arrived h [] m = []
  all_arrived h (e ∷ es) m = arrived h e m ++ all_arrived h es (step trunk e m)

  abbrev pub all_taken_out : ℕ → List (Event trunk) → Mux trunk → List Bytes
  all_taken_out h [] m = []
  all_taken_out h (e ∷ es) m = taken_out h e m ++ all_taken_out h es (step trunk e m)

  pub put_queue :
      (h g : ℕ) (c : Conn) (store : ℕ → Conn)
      → c.queue ≡ (store g).queue
      → (put trunk g c store h).queue ≡ (store h).queue
  put_queue h g c store same = elim (Bool-cases (nat_beq h g)) [
    | inl eq ↦ rw (eq, (nat_beq_iff h g).0 eq) same
    | inr ne ↦ rw ne refl
  ]

  pub finish_all_queue :
      (h : ℕ) (conns : Map ℕ ℕ) (store : ℕ → Conn)
      → (finish_all trunk conns store h).queue ≡ (store h).queue
  unfolding finish
  finish_all_queue h [] store = refl
  finish_all_queue h ((id, g) ∷ rest) store =
      finish_all_queue h rest (finish trunk g store) ∙ put_queue h g _ store refl

  pub close_queue : (h : ℕ) (m : Mux trunk) → queue_of h (close trunk m) ≡ queue_of h m
  unfolding close
  close_queue h m = elim (Bool-cases m.closed) [
    | inl done ↦ rw done refl
    | inr now ↦ rw now (finish_all_queue h m.conns m.store)
  ]

  pub set_error_queue :
      (h : ℕ) (e : MuxError) (m : Mux trunk) → queue_of h (set_error trunk e m) ≡ queue_of h m
  unfolding set_error
  set_error_queue h e m = ground arith

  pub error_queue : (h : ℕ) (m : Mux trunk) → queue_of h (error trunk m).1 ≡ queue_of h m
  unfolding error
  error_queue h m = ground arith

  pub open_queue :
      (h id : ℕ) (m : Mux trunk) → h < m.next → queue_of h (open_ trunk id m).1 ≡ queue_of h m
  unfolding open_
  open_queue h id m old = ground arith

  pub close_conn_queue :
      (h g : ℕ) (m : Mux trunk) → queue_of h (close_conn trunk g m) ≡ queue_of h m
  unfolding close_conn finish
  close_conn_queue h g m = put_queue h g _ m.store refl

  pub advance_reader_queue :
      (h : ℕ) (m : Mux trunk) → queue_of h (advance_reader trunk m) ≡ queue_of h m
  unfolding advance_reader
  advance_reader_queue h m = ground arith

  pub after_write_queue :
      (h : ℕ) (r : Written) (m : Mux trunk) → queue_of h (after_write trunk r m) ≡ queue_of h m
  unfolding after_write
  after_write_queue h (wrote n) m = refl
  after_write_queue h (broken true) m =
      close_queue h (set_error trunk write_error m) ∙ set_error_queue h write_error m
  after_write_queue h (broken false) m = refl
  after_write_queue h unfinished m = refl

  pub overflow_queue :
      (h : ℕ) (m : Mux trunk)
      → queue_of h (close trunk (set_error trunk queue_error m)) ≡ queue_of h m
  overflow_queue h m =
      close_queue h (set_error trunk queue_error m) ∙ set_error_queue h queue_error m

  pub write_conn_queue :
      (h g : ℕ) (buf : Bytes) (m : Mux trunk)
      → queue_of h (write_conn trunk g buf m).1 ≡ queue_of h m
  unfolding write_conn after_write
  write_conn_queue h g buf m = elim (Bool-cases (m.store g).done) [
    | inl done ↦ rw (done, write_conn) refl
    | inr live ↦
        let (result, w) = write trunk (m.store g).id buf m.wire in
        rw (live, write_conn) (after_write_queue h result (record m { wire = w }))
  ]
