-- ===== src/Net/Multiplex/Arrivals.antt =====
-- What the reader of a mux (pkg/net/multiplex/mux.go) adds to the queues of its connections.
use nri.Base.{
  nat_eq, nat_beq_iff, ℕ, ◌≡◌, refl, sym, ap, ◌∙◌, false, ◌&&◌, none, some, [], ◌∷◌, ◌++◌, length,
  ltb, nat_beq, if◌then◌else◌, arith, Bool-cases, Option-cases, inl, inr,
}
use mathlib.Core.List.{append-nil}
use nri.Base.Map.{Map, lookup}
use nri.Net.Multiplex.Frames.{Bytes, Trunk, Frame, NextFrame, frame, no_frame}
use nri.Net.Multiplex.Conns.{
  Conn, returned, Mux, put, set_error, is_reading, enqueue, is_at, dispatch, receive, receives,
}
use nri.Net.Multiplex.Queues.{queue_of, arrived, close_queue, set_error_queue, overflow_queue}

module _ (trunk : Trunk) where
  pub put_self : (g : ℕ) (c : Conn) (store : ℕ → Conn) → put trunk g c store g ≡ c
  put_self g c store = ground arith

  pub put_other :
      (h g : ℕ) (c : Conn) (store : ℕ → Conn)
      → nat_beq g h ≡ false
      → put trunk g c store h ≡ store h
  put_other h g c store other = ground arith

  pub enqueue_self :
      (h : ℕ) (payload : Bytes) (m : Mux trunk)
      → queue_of trunk h (enqueue trunk h payload m)
        ≡ queue_of trunk h m
          ++ (if ltb (length (queue_of trunk h m)) m.qlen then payload ∷ [] else [])
  unfolding enqueue
  enqueue_self h payload m = elim (Bool-cases (ltb (length (queue_of trunk h m)) m.qlen)) [
    | inl room ↦
        let c = record (m.store h) { queue = queue_of trunk h m ++ payload ∷ [] } in
        rw (room, enqueue) (ap Conn.queue (put_self h c m.store))
    | inr full ↦
        rw (full, enqueue)
          (overflow_queue trunk h (record m { reader = returned }) ∙ sym (append-nil _))
  ]

  pub enqueue_other :
      (h g : ℕ) (payload : Bytes) (m : Mux trunk)
      → nat_beq g h ≡ false
      → queue_of trunk h (enqueue trunk g payload m) ≡ queue_of trunk h m
  unfolding enqueue
  enqueue_other h g payload m other = elim (Bool-cases (ltb (length (queue_of trunk g m)) m.qlen)) [
    | inl room ↦
        let c = record (m.store g) { queue = queue_of trunk g m ++ payload ∷ [] } in
        rw (room, enqueue) (ap Conn.queue (put_other h g c m.store other))
    | inr full ↦ rw (full, enqueue) (overflow_queue trunk h (record m { reader = returned }))
  ]

  pub enqueue_queue :
      (h g : ℕ) (payload : Bytes) (m : Mux trunk)
      → queue_of trunk h (enqueue trunk g payload m)
        ≡ queue_of trunk h m
          ++ (if nat_beq g h && ltb (length (queue_of trunk h m)) m.qlen then payload ∷ [] else [])
  enqueue_queue h g payload m = elim (Bool-cases (nat_beq g h)) [
    | inl same ↦ rw (same, (nat_beq_iff g h).0 same) (enqueue_self h payload m)
    | inr other ↦ rw other (enqueue_other h g payload m other ∙ sym (append-nil _))
  ]

  pub is_at-none :
      (id h : ℕ) (conns : Map ℕ ℕ) → lookup id conns ≡ none → is_at trunk id h conns ≡ false
  is_at-none id h conns e = rw (e, is_at) refl

  pub is_at-some :
      (id h g : ℕ) (conns : Map ℕ ℕ)
      → lookup id conns ≡ some g
      → is_at trunk id h conns ≡ nat_beq g h
  is_at-some id h g conns e = rw (e, is_at) refl

  pub dispatch_queue :
      (h : ℕ) (f : Frame) (m : Mux trunk)
      → queue_of trunk h (dispatch trunk f m)
        ≡ queue_of trunk h m
          ++ (if is_at trunk f.conn_id h m.conns && ltb (length (queue_of trunk h m)) m.qlen
              then f.payload ∷ []
              else [])
  unfolding dispatch
  dispatch_queue h f m = elim (Option-cases (lookup f.conn_id m.conns)) [
    | inl none_ ↦ rw (is_at-none f.conn_id h m.conns none_, dispatch, none_) (sym (append-nil _))
    | inr (g, at_g) ↦
        rw (is_at-some f.conn_id h g m.conns at_g, dispatch, at_g) (enqueue_queue h g f.payload m)
  ]

  pub receive_queue :
      (h : ℕ) (n : NextFrame) (m : Mux trunk)
      → queue_of trunk h (receive trunk n m) ≡ queue_of trunk h m ++ arrived trunk h (receives n) m
  unfolding receive
  receive_queue h (no_frame e) m = elim (Bool-cases (is_reading m.reader)) [
    | inl reads_ ↦
        let stopped = record m { reader = returned } in
        rw reads_ (
          close_queue trunk h (set_error trunk e stopped)
          ∙ (set_error_queue trunk h e stopped ∙ sym (append-nil _)))
    | inr idle ↦ rw idle (sym (append-nil _))
  ]
  receive_queue h (frame f rest) m = elim (Bool-cases (is_reading m.reader)) [
    | inl reads_ ↦ rw reads_ (dispatch_queue h f m)
    | inr idle ↦ rw idle (sym (append-nil _))
  ]
