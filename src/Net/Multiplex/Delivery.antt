-- ===== src/Net/Multiplex/Delivery.antt =====
-- What is written at one end of the trunk is what the connections get at the other
-- (pkg/net/multiplex/mux.go).
use nri.Base.{
  nat_beq_iff, nat_eq, subst, ℕ, suc, ◌+◌, ◌≤◌, ◌≡◌, refl, sym, ap, ◌∙◌, Bool, true, false, ◌&&◌,
  Option, none, some, List, [], ◌∷◌, ◌++◌, length, ltb, nat_beq, if◌then◌else◌, arith, Bool-cases,
  Option-cases, inl, inr, length-append, All, All-mono,
}
use mathlib.Core.List.{append_assoc, append-nil}
use nri.Base.Map.{lookup}
use nri.Net.Multiplex.Frames.{Trunk, Bytes, frames_of, eof, Frame, frame}
use nri.Net.Multiplex.Framing.{all_encoded, Fits, frames_of-all_encoded, length-all_encoded}
use nri.Net.Multiplex.Conns.{
  Mux, Reader, reading, at_top, enqueue, dispatch, receive, advance_reader, is_reading, next_reader,
  is_at, receives, reader_runs, step, run,
}
use nri.Net.Multiplex.Queues.{queue_of}
use nri.Net.Multiplex.Arrivals.{dispatch_queue, is_at-none, is_at-some}
use nri.Net.Multiplex.Valid.{IsValid}
use nri.Net.Multiplex.ValidRuns.{step-IsValid}
use nri.Net.Multiplex.Messages.{IsMessage, IsMessage-Fits, payloads_for, write_all, write_all-sent}

module _ (trunk : Trunk) where
  -- The reader takes the frames, one after the other.
  abbrev pub receive_all : List Frame → Mux trunk → Mux trunk
  receive_all [] m = m
  receive_all (f ∷ fs) m = receive_all fs (run trunk (receives (frame f []) ∷ reader_runs ∷ []) m)

  -- The reader reads, and there is room for some more messages in each queue.
  record IsReady (room : ℕ) (m : Mux trunk) : Type 0 where
    valid : IsValid trunk m
    reads : m.reader ≡ reading
    up : m.closed ≡ false
    space : (g : ℕ) → length (queue_of trunk g m) + room ≤ m.qlen

  -- A frame that is put into a queue, or dropped, leaves the reader in its loop.
  record IsKept (m m' : Mux trunk) : Type 0 where
    again : m'.reader ≡ at_top
    still_up : m'.closed ≡ m.closed
    same_qlen : m'.qlen ≡ m.qlen
    same_conns : m'.conns ≡ m.conns

  enqueue-IsKept :
      (h : ℕ) (payload : Bytes) (m : Mux trunk)
      → ltb (length (queue_of trunk h m)) m.qlen ≡ true
      → IsKept m (enqueue trunk h payload m)
  unfolding enqueue
  enqueue-IsKept h payload m room =
      rw room (record { again = refl; still_up = refl; same_qlen = refl; same_conns = refl })

  dispatch-IsKept :
      (f : Frame) (n : ℕ) (m : Mux trunk) → IsReady (suc n) m → IsKept m (dispatch trunk f m)
  unfolding dispatch
  dispatch-IsKept f n m ready =
      let found : Option ℕ → Mux trunk = λ o. elim o [
        | none ↦ record m { reader = at_top }
        | some h ↦ enqueue trunk h f.payload m
      ] in
      elim (Option-cases (lookup f.conn_id m.conns)) [
        | inl none_ ↦
            subst (λ o. IsKept m (found o)) (sym none_)
              (record { again = refl; still_up = refl; same_qlen = refl; same_conns = refl })
        | inr (g, at_g) ↦
            subst (λ o. IsKept m (found o)) (sym at_g)
              (enqueue-IsKept g f.payload m (ground (arith, ready.space g)))
      ]

  receive_reading :
      (f : Frame) (m : Mux trunk)
      → m.reader ≡ reading
      → receive trunk (frame f []) m ≡ dispatch trunk f m
  unfolding receive
  receive_reading f m reads = ap (λ r. if is_reading r then dispatch trunk f m else m) reads

  -- The mux after one frame, and the reader back in a read.
  abbrev after_frame : Frame → Mux trunk → Mux trunk
  after_frame f m = run trunk (receives (frame f []) ∷ reader_runs ∷ []) m

  after_frame_eq :
      (f : Frame) (m : Mux trunk)
      → m.reader ≡ reading
      → after_frame f m ≡ advance_reader trunk (dispatch trunk f m)
  unfolding run step
  after_frame_eq f m reads = ap (advance_reader trunk) (receive_reading f m reads)

  after_frame-IsValid :
      (f : Frame) (m : Mux trunk) → IsValid trunk m → IsValid trunk (after_frame f m)
  unfolding run
  after_frame-IsValid f m v =
      step-IsValid trunk reader_runs _ (step-IsValid trunk (receives (frame f [])) m v)

  after_frame_queue :
      (f : Frame) (h : ℕ) (m : Mux trunk)
      → m.reader ≡ reading
      → queue_of trunk h (after_frame f m)
        ≡ queue_of trunk h m
          ++ (if is_at trunk f.conn_id h m.conns && ltb (length (queue_of trunk h m)) m.qlen
              then f.payload ∷ []
              else [])
  unfolding advance_reader
  after_frame_queue f h m reads =
      ap (queue_of trunk h) (after_frame_eq f m reads) ∙ dispatch_queue trunk h f m

  one_more :
      {A : Type 0} (b : Bool) (x : A) (xs : List A) (n q : ℕ)
      → length xs + suc n ≤ q
      → length (xs ++ (if b then x ∷ [] else [])) + n ≤ q
  one_more true x xs n q h = omega (arith, length-append xs (x ∷ []))
  one_more false x xs n q h = omega (arith, length-append xs [])

  goes_on :
      (blocked closed : Bool) (r : Reader)
      → r ≡ at_top
      → closed ≡ false
      → next_reader blocked closed r ≡ reading
  goes_on blocked closed r e up = rw (e, up) refl

  after_frame-IsReady :
      (f : Frame) (n : ℕ) (m : Mux trunk) → IsReady (suc n) m → IsReady n (after_frame f m)
  unfolding advance_reader
  after_frame-IsReady f n m ready =
      let kept = dispatch-IsKept f n m ready in
      let eq = after_frame_eq f m ready.reads in
      record {
        valid = after_frame-IsValid f m ready.valid;
        reads = ap Mux.reader eq ∙ goes_on _ _ _ kept.again (kept.still_up ∙ ready.up);
        up = ap Mux.closed eq ∙ (kept.still_up ∙ ready.up);
        space = λ g.
            rw (after_frame_queue f g m ready.reads, ap Mux.qlen eq ∙ kept.same_qlen)
              (one_more _ f.payload (queue_of trunk g m) n m.qlen (ready.space g));
      }

  -- A connection is registered under one id.
  is_at_id :
      (id j h : ℕ) (m : Mux trunk)
      → IsValid trunk m
      → lookup id m.conns ≡ some h
      → is_at trunk j h m.conns ≡ nat_beq j id
  is_at_id id j h m v at_h = elim (Bool-cases (nat_beq j id)) [
    | inl same ↦
        let at_j : lookup j m.conns ≡ some h = rw ((nat_beq_iff j id).0 same) at_h in
        is_at-some trunk j h h m.conns at_j ∙ rw same (ground arith)
    | inr other ↦ elim (Option-cases (lookup j m.conns)) [
      | inl none_ ↦ is_at-none trunk j h m.conns none_ ∙ sym other
      | inr (g, at_g) ↦
          is_at-some trunk j h g m.conns at_g
          ∙ rw other (ground (arith, v.same_id j g at_g, v.same_id id h at_h))
    ]
  ]

  payloads_for_first :
      (b : Bool) (x : Bytes) (xs rest : List Bytes)
      → (xs ++ (if b then x ∷ [] else [])) ++ rest ≡ xs ++ (if b then x ∷ rest else rest)
  payloads_for_first true x xs rest = append_assoc xs (x ∷ []) rest
  payloads_for_first false x xs rest = append_assoc xs [] rest

  and_here : (b c : Bool) → c ≡ true → (b && c) ≡ b
  and_here true c e = e
  and_here false c e = refl

  receive_all_queue :
      (fs : List Frame) (id h : ℕ) (m : Mux trunk)
      → IsReady (length fs) m
      → lookup id m.conns ≡ some h
      → queue_of trunk h (receive_all fs m) ≡ queue_of trunk h m ++ payloads_for id fs
  unfolding advance_reader
  receive_all_queue [] id h m ready at_h = sym (append-nil (queue_of trunk h m))
  receive_all_queue (f ∷ fs) id h m ready at_h =
      let conns =
        ap Mux.conns (after_frame_eq f m ready.reads)
        ∙ (dispatch-IsKept f (length fs) m ready).same_conns in
      let here : (is_at trunk f.conn_id h m.conns && ltb (length (queue_of trunk h m)) m.qlen)
          ≡ nat_beq f.conn_id id =
        and_here _ _ (ground (arith, ready.space h)) ∙ is_at_id id f.conn_id h m ready.valid at_h in
      receive_all_queue fs id h (after_frame f m) (after_frame-IsReady f (length fs) m ready)
        (rw conns at_h)
      ∙ rw (after_frame_queue f h m ready.reads, here)
          (payloads_for_first (nat_beq f.conn_id id) f.payload (queue_of trunk h m)
            (payloads_for id fs))

-- The messages that are written at one end of a trunk, one after the other, come into the queues at
-- the other end: the connection that is registered there for an id gets those that were written for
-- this id, in order, and nothing else. Each message is at most `maxPayloadSize` long, all writes
-- succeed on a fresh trunk, the mux is valid and open, its reader reads, and each of its queues has room
-- for as many messages as were written.
pub messages_delivered :
    (sender receiver : Trunk) (fs : List Frame) (w w' : sender.Wire) (m : Mux receiver) (id h : ℕ)
    → All IsMessage fs
    → sender.sent w ≡ []
    → write_all sender fs w ≡ some w'
    → IsValid receiver m
    → m.reader ≡ reading
    → m.closed ≡ false
    → ((g : ℕ) → length (queue_of receiver g m) + length fs ≤ m.qlen)
    → lookup id m.conns ≡ some h
    → queue_of receiver h
        (receive_all receiver (frames_of (suc (length (sender.sent w'))) (sender.sent w') eof).0 m)
      ≡ queue_of receiver h m ++ payloads_for id fs
messages_delivered sender receiver fs w w' m id h small fresh written v reads up space at_h =
    let bytes : sender.sent w' ≡ all_encoded fs =
      write_all-sent sender fs w w' small written ∙ rw fresh refl in
    let read_back =
      frames_of-all_encoded fs (suc (length (all_encoded fs)))
        (All-mono IsMessage Fits fs IsMessage-Fits small) (omega (arith, length-all_encoded fs)) in
    rw (bytes, read_back)
      (receive_all_queue receiver fs id h m
        (record { valid = v; reads = reads; up = up; space = space }) at_h)
