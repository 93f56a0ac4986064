-- ===== src/Net/Multiplex/Conns.antt =====
-- The state of `mux` and `conn` (pkg/net/multiplex/mux.go) and their operations. A connection is an
-- object in a store, since one that was closed is still in its holder's hands while another may be
-- open under its id. Each event is a step: what a lock or a channel makes one.
use nri.Base.{
  nat_eq, ℕ, suc, Bool, true, false, ◌&&◌, Option, none, some, List, [], ◌∷◌, ◌++◌, length, take,
  ltb, nat_beq, if◌then◌else◌,
}
use nri.Base.Map.{Map, lookup, insert, delete}
use nri.Net.Multiplex.Frames.{
  Bytes, Trunk, Written, broken, write, Frame, NextFrame, frame, no_frame, MuxError, eof_error,
  queue_error, write_error,
}

-- `done` says that `doneC` is closed; `queue` is what is in `readC`.
pub record Conn : Type 0 where
  pub id : ℕ
  pub queue : List Bytes
  pub done : Bool

-- Where `mux.reader` is: before the wait for `blockC`, at the top of the loop, in the read of a frame, or
-- at its end.
pub data Reader : Type 0 where
  waiting at_top reading returned : Reader

-- The step that the reader takes by itself.
abbrev pub next_reader : Bool → Bool → Reader → Reader
next_reader blocked closed waiting = if blocked then waiting else at_top
next_reader blocked closed at_top = if closed then returned else reading
next_reader blocked closed reading = reading
next_reader blocked closed returned = returned

abbrev pub is_reading : Reader → Bool
is_reading reading = true
is_reading _ = false

abbrev or_eof : Option MuxError → MuxError
or_eof none = eof_error
or_eof (some e) = e

-- How a read ends: with the bytes copied and the number reported, with ENOMEM, with the error of the
-- mux, or not yet.
pub data ReadEnd : Type 0 where
  got : Bytes → ℕ → ReadEnd
  no_memory : ReadEnd
  read_failed : Option MuxError → ReadEnd
  blocks : ReadEnd

module _ (trunk : Trunk) where
  open trunk use {Wire}

  pub record Mux : Type 0 where
    pub wire : Wire
    pub store : ℕ → Conn
    pub next : ℕ
    pub conns : Map ℕ ℕ
    pub qlen : ℕ
    pub err_once : Bool
    pub err : Option MuxError
    pub blocked : Bool
    pub closed : Bool
    pub reader : Reader

  abbrev pub no_conn : ℕ → Conn
  no_conn h = record { id = 0; queue = []; done = true }

  unfoldable pub new_mux : Wire → ℕ → Bool → Mux
  new_mux w qlen blocked = record {
    wire = w;
    store = no_conn;
    next = 0;
    conns = [];
    qlen = qlen;
    err_once = false;
    err = none;
    blocked = blocked;
    closed = false;
    reader = waiting;
  }

  abbrev pub put : ℕ → Conn → (ℕ → Conn) → ℕ → Conn
  put h c store j = if nat_beq j h then c else store j

  unfoldable pub set_error : MuxError → Mux → Mux
  set_error e m = if m.err_once then m else record m { err_once = true; err = some e }

  -- `mux.error`
  unfoldable pub error : Mux → Option MuxError × Mux
  error m =
      if m.err_once
      then (m.err, m)
      else let kept = or_eof m.err in (some kept, record m { err_once = true; err = some kept })

  unfoldable pub unblock : Mux → Mux
  unblock m = record m { blocked = false }

  unfoldable pub open_ : ℕ → Mux → Option ℕ × Mux
  open_ id m = if nat_beq id 0 then (none, m) else elim (lookup id m.conns) [
    | some h ↦ (some h, m)
    | none ↦ (
      some m.next,
      record m {
        store = put m.next (record { id = id; queue = []; done = false }) m.store;
        next = suc m.next;
        conns = insert id m.next m.conns;
      },
    )
  ]

  -- `conn.close`
  unfoldable pub finish : ℕ → (ℕ → Conn) → ℕ → Conn
  finish h store = put h (record (store h) { done = true }) store

  abbrev pub finish_all : Map ℕ ℕ → (ℕ → Conn) → ℕ → Conn
  unfolding finish
  finish_all [] store = store
  finish_all ((id, h) ∷ rest) store = finish_all rest (finish h store)

  unfoldable pub close : Mux → Mux
  close m =
      if m.closed
      then m
      else record m { store = finish_all m.conns m.store; closed = true; wire = trunk.shut m.wire }

  -- `conns[id] == c`
  abbrev pub is_at : ℕ → ℕ → Map ℕ ℕ → Bool
  is_at id h conns = elim (lookup id conns) [ none ↦ false | some g ↦ nat_beq g h ]

  -- `conn.Close`
  unfoldable pub close_conn : ℕ → Mux → Mux
  unfolding finish
  close_conn h m =
      let id = (m.store h).id in
      record m {
        conns = if is_at id h m.conns then delete id m.conns else m.conns;
        store = finish h m.store;
      }

  -- The select of `mux.reader` that puts a payload into the queue of a connection.
  unfoldable pub enqueue : ℕ → Bytes → Mux → Mux
  unfolding set_error close
  enqueue h payload m =
      let c = m.store h in
      if ltb (length c.queue) m.qlen
      then record m {
        store = put h (record c { queue = c.queue ++ payload ∷ [] }) m.store;
        reader = at_top;
      }
      else close (set_error queue_error (record m { reader = returned }))

  -- What `mux.reader` does with a frame.
  unfoldable pub dispatch : Frame → Mux → Mux
  unfolding enqueue
  dispatch f m = elim (lookup f.conn_id m.conns) [
    | none ↦ record m { reader = at_top }
    | some h ↦ enqueue h f.payload m
  ]

  -- The reader gets a frame or an error from the trunk; it reads only within the loop.
  unfoldable pub receive : NextFrame → Mux → Mux
  unfolding dispatch set_error close
  receive (frame f rest) m = if is_reading m.reader then dispatch f m else m
  receive (no_frame e) m =
      if is_reading m.reader then close (set_error e (record m { reader = returned })) else m

  -- The reader goes on to the loop once it is unblocked, and into a read unless the mux is closed.
  unfoldable pub advance_reader : Mux → Mux
  advance_reader m = record m { reader = next_reader m.blocked m.closed m.reader }

  -- The first message of the queue is taken, and copied if the buffer can hold it.
  unfoldable pub take_message : ℕ → ℕ → ℕ → Bytes → List Bytes → Mux → ReadEnd × Mux
  take_message h len cap msg rest m =
      let taken = record m { store = put h (record (m.store h) { queue = rest }) m.store } in
      if ltb cap (length msg) then (no_memory, taken) else (got (take len msg) (length msg), taken)

  -- `conn.Read` for a buffer of a length and a capacity. Where both cases of the select are ready,
  -- `pick` says that the first is taken.
  unfoldable pub read : ℕ → ℕ → ℕ → Bool → Mux → ReadEnd × Mux
  unfolding error take_message
  read h len cap pick m =
      let (e, failed) = error m in
      elim (m.store h).queue [
        | [] ↦ if (m.store h).done then (read_failed e, failed) else (blocks, m)
        | msg ∷ rest ↦
            if (m.store h).done && pick
            then (read_failed e, failed)
            else take_message h len cap msg rest m
      ]

  -- The mux is closed where part of a header or payload was written.
  unfoldable pub after_write : Written → Mux → Mux
  unfolding set_error close
  after_write (broken true) m = close (set_error write_error m)
  after_write _ m = m

  -- `conn.Write`; `none` stands for the `io.EOF` of a connection that is closed.
  unfoldable pub write_conn : ℕ → Bytes → Mux → Option Written × Mux
  unfolding write after_write
  write_conn h buf m =
      if (m.store h).done
      then (none, m)
      else let (result, w) = write trunk (m.store h).id buf m.wire in
        (some result, after_write result (record m { wire = w }))

  -- What a mux does: the calls on it and on its connections, and the steps of its reader.
  pub data Event : Type 0 where
    opened : ℕ → Event
    closes_conn : ℕ → Event
    closes unblocks reader_runs : Event
    receives : NextFrame → Event
    reads : ℕ → ℕ → ℕ → Bool → Event
    writes : ℕ → Bytes → Event

  unfoldable pub step : Event → Mux → Mux
  unfolding open_ close_conn close unblock advance_reader receive read write_conn
  step (opened id) m = (open_ id m).1
  step (closes_conn h) m = close_conn h m
  step closes m = close m
  step unblocks m = unblock m
  step reader_runs m = advance_reader m
  step (receives n) m = receive n m
  step (reads h len cap pick) m = (read h len cap pick m).1
  step (writes h buf) m = (write_conn h buf m).1

  unfoldable pub run : List Event → Mux → Mux
  unfolding step
  run [] m = m
  run (e ∷ es) m = run es (step e m)
