-- ===== src/Net/Multiplex/Tests.antt =====
-- Concrete runs of the multiplexer (pkg/net/multiplex/mux.go).
use nri.Base.{
  nat_eq, ◌≤◌, ◌≡◌, refl, true, false, none, some, List, [], ◌∷◌, ◌++◌, length, arith, All,
}
use nri.Base.Map.{lookup, insert}
use nri.Net.Multiplex.Frames.{
  header, Bytes, Trunk, write, eof, eof_error, Frame, frame, frames_of, queue_error,
}
use nri.Net.Multiplex.Writing.{Frames, write-Frames, frames_of-write}
use nri.Net.Multiplex.Framing.{IsOf, payloads}
use nri.Net.Multiplex.Conns.{Mux, new_mux, Event, opened, closes, reader_runs, receives, reads, run}
use nri.Net.Multiplex.Queues.{queue_of, all_arrived}
use nri.Net.Multiplex.Returns.{AllGive, all_returned}
use nri.Net.Multiplex.Fifo.{run-queue}
use nri.Net.Multiplex.Valid.{IsValid}
use nri.Net.Multiplex.ValidRuns.{run-new_mux-IsValid}
use nri.Net.Multiplex.Bounds.{run-new_mux_bounded}
use nri.Net.Multiplex.Messages.{payloads_for, write_all}
use nri.Net.Multiplex.Delivery.{receive_all, messages_delivered}

-- A trunk that takes all bytes.
abbrev good_trunk : Trunk
good_trunk = record {
  Wire = Bytes;
  send = λ b w. (none, w ++ b);
  sent = λ w. w;
  shut = λ w. w;
  sent_all = λ b w ok. refl;
}

abbrev two_messages : List Frame
two_messages =
    record { conn_id = 7; payload = 1 ∷ 2 ∷ [] } ∷ record { conn_id = 9; payload = 3 ∷ [] } ∷ []

abbrev both_encoded : Bytes
both_encoded = 0 ∷ 0 ∷ 0 ∷ 7 ∷ 0 ∷ 0 ∷ 0 ∷ 2 ∷ 1 ∷ 2 ∷ 0 ∷ 0 ∷ 0 ∷ 9 ∷ 0 ∷ 0 ∷ 0 ∷ 1 ∷ 3 ∷ []

run_write_all : write_all good_trunk two_messages [] ≡ some both_encoded
unfolding write header
run_write_all = refl

run_frames_of : frames_of 20 both_encoded eof ≡ (two_messages, some eof_error)
unfolding frames_of
run_frames_of = refl

-- A mux with room for two messages on each connection; 7 is open, and the reader reads.
abbrev open_events : List (Event good_trunk)
open_events = opened 7 ∷ reader_runs ∷ reader_runs ∷ []

abbrev ready_mux : Mux good_trunk
ready_mux = run good_trunk open_events (new_mux good_trunk [] 2 false)

-- Two messages come for 7 and one is read.
abbrev some_events : List (Event good_trunk)
some_events =
    receives (frame (record { conn_id = 7; payload = 1 ∷ [] }) [])
    ∷ reader_runs
    ∷ receives (frame (record { conn_id = 7; payload = 2 ∷ [] }) [])
    ∷ reader_runs
    ∷ reads 0 16 16 true
    ∷ []

run-some_events : queue_of good_trunk 0 (run good_trunk some_events ready_mux) ≡ (2 ∷ []) ∷ []
unfolding run new_mux lookup insert
run-some_events = refl

-- The third message for a queue of two closes the mux.
abbrev overflow_events : List (Event good_trunk)
overflow_events =
    some_events
    ++ receives (frame (record { conn_id = 7; payload = 3 ∷ [] }) [])
      ∷ reader_runs
      ∷ receives (frame (record { conn_id = 7; payload = 4 ∷ [] }) [])
      ∷ []

run-overflow_err : (run good_trunk overflow_events ready_mux).err ≡ some queue_error
unfolding run new_mux lookup insert
run-overflow_err = refl

-- A connection that is opened after the mux was closed stays open.
run-open_late : ((run good_trunk (closes ∷ opened 8 ∷ []) ready_mux).store 1).done ≡ false
unfolding run new_mux lookup insert
run-open_late = refl

write-Frames_example : Frames good_trunk 2 7 (1 ∷ 2 ∷ []) [] (write good_trunk 7 (1 ∷ 2 ∷ []) [])
write-Frames_example = write-Frames good_trunk 7 (1 ∷ 2 ∷ []) []

frames_of-write_example :
    (fs : List Frame) × (frames_of 11 (0 ∷ 0 ∷ 0 ∷ 7 ∷ 0 ∷ 0 ∷ 0 ∷ 2 ∷ 1 ∷ 2 ∷ []) eof
      ≡ (fs, some eof_error))
    × (payloads fs ≡ 1 ∷ 2 ∷ [])
    × All (IsOf 7) fs
unfolding write header
frames_of-write_example =
    frames_of-write good_trunk 7 2 (1 ∷ 2 ∷ []) [] [] (0 ∷ 0 ∷ 0 ∷ 7 ∷ 0 ∷ 0 ∷ 0 ∷ 2 ∷ 1 ∷ 2 ∷ [])
      (omega arith) tt refl refl

run-queue_example :
    (taken : List Bytes) × AllGive (all_returned good_trunk 0 some_events ready_mux) taken
    × (queue_of good_trunk 0 ready_mux ++ all_arrived good_trunk 0 some_events ready_mux
        ≡ taken ++ queue_of good_trunk 0 (run good_trunk some_events ready_mux))
unfolding run new_mux lookup insert
run-queue_example = run-queue good_trunk 0 some_events ready_mux (omega arith)

run-new_mux-IsValid_example :
    IsValid good_trunk (run good_trunk open_events (new_mux good_trunk [] 2 false))
run-new_mux-IsValid_example = run-new_mux-IsValid good_trunk [] 2 false open_events

run-new_mux_bounded_example :
    length (
      queue_of good_trunk 0
        (run good_trunk (open_events ++ overflow_events) (new_mux good_trunk [] 2 false)))
    ≤ 2
unfolding run new_mux lookup insert
run-new_mux_bounded_example =
    run-new_mux_bounded good_trunk [] 2 false (open_events ++ overflow_events) 0 (omega arith)

messages_delivered_example :
    queue_of good_trunk 0 (receive_all good_trunk (frames_of 20 both_encoded eof).0 ready_mux)
    ≡ queue_of good_trunk 0 ready_mux ++ payloads_for 7 two_messages
unfolding write header run new_mux lookup insert
messages_delivered_example =
    messages_delivered good_trunk good_trunk two_messages [] both_encoded ready_mux 7 0
      (
        record { small_id = omega arith; bounded = omega arith },
        (record { small_id = omega arith; bounded = omega arith }, tt),
      )
      refl refl (run-new_mux-IsValid good_trunk [] 2 false open_events) refl refl
      (λ g. ground arith) refl
