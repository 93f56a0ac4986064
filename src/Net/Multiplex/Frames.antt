-- ===== src/Net/Multiplex/Frames.antt =====
-- `mux.write` and the parsing of `mux.reader` (pkg/net/multiplex/mux.go): a frame is the id of its
-- connection and the length of its payload, as big-endian 32-bit words, and the payload.
use nri.Base.{
  ℕ, zero, suc, ◌+◌, ◌*◌, ◌≡◌, Bool, not, Option, none, some, List, [], ◌∷◌, ◌++◌, length, take,
  drop, min, leb, nat_beq, if◌then◌else◌,
}
use Prim.Native.Nat.{◌/◌, ◌%◌}

abbrev pub Bytes : Type 0
Bytes = List ℕ

-- ttrpcMessageHeaderLength + ttrpcMessageLengthMax
abbrev pub max_payload_size : ℕ
max_payload_size = 10 + 4194304

abbrev pub header_len : ℕ
header_len = 8

-- `binary.BigEndian.PutUint32`
unfoldable pub put_uint32 : ℕ → Bytes
put_uint32 n = n / 16777216 % 256 ∷ n / 65536 % 256 ∷ n / 256 % 256 ∷ n % 256 ∷ []

-- `binary.BigEndian.Uint32`
unfoldable pub uint32 : Bytes → ℕ
uint32 (a ∷ b ∷ c ∷ d ∷ rest) = 16777216 * a + 65536 * b + 256 * c + d
uint32 _ = 0

unfoldable pub header : ℕ → ℕ → Bytes
unfolding put_uint32
header id size = put_uint32 id ++ put_uint32 size

-- What `mux.write` relies on: `net.Conn.Write` sends all bytes, or fails after a number of them;
-- `shut` is its `Close`.
pub record Trunk : Type 1 where
  pub Wire : Type 0
  pub send : Bytes → Wire → Option ℕ × Wire
  pub sent : Wire → Bytes
  pub shut : Wire → Wire
  pub sent_all : (b : Bytes) (w : Wire) → (send b w).0 ≡ none → sent (send b w).1 ≡ sent w ++ b

-- How a write ends: with the number of bytes, or with an error, after which the mux is closed if part
-- of the header or the payload was sent.
pub data Written : Type 0 where
  wrote : ℕ → Written
  broken : Bool → Written
  unfinished : Written

module _ (trunk : Trunk) where
  open trunk use {Wire, send}

  -- The rounds of the loop, `size` being the variable of that name; `total` is the length of `buf`.
  unfoldable pub write_rounds : ℕ → ℕ → ℕ → Bytes → ℕ → Wire → Written × Wire
  write_rounds zero total id data_ size w = (unfinished, w)
  write_rounds (suc fuel) total id data_ size w =
      let n = min size max_payload_size in
      let (failed, w₁) = send (header id n) w in
      elim failed [
        | some k ↦ (broken (not (nat_beq k 0)), w₁)
        | none ↦
            let (cut, w₂) = send (take n data_) w₁ in
            elim cut [
              | some k ↦ (broken (not (nat_beq k 0)), w₂)
              | none ↦
                  let rest = drop n data_ in
                  let next = min n (length rest) in
                  let more = write_rounds fuel total id rest next w₂ in
                  if nat_beq next 0 then (wrote total, w₂) else more
            ]
      ]

  unfoldable pub write : ℕ → Bytes → Wire → Written × Wire
  unfolding write_rounds
  write id buf w = write_rounds (suc (length buf)) (length buf) id buf (length buf) w

-- How the bytes of a trunk end: `io.EOF`, an error that stands for it, or any other.
pub data TrunkEnd : Type 0 where
  eof torn : TrunkEnd

-- `io.ReadFull`: the bytes and the rest, or the error; `torn` is also an unexpected end.
pub data ReadFull : Type 0 where
  full : Bytes → Bytes → ReadFull
  short : TrunkEnd → ReadFull

unfoldable pub read_full : ℕ → Bytes → TrunkEnd → ReadFull
read_full n bytes end =
    if leb n (length bytes)
    then full (take n bytes) (drop n bytes)
    else elim bytes [ [] ↦ short end | b ∷ bs ↦ short torn ]

pub record Frame : Type 0 where
  pub conn_id : ℕ
  pub payload : Bytes

-- The errors that a mux keeps: `io.EOF`, and those of a header or payload that cannot be read, of a
-- queue that is full, and of a header or payload that cannot be written.
pub data MuxError : Type 0 where
  eof_error header_error payload_error queue_error write_error : MuxError

-- The end of the trunk is passed on, any other error is wrapped.
abbrev pub read_error : MuxError → TrunkEnd → MuxError
read_error wrapped eof = eof_error
read_error wrapped torn = wrapped

-- One frame of the trunk, as `mux.reader` reads it.
pub data NextFrame : Type 0 where
  frame : Frame → Bytes → NextFrame
  no_frame : MuxError → NextFrame

unfoldable pub next_frame : Bytes → TrunkEnd → NextFrame
unfolding read_full uint32
next_frame bytes end = elim (read_full header_len bytes end) [
  | short e ↦ no_frame (read_error header_error e)
  | full hdr rest ↦ elim (read_full (uint32 (drop 4 hdr)) rest end) [
    | short e ↦ no_frame (read_error payload_error e)
    | full payload rest' ↦ frame (record { conn_id = uint32 (take 4 hdr); payload = payload }) rest'
  ]
]

-- The frames of the trunk in order, and how it ends; each takes 8 bytes at least.
unfoldable pub frames_of : ℕ → Bytes → TrunkEnd → List Frame × Option MuxError
unfolding next_frame
frames_of zero bytes end = ([], none)
frames_of (suc fuel) bytes end = elim (next_frame bytes end) [
  | no_frame e ↦ ([], some e)
  | frame f rest ↦ let (fs, e) = frames_of fuel rest end in (f ∷ fs, e)
]
