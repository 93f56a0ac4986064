-- ===== src/Net/Multiplex/Framing.antt =====
-- The bytes of frames (pkg/net/multiplex/mux.go), and what the reader at the other end makes of them.
use nri.Base.{
  ℕ, zero, suc, ◌≤◌, ◌<◌, ◌≡◌, refl, sym, true, some, List, [], ◌∷◌, ◌++◌, arith, leb, All, length,
  take, drop, length-append,
}
use mathlib.Core.List.{append_assoc}
use nri.Net.Multiplex.Frames.{
  Bytes, max_payload_size, header_len, put_uint32, uint32, header, TrunkEnd, eof_error, eof, full,
  read_full, Frame, frame, next_frame, frames_of,
}

-- The bytes of a frame, and of frames.
abbrev pub encoded : Frame → Bytes
encoded f = header f.conn_id (length f.payload) ++ f.payload

abbrev pub all_encoded : List Frame → Bytes
all_encoded [] = []
all_encoded (f ∷ fs) = encoded f ++ all_encoded fs

abbrev pub payloads : List Frame → Bytes
payloads [] = []
payloads (f ∷ fs) = f.payload ++ payloads fs

-- What fits the header: both numbers have 32 bits.
pub record Fits (f : Frame) : Type 0 where
  pub small_id : f.conn_id < 4294967296
  pub small_size : length f.payload < 4294967296

-- A frame that `write` makes for a connection.
pub record IsOf (id : ℕ) (f : Frame) : Type 0 where
  pub same_id : f.conn_id ≡ id
  pub bounded : length f.payload ≤ max_payload_size

uint32-put_uint32 : (n : ℕ) (rest : Bytes) → n < 4294967296 → uint32 (put_uint32 n ++ rest) ≡ n
unfolding uint32 put_uint32
uint32-put_uint32 n rest h = omega arith

length-header : (id n : ℕ) → length (header id n) ≡ 8
unfolding header put_uint32
length-header id n = refl

take-append : {A : Type 0} (xs ys : List A) → take (length xs) (xs ++ ys) ≡ xs
take-append [] ys = refl
take-append (x ∷ xs) ys = cc (take-append xs ys)

drop-append : {A : Type 0} (xs ys : List A) → drop (length xs) (xs ++ ys) ≡ ys
drop-append [] ys = refl
drop-append (x ∷ xs) ys = drop-append xs ys

leb-append : (xs ys : Bytes) → leb (length xs) (length (xs ++ ys)) ≡ true
leb-append xs ys = ground (arith, length-append xs ys)

read_full-append :
    (xs ys : Bytes) (end : TrunkEnd) → read_full (length xs) (xs ++ ys) end ≡ full xs ys
unfolding read_full
read_full-append xs ys end =
    rw (leb-append xs ys, read_full, take-append xs ys, drop-append xs ys) refl

read_full-header :
    (id n : ℕ) (xs : Bytes) (end : TrunkEnd)
    → read_full header_len (header id n ++ xs) end ≡ full (header id n) xs
unfolding header
read_full-header id n xs end = read_full-append (header id n) xs end

header_id : (id n : ℕ) → id < 4294967296 → uint32 (take 4 (header id n)) ≡ id
unfolding header
header_id id n h = uint32-put_uint32 id [] h

header_size : (id n : ℕ) → n < 4294967296 → uint32 (drop 4 (header id n)) ≡ n
unfolding header
header_size id n h = uint32-put_uint32 n [] h

-- The reader gets the frame that was encoded, and the bytes after it.
next_frame-encoded :
    (f : Frame) (rest : Bytes) (end : TrunkEnd)
    → Fits f
    → next_frame (encoded f ++ rest) end ≡ frame f rest
unfolding next_frame
next_frame-encoded f rest end fits =
    let size = length f.payload in
    rw
      (
        append_assoc (header f.conn_id size) f.payload rest,
        next_frame,
        read_full-header f.conn_id size (f.payload ++ rest) end,
        header_size f.conn_id size fits.small_size,
        read_full-append f.payload rest end,
        header_id f.conn_id size fits.small_id,
      )
      refl

-- The frames that fit are read back in order, whatever follows the last.
pub frames_of-all_encoded :
    (fs : List Frame) (fuel : ℕ)
    → All Fits fs
    → length fs < fuel
    → frames_of fuel (all_encoded fs) eof ≡ (fs, some eof_error)
unfolding frames_of next_frame read_full
frames_of-all_encoded fs zero fits h = absurd (omega arith)
frames_of-all_encoded [] (suc fuel) fits h = refl
frames_of-all_encoded (f ∷ fs) (suc fuel) fits h =
    rw
      (
        next_frame-encoded f (all_encoded fs) eof fits.0,
        frames_of,
        frames_of-all_encoded fs fuel fits.1 (omega arith),
      )
      refl

pub all_encoded-append :
    (fs gs : List Frame) → all_encoded (fs ++ gs) ≡ all_encoded fs ++ all_encoded gs
all_encoded-append [] gs = refl
all_encoded-append (f ∷ fs) gs =
    rw (all_encoded-append fs gs) (sym (append_assoc (encoded f) (all_encoded fs) (all_encoded gs)))

-- A frame takes a byte at least.
pub length-all_encoded : (fs : List Frame) → length fs ≤ length (all_encoded fs)
length-all_encoded [] = omega arith
length-all_encoded (f ∷ fs) =
    let size = length f.payload in
    omega (
      arith,
      length-all_encoded fs,
      length-append (encoded f) (all_encoded fs),
      length-append (header f.conn_id size) f.payload,
      length-header f.conn_id size,
    )

pub IsOf-Fits : (id : ℕ) (f : Frame) → id < 4294967296 → IsOf id f → Fits f
IsOf-Fits id f h of = record {
  small_id = omega (arith, of.same_id);
  small_size = omega (arith, of.bounded);
}
