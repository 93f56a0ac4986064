-- ===== src/Net/Multiplex/Messages.antt =====
-- Messages that are written, one after the other, by `mux.write` (pkg/net/multiplex/mux.go).
use nri.Base.{
  nat_eq, ℕ, ◌≤◌, ◌<◌, ◌≡◌, refl, sym, ap, ◌∙◌, true, Option, none, some, List, [], ◌∷◌, ◌++◌,
  length, drop, take_all, min, nat_beq, if◌then◌else◌, arith, inl, inr, All, length-drop,
}
use mathlib.Core.List.{append_assoc, append-nil}
use nri.Net.Multiplex.Frames.{
  Trunk, Bytes, max_payload_size, Written, wrote, broken, unfinished, write, Frame,
}
use nri.Net.Multiplex.Framing.{encoded, all_encoded, Fits}
use nri.Net.Multiplex.Writing.{write_rounds_cases}

-- A message that one frame holds.
pub record IsMessage (f : Frame) : Type 0 where
  pub small_id : f.conn_id < 4294967296
  pub bounded : length f.payload ≤ max_payload_size

-- The payloads of the frames for an id.
abbrev pub payloads_for : ℕ → List Frame → List Bytes
payloads_for id [] = []
payloads_for id (f ∷ fs) =
    let rest = payloads_for id fs in if nat_beq f.conn_id id then f.payload ∷ rest else rest

pub IsMessage-Fits : (f : Frame) → IsMessage f → Fits f
IsMessage-Fits f small = record {
  small_id = small.small_id;
  small_size = omega (arith, small.bounded);
}

module _ (trunk : Trunk) where
  open trunk use {Wire, sent}

  -- A message is sent as one frame.
  write_message :
      (f : Frame) (n : ℕ) (w w' : Wire)
      → IsMessage f
      → write trunk f.conn_id f.payload w ≡ (wrote n, w')
      → sent w' ≡ sent w ++ encoded f
  unfolding write
  write_message f n w w' small e =
      let size = length f.payload in
      elim (write_rounds_cases trunk size size f.conn_id f.payload size w (omega arith)) [
        | inl (b, v, r) ↦
            let clash : broken b ≡ wrote n = ap (λ p. p.0) (sym r ∙ e) in absurd (ground arith)
        | inr (v, s, r) ↦
            let part = min size max_payload_size in
            let all : part ≡ size = ground (arith, small.bounded) in
            let stop : nat_beq (min part (length (drop part f.payload))) 0 ≡ true =
              ground (arith, length-drop part f.payload) in
            let there : (wrote size, v) ≡ (wrote n, w') = sym (let r' = r in rw stop at r') ∙ e in
            ap sent (sym (ap (λ p. p.1) there)) ∙ (s ∙ rw (all, take_all f.payload) refl)
      ]

  -- Writes, one after the other; `none` is for one that fails.
  abbrev pub write_all : List Frame → Wire → Option Wire
  write_all [] w = some w
  write_all (f ∷ fs) w =
      let (result, w') = write trunk f.conn_id f.payload w in
      elim result [ wrote n ↦ write_all fs w' | _ ↦ none ]

  first_wrote :
      (fs : List Frame) (r : Written) (v w' : Wire)
      → (elim r as (λ _. Option Wire) [ wrote n ↦ write_all fs v | _ ↦ none ]) ≡ some w'
      → (n : ℕ) × (r ≡ wrote n) × (write_all fs v ≡ some w')
  first_wrote fs (wrote n) v w' e = (n, refl, e)
  first_wrote fs (broken b) v w' e = absurd (ground arith)
  first_wrote fs unfinished v w' e = absurd (ground arith)

  pub write_all-sent :
      (fs : List Frame) (w w' : Wire)
      → All IsMessage fs
      → write_all fs w ≡ some w'
      → sent w' ≡ sent w ++ all_encoded fs
  write_all-sent [] w w' small e =
      let same : w ≡ w' = ground arith in ap sent (sym same) ∙ sym (append-nil (sent w))
  write_all-sent (f ∷ fs) w w' small e =
      let (result, v) = write trunk f.conn_id f.payload w in
      let (n, first, rest) = first_wrote fs result v w' e in
      let one = write_message f n w v small.0 (ap (λ r. (r, v)) first) in
      write_all-sent fs v w' small.1 rest
      ∙ rw one (append_assoc (sent w) (encoded f) (all_encoded fs))
