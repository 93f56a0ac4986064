-- ===== src/Net/Multiplex/Writing.antt =====
-- What `mux.write` (pkg/net/multiplex/mux.go) puts on the trunk.
use nri.Base.{
  ℕ, zero, suc, ◌≤◌, ◌<◌, ◌≡◌, refl, sym, ◌∙◌, ap, Bool, true, false, some, Option-cases, inl, inr,
  ◌⊎◌, List, [], ◌∷◌, ◌++◌, arith, not, subst, All, All-append, All-mono, length, take, drop, min,
  nat_beq, if◌then◌else◌, append-take-drop, length-drop, length-take,
}
use mathlib.Core.List.{append_assoc, append-nil}
use nri.Net.Multiplex.Frames.{
  Bytes, max_payload_size, header, Trunk, Written, wrote, broken, unfinished, write_rounds, write,
  eof, Frame, eof_error, frames_of,
}
use nri.Net.Multiplex.Framing.{
  encoded, all_encoded, payloads, Fits, IsOf, all_encoded-append, length-all_encoded, IsOf-Fits,
  frames_of-all_encoded,
}

nil_of : (xs : Bytes) → length xs ≡ 0 → xs ≡ []
nil_of [] h = refl
nil_of (x ∷ xs) h = absurd (omega arith)

module _ (trunk : Trunk) where
  open trunk use {Wire, send, sent, sent_all}

  -- A round that ends the loop with an error, or the frame that it sends and what comes then.
  pub write_rounds_cases :
      (fuel total id : ℕ) (data_ : Bytes) (size : ℕ) (w : Wire)
      → size ≤ length data_
      → ((sent_some : Bool) × (w' : Wire) × (write_rounds trunk (suc fuel) total id data_ size w
            ≡ (broken sent_some, w')))
        ⊎ ((w' : Wire) × (sent w'
              ≡ sent w
                ++ encoded
                    (record { conn_id = id; payload = take (min size max_payload_size) data_ }))
            × (write_rounds trunk (suc fuel) total id data_ size w ≡ (
                if nat_beq
                  (min
                    (min size max_payload_size)
                    (length (drop (min size max_payload_size) data_)))
                  0
                then (wrote total, w')
                else write_rounds trunk fuel total id
                    (drop (min size max_payload_size) data_)
                    (min
                      (min size max_payload_size)
                      (length (drop (min size max_payload_size) data_)))
                    w')))
  unfolding write_rounds
  write_rounds_cases fuel total id data_ size w h =
      let n = min size max_payload_size in
      elim (Option-cases (send (header id n) w).0) [
        | inr (k, failed) ↦
            inl (not (nat_beq k 0), (send (header id n) w).1, rw (failed, write_rounds) refl)
        | inl ok ↦ elim (Option-cases (send (take n data_) (send (header id n) w).1).0) [
          | inr (k, failed) ↦ inl (
            not (nat_beq k 0),
            (send (take n data_) (send (header id n) w).1).1,
            rw (ok, write_rounds, failed) refl,
          )
          | inl ok' ↦ inr (
            (send (take n data_) (send (header id n) w).1).1,
            rw
                (
                  sent_all (take n data_) (send (header id n) w).1 ok',
                  sent_all (header id n) w ok,
                  length-take n data_ (ground arith),
                )
                (append_assoc (sent w) (header id n) (take n data_)),
            rw (ok, write_rounds, ok') refl,
          )
        ]
      ]

  -- From the one state of the trunk to the other, frames of the connection were sent that make up the
  -- bytes.
  pub record IsFramed (id : ℕ) (bytes : Bytes) (w w' : Wire) : Type 0 where
    pub frames : List Frame
    pub appended : sent w' ≡ sent w ++ all_encoded frames
    pub complete : payloads frames ≡ bytes
    pub all_of_id : All (IsOf id) frames

  -- A write has an outcome, and with a number of bytes it is all of them.
  abbrev pub Frames : ℕ → ℕ → Bytes → Wire → Written × Wire → Type 0
  Frames total id bytes w (wrote n, w') = (n ≡ total) × IsFramed id bytes w w'
  Frames total id bytes w (broken _, w') = Unit
  Frames total id bytes w (unfinished, w') = ⊥

  IsFramed-one :
      (id n : ℕ) (bytes : Bytes) (w w' : Wire)
      → n ≤ length bytes
      → n ≤ max_payload_size
      → sent w' ≡ sent w ++ encoded (record { conn_id = id; payload = take n bytes })
      → drop n bytes ≡ []
      → IsFramed id bytes w w'
  IsFramed-one id n bytes w w' h k e all = record {
    frames = record { conn_id = id; payload = take n bytes } ∷ [];
    appended = rw (append-nil (encoded (record { conn_id = id; payload = take n bytes }))) e;
    complete = ap (λ xs. take n bytes ++ xs) (sym all) ∙ append-take-drop n bytes;
    all_of_id = (record { same_id = refl; bounded = omega (arith, length-take n bytes h) }, tt);
  }

  IsFramed-more :
      (id n : ℕ) (bytes : Bytes) (w w' w'' : Wire)
      → n ≤ length bytes
      → n ≤ max_payload_size
      → sent w' ≡ sent w ++ encoded (record { conn_id = id; payload = take n bytes })
      → IsFramed id (drop n bytes) w' w''
      → IsFramed id bytes w w''
  IsFramed-more id n bytes w w' w'' h k e more =
      let f : Frame = record { conn_id = id; payload = take n bytes } in
      record {
        frames = f ∷ more.frames;
        appended =
            more.appended ∙ rw e (append_assoc (sent w) (encoded f) (all_encoded more.frames));
        complete = ap (λ xs. take n bytes ++ xs) more.complete ∙ append-take-drop n bytes;
        all_of_id = (
          record { same_id = refl; bounded = omega (arith, length-take n bytes h) },
          more.all_of_id,
        );
      }

  Frames-more :
      (total id n : ℕ) (bytes : Bytes) (w w' : Wire) (r : Written × Wire)
      → n ≤ length bytes
      → n ≤ max_payload_size
      → sent w' ≡ sent w ++ encoded (record { conn_id = id; payload = take n bytes })
      → Frames total id (drop n bytes) w' r
      → Frames total id bytes w r
  Frames-more total id n bytes w w' (wrote m, w'') h k e (count, more) =
      (count, IsFramed-more id n bytes w w' w'' h k e more)
  Frames-more total id n bytes w w' (broken b, w'') h k e more = tt
  Frames-more total id n bytes w w' (unfinished, w'') h k e more = absurd more

  Frames-if :
      (total id : ℕ) (bytes : Bytes) (w : Wire) (b : Bool) (x y : Written × Wire)
      → (b ≡ true → Frames total id bytes w x)
      → (b ≡ false → Frames total id bytes w y)
      → Frames total id bytes w (if b then x else y)
  Frames-if total id bytes w true x y f g = f refl
  Frames-if total id bytes w false x y f g = g refl

  write_rounds-Frames :
      (fuel total id : ℕ) (bytes : Bytes) (size : ℕ) (w : Wire)
      → size ≤ length bytes
      → (size ≡ 0 → length bytes ≡ 0)
      → length bytes < fuel
      → Frames total id bytes w (write_rounds trunk fuel total id bytes size w)
  write_rounds-Frames zero total id bytes size w h z enough = absurd (omega arith)
  write_rounds-Frames (suc fuel) total id bytes size w h z enough =
      let n = min size max_payload_size in
      let rest = drop n bytes in
      elim (write_rounds_cases fuel total id bytes size w h) [
        | inl (b, w', e) ↦ subst (Frames total id bytes w) (sym e) tt
        | inr (w', e, r) ↦ subst (Frames total id bytes w) (sym r) (
            Frames-if total id bytes w (nat_beq (min n (length rest)) 0) _ _
              (λ last. (
                refl,
                IsFramed-one id n bytes w w' (ground arith) (ground arith) e
                    (nil_of rest (ground (arith, length-drop n bytes))),
              ))
              (λ more. Frames-more total id n bytes w w' _ (ground arith) (ground arith) e (
                write_rounds-Frames fuel total id rest (min n (length rest)) w' (ground arith)
                  (ground arith) (ground (arith, length-drop n bytes)))))
      ]

  -- A write comes to an end. Where it succeeds it reports the number of bytes in the buffer, and it
  -- has appended frames of the connection to the trunk, each with at most `maxPayloadSize` bytes of
  -- payload, whose payloads in order are the buffer.
  pub write-Frames :
      (id : ℕ) (buf : Bytes) (w : Wire) → Frames (length buf) id buf w (write trunk id buf w)
  unfolding write
  write-Frames id buf w =
      write_rounds-Frames (suc (length buf)) (length buf) id buf (length buf) w (omega arith)
        (λ h. h) (omega arith)

  -- What a successful write sends is read back at the other end of the trunk: after the frames that were
  -- on it, there are frames of the connection, and their payloads in order are the buffer. The id has
  -- 32 bits, and so do the ids and sizes of the earlier frames; the trunk then ends.
  pub frames_of-write :
      (id n : ℕ) (buf : Bytes) (earlier : List Frame) (w w' : Wire)
      → id < 4294967296
      → All Fits earlier
      → sent w ≡ all_encoded earlier
      → write trunk id buf w ≡ (wrote n, w')
      → (fs : List Frame) × (frames_of (suc (length (sent w'))) (sent w') eof
          ≡ (earlier ++ fs, some eof_error))
        × (payloads fs ≡ buf)
        × All (IsOf id) fs
  frames_of-write id n buf earlier w w' small fits before e =
      let (_, framed) : (n ≡ length buf) × IsFramed id buf w w' =
        subst (Frames (length buf) id buf w) e (write-Frames id buf w) in
      let now : sent w' ≡ all_encoded (earlier ++ framed.frames) =
        framed.appended ∙ rw before (sym (all_encoded-append earlier framed.frames)) in
      (
        framed.frames,
        rw now (
            frames_of-all_encoded (earlier ++ framed.frames)
              (suc (length (all_encoded (earlier ++ framed.frames))))
              (All-append Fits earlier framed.frames fits (
                All-mono (IsOf id) Fits framed.frames (λ f h. IsOf-Fits id f small h)
                  framed.all_of_id))
              (omega (arith, length-all_encoded (earlier ++ framed.frames)))),
        framed.complete,
        framed.all_of_id,
      )
