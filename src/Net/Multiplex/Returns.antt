-- ===== src/Net/Multiplex/Returns.antt =====
-- What `conn.Read` (pkg/net/multiplex/mux.go) returns for a message that it takes from a queue.
use nri.Base.{
  nat_eq, ℕ, ◌≤◌, ◌<◌, ◌≡◌, refl, Bool, ◌&&◌, List, List-cases, [], ◌∷◌, ◌++◌, length, take, ltb,
  nat_beq, if◌then◌else◌, arith, Bool-cases, inl, inr, nat_beq_iff, subst, sym,
}
use nri.Net.Multiplex.Frames.{Bytes, Trunk}
use nri.Net.Multiplex.Conns.{ReadEnd, got, no_memory, Mux, take_message, read, Event, reads, step}
use nri.Net.Multiplex.Queues.{queue_of, takes, taken_out, all_taken_out}

-- What a read returns for a message into a buffer of a length and a capacity: that the message is
-- larger than the capacity, or what of it the buffer holds, and its whole size.
abbrev pub Gives : ℕ → ℕ → Bytes → ReadEnd → Type 0
Gives len cap msg no_memory = cap < length msg
Gives len cap msg (got bytes n) = (length msg ≤ cap) × (bytes ≡ take len msg) × (n ≡ length msg)
Gives len cap msg _ = ⊥

-- A read that took a message: the length and the capacity of its buffer, and what it returned.
abbrev pub Return : Type 0
Return = ℕ × ℕ × ReadEnd

-- The reads returned the messages one by one.
abbrev pub AllGive : List Return → List Bytes → Type 0
AllGive [] msgs = msgs ≡ []
AllGive ((len, cap, end) ∷ returns) msgs =
    (msg : Bytes) × (rest : List Bytes) × (msgs ≡ msg ∷ rest)
    × Gives len cap msg end
    × AllGive returns rest

AllGive-append :
    (rs ss : List Return) (ms ns : List Bytes)
    → AllGive rs ms
    → AllGive ss ns
    → AllGive (rs ++ ss) (ms ++ ns)
AllGive-append [] ss ms ns e h = subst (λ l. AllGive ss (l ++ ns)) (sym e) h
AllGive-append ((len, cap, end) ∷ rs) ss ms ns (msg, rest, e, gives, more) h =
    (msg, rest ++ ns, rw e refl, gives, AllGive-append rs ss rest ns more h)

module _ (trunk : Trunk) where
  -- What a read on a connection returns that takes a message.
  abbrev pub returned : ℕ → Event trunk → Mux trunk → List Return
  returned h (reads g len cap pick) m =
      let end = (read trunk g len cap pick m).0 in
      if nat_beq g h && takes trunk end then (len, cap, end) ∷ [] else []
  returned h _ m = []

  abbrev pub all_returned : ℕ → List (Event trunk) → Mux trunk → List Return
  all_returned h [] m = []
  all_returned h (e ∷ es) m = returned h e m ++ all_returned h es (step trunk e m)

  -- A read that takes the message in front of the queue returns it, and one that does not, nothing.
  abbrev ReadGives : ℕ → ℕ → List Bytes → ReadEnd → Type 0
  ReadGives len cap queue end =
      AllGive (if takes trunk end then (len, cap, end) ∷ [] else [])
        (if takes trunk end then take 1 queue else [])

  take_message-ReadGives :
      (g len cap : ℕ) (msg : Bytes) (rest : List Bytes) (m : Mux trunk)
      → ReadGives len cap (msg ∷ rest) (take_message trunk g len cap msg rest m).0
  unfolding take_message
  take_message-ReadGives g len cap msg rest m = elim (Bool-cases (ltb cap (length msg))) [
    | inl short ↦ rw short (msg, [], refl, ground arith, refl)
    | inr fits ↦ rw fits (msg, [], refl, (ground arith, refl, refl), refl)
  ]

  read-ReadGives :
      (g len cap : ℕ) (pick : Bool) (m : Mux trunk)
      → ReadGives len cap (queue_of trunk g m) (read trunk g len cap pick m).0
  unfolding read
  read-ReadGives g len cap pick m = elim (List-cases (queue_of trunk g m)) [
    | inl none_ ↦ elim (Bool-cases (m.store g).done) [
      | inl done ↦ rw (none_, read, done) refl
      | inr live ↦ rw (none_, read, live) refl
    ]
    | inr (msg, rest, e) ↦ elim (Bool-cases ((m.store g).done && pick)) [
      | inl failed ↦ rw (e, read, failed) refl
      | inr taken ↦ rw (e, read, taken) (take_message-ReadGives g len cap msg rest m)
    ]
  ]

  step-AllGive :
      (h : ℕ) (e : Event trunk) (m : Mux trunk) → AllGive (returned h e m) (taken_out trunk h e m)
  step-AllGive h (reads g len cap pick) m = elim (Bool-cases (nat_beq g h)) [
    | inl same ↦ rw same (
        subst (λ k. ReadGives len cap (queue_of trunk k m) (read trunk g len cap pick m).0)
          ((nat_beq_iff g h).0 same) (read-ReadGives g len cap pick m))
    | inr other ↦ rw other refl
  ]
  step-AllGive h _ m = refl

  pub run-AllGive :
      (h : ℕ) (es : List (Event trunk)) (m : Mux trunk)
      → AllGive (all_returned h es m) (all_taken_out trunk h es m)
  run-AllGive h [] m = refl
  run-AllGive h (e ∷ es) m =
      AllGive-append (returned h e m) (all_returned h es (step trunk e m)) (taken_out trunk h e m)
        (all_taken_out trunk h es (step trunk e m)) (step-AllGive h e m)
        (run-AllGive h es (step trunk e m))
