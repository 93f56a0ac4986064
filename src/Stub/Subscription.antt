-- ===== src/Stub/Subscription.antt =====
-- A plugin is subscribed only to events that it can handle (pkg/stub/stub.go).
use nri.Base.{
  subst, ℕ, zero, suc, ◌-◌, ◌≤◌, ◌<◌, ◌≡◌, refl, String, Bool, true, false, ◌||◌, Bool-cases,
  Option-cases, inl, inr, Option, none, some, List, [], ◌∷◌, All, nat_beq, nat_beq_iff,
  if◌then◌else◌, arith,
}
use nri.Api.Event.{
  bit, is_set, set, and_not, bit-set_bit, and_not-zero, create_event, update_event, stop_event,
  update_pod_event, validate_event,
}
use nri.Stub.Handlers.{
  without_container, Handled-cases, handled, handler_failed, Handler, Handlers, implements,
  interfaces, set_events, events_of, setup_handlers, configure_stub, state_handler,
}

bit-zero : (k : ℕ) → bit 0 k ≡ false
unfolding bit
bit-zero zero = refl
bit-zero (suc k) = bit-zero k

module _ (S Pod : Type 0) where
  -- The plugin has the handler to which the stub passes on the requests or state changes of an event.
  abbrev pub handles : Handlers S Pod → ℕ → Bool
  handles h e =
      if nat_beq e create_event
      then implements S Pod h.create_container
      else if nat_beq e update_event
      then implements S Pod h.update_container
      else if nat_beq e stop_event
      then implements S Pod h.stop_container
      else if nat_beq e update_pod_event
      then implements S Pod h.update_pod
      else if nat_beq e validate_event
      then implements S Pod h.validate
      else implements S Pod (state_handler S Pod h e)

  is_set-set :
      (mask e f : ℕ) → 0 < e → 0 < f → is_set (set mask (e ∷ [])) f ≡ (nat_beq e f || is_set mask f)
  unfolding is_set set
  is_set-set mask (suc e) (suc f) h k = ground (arith, bit-set_bit mask e f)
  is_set-set mask zero f h k = absurd (omega arith)
  is_set-set mask (suc e) zero h k = absurd (omega arith)

  -- An event that the mask has is among those of the interfaces, or was there before.
  set_events-cases :
      (P : ℕ → Type 0) (t : List (ℕ × Bool)) (mask f : ℕ)
      → All (λ x. (0 < x.0) × (x.1 ≡ true → P x.0)) t
      → 0 < f
      → (is_set mask f ≡ true → P f)
      → is_set (set_events S Pod t mask) f ≡ true
      → P f
  unfolding set_events
  set_events-cases P [] mask f h k before e = before e
  set_events-cases P ((x, true) ∷ t) mask f h k before e =
      set_events-cases P t (set mask (x ∷ [])) f h.1 k
        (λ now. elim (Bool-cases (nat_beq x f)) [
          | inl same ↦ subst P ((nat_beq_iff x f).0 same) (h.0.1 refl)
          | inr other ↦ before (ground (arith, is_set-set mask x f h.0.0 k))
        ])
        e
  set_events-cases P ((x, false) ∷ t) mask f h k before e =
      set_events-cases P t mask f h.1 k before e

  without-implements :
      (o : Option (Pod → Handler S (Unit {0})))
      → implements S Pod o ≡ true
      → implements S Pod (without_container S Pod o) ≡ true
  without-implements none e = e
  without-implements (some f) e = refl

  interfaces-handles :
      (h : Handlers S Pod)
      → All (λ x. (0 < x.0) × (x.1 ≡ true → handles h x.0 ≡ true)) (interfaces S Pod h)
  unfolding state_handler
  interfaces-handles h = (
    (omega arith, without-implements h.run_pod),
    (
      (omega arith, λ e. e),
      (
        (omega arith, without-implements h.stop_pod),
        (
          (omega arith, without-implements h.remove_pod),
          (
            (omega arith, without-implements h.post_update_pod),
            (
              (omega arith, λ e. e),
              (
                (omega arith, λ e. e),
                (
                  (omega arith, λ e. e),
                  (
                    (omega arith, λ e. e),
                    (
                      (omega arith, λ e. e),
                      (
                        (omega arith, λ e. e),
                        (
                          (omega arith, λ e. e),
                          ((omega arith, λ e. e), ((omega arith, λ e. e), tt)),
                        ),
                      ),
                    ),
                  ),
                ),
              ),
            ),
          ),
        ),
      ),
    ),
  )

  events_of-handles :
      (h : Handlers S Pod) (f : ℕ)
      → 0 < f
      → is_set (events_of S Pod h) f ≡ true
      → handles h f ≡ true
  unfolding events_of is_set
  events_of-handles h f k e =
      set_events-cases (λ g. handles h g ≡ true) (interfaces S Pod h) 0 f (interfaces-handles h) k
        (λ no. absurd (ground (arith, bit-zero (f - 1)))) e

  checked_among :
      (asked mask events k : ℕ)
      → (if nat_beq (and_not 32 (if nat_beq asked 0 then mask else asked) mask) 0
          then handled (if nat_beq asked 0 then mask else asked)
          else handler_failed "internal error: unhandled events")
        ≡ handled events
      → k < 32
      → bit events k ≡ true
      → bit mask k ≡ true
  checked_among asked mask events k e high b =
      ground (arith, and_not-zero 32 (if nat_beq asked 0 then mask else asked) mask k)

  -- The check of `Configure`: the events are among those of the stub.
  configured_among :
      (h : Handlers S Pod) (mask events : ℕ) (config runtime version : String) (s : S) (k : ℕ)
      → (configure_stub S Pod h mask config runtime version s).0 ≡ handled events
      → k < 32
      → bit events k ≡ true
      → bit mask k ≡ true
  unfolding configure_stub
  configured_among h mask events config runtime version s k done high b =
      elim (Option-cases h.configure) [
        | inl none_ ↦
            let same : handled mask ≡ handled events =
              (let d = done in rw (none_, configure_stub) at d) in
            let eq : mask ≡ events = ground arith in rw eq b
        | inr (f, own) ↦ elim (Handled-cases (f config runtime version s).0) [
          | inr (e, bad) ↦
              let no : handler_failed e ≡ handled events =
                (let d = done in rw (own, configure_stub, bad) at d) in
              absurd (ground arith)
          | inl (asked, fine) ↦
              let given = (let d = done in rw (own, configure_stub, fine) at d) in
              checked_among asked mask events k given high b
        ]
      ]

  -- A plugin that is set up and configured is subscribed only to events for which it has the handler
  -- that the stub calls, whatever events its own configuration asks for.
  pub configure_stub-handles :
      (h : Handlers S Pod) (mask events : ℕ) (config runtime version : String) (s : S) (e : ℕ)
      → setup_handlers S Pod h ≡ some mask
      → (configure_stub S Pod h mask config runtime version s).0 ≡ handled events
      → 0 < e
      → e ≤ 32
      → is_set events e ≡ true
      → handles h e ≡ true
  unfolding setup_handlers is_set
  configure_stub-handles h mask events config runtime version s e up done low high sub =
      let own : mask ≡ events_of S Pod h = ground arith in
      events_of-handles h e low (
        subst (λ m. is_set m e ≡ true) own
          (configured_among h mask events config runtime version s (e - 1) done (omega arith) sub))
