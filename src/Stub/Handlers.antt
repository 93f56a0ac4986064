-- ===== src/Stub/Handlers.antt =====
-- The handlers of a plugin, the events that it is subscribed to, and the requests that its stub
-- passes on to them (pkg/stub/stub.go).
use nri.Base.{
  ◌≡◌, ◌⊎◌, inl, inr, refl, ℕ, String, Bool, true, false, Option, none, some, List, [], ◌∷◌,
  nat_beq, if◌then◌else◌,
}
use nri.Api.Types.{Container, ContainerAdjustment, ContainerUpdate, LinuxResources}
use nri.Api.Event.{
  run_pod_event, stop_pod_event, remove_pod_event, create_event, post_create_event, start_event,
  post_start_event, update_event, post_update_event, stop_event, remove_event, update_pod_event,
  post_update_pod_event, validate_event, set, and_not,
}
use nri.Adaptation.Relay.{Verdict, ValidateRequest}

-- What a handler returns: a value, or the text of its error.
pub data Handled (A : Type 0) : Type 0 where
  handled : A → Handled A
  handler_failed : String → Handled A

pub Handled-cases :
    {A : Type 0} (r : Handled A)
    → ((a : A) × (r ≡ handled a)) ⊎ ((e : String) × (r ≡ handler_failed e))
Handled-cases (handled a) = inl (a, refl)
Handled-cases (handler_failed e) = inr (e, refl)

-- A handler works on the plugin's own state.
abbrev pub Handler : Type 0 → Type 0 → Type 0
Handler S A = S → Handled A × S

-- `S` is the state of the plugin, `Pod` the type of pods.
module _ (S Pod : Type 0) where
  -- The fields of `handlers`, but for `Shutdown`; each is nil unless the plugin implements its interface.
  pub record Handlers : Type 0 where
    pub configure : Option (String → String → String → Handler S ℕ)
    pub synchronize : Option (List Pod → List Container → Handler S (List ContainerUpdate))
    pub run_pod : Option (Pod → Handler S (Unit {0}))
    pub update_pod :
        Option (Pod → Option LinuxResources → Option LinuxResources → Handler S (Unit {0}))
    pub stop_pod : Option (Pod → Handler S (Unit {0}))
    pub remove_pod : Option (Pod → Handler S (Unit {0}))
    pub post_update_pod : Option (Pod → Handler S (Unit {0}))
    pub create_container :
        Option (Pod → Container → Handler S (Option ContainerAdjustment × List ContainerUpdate))
    pub start_container : Option (Pod → Container → Handler S (Unit {0}))
    pub update_container :
        Option (Pod → Container → Option LinuxResources → Handler S (List ContainerUpdate))
    pub stop_container : Option (Pod → Container → Handler S (List ContainerUpdate))
    pub remove_container : Option (Pod → Container → Handler S (Unit {0}))
    pub post_create_container : Option (Pod → Container → Handler S (Unit {0}))
    pub post_start_container : Option (Pod → Container → Handler S (Unit {0}))
    pub post_update_container : Option (Pod → Container → Handler S (Unit {0}))
    pub validate : Option (ValidateRequest → Handler S (Unit {0}))

  abbrev pub implements : {A : Type 0} → Option A → Bool
  implements none = false
  implements (some f) = true

  -- The events of the interfaces that `setupHandlers` looks for, in its order, and whether the plugin
  -- implements them.
  abbrev pub interfaces : Handlers → List (ℕ × Bool)
  interfaces h =
      (run_pod_event, implements h.run_pod)
      ∷ (update_pod_event, implements h.update_pod)
      ∷ (stop_pod_event, implements h.stop_pod)
      ∷ (remove_pod_event, implements h.remove_pod)
      ∷ (post_update_pod_event, implements h.post_update_pod)
      ∷ (create_event, implements h.create_container)
      ∷ (start_event, implements h.start_container)
      ∷ (update_event, implements h.update_container)
      ∷ (stop_event, implements h.stop_container)
      ∷ (remove_event, implements h.remove_container)
      ∷ (post_create_event, implements h.post_create_container)
      ∷ (post_start_event, implements h.post_start_container)
      ∷ (post_update_event, implements h.post_update_container)
      ∷ (validate_event, implements h.validate)
      ∷ []

  -- `stub.events.Set(event)` for each of them that it implements.
  unfoldable pub set_events : List (ℕ × Bool) → ℕ → ℕ
  unfolding set
  set_events [] mask = mask
  set_events ((e, has) ∷ rest) mask = set_events rest (if has then set mask (e ∷ []) else mask)

  unfoldable pub events_of : Handlers → ℕ
  unfolding set_events
  events_of h = set_events (interfaces h) 0

  -- `setupHandlers`: the mask, or an error for a plugin without any handler.
  unfoldable pub setup_handlers : Handlers → Option ℕ
  unfolding events_of
  setup_handlers h = if nat_beq (events_of h) 0 then none else some (events_of h)

  -- `Configure`, for a stub with a mask of events.
  unfoldable pub configure_stub : Handlers → ℕ → String → String → String → Handler S ℕ
  unfolding and_not
  configure_stub h mask config runtime version s = elim h.configure [
    | none ↦ (handled mask, s)
    | some f ↦
        let (answer, s') = f config runtime version s in
        elim answer [
          | handler_failed e ↦ (handler_failed e, s')
          | handled asked ↦
              let events = if nat_beq asked 0 then mask else asked in
              (
                if nat_beq (and_not 32 events mask) 0
                    then handled events
                    else handler_failed "internal error: unhandled events",
                s',
              )
        ]
  ]

  -- `CreateContainer`, and the requests like it.
  unfoldable pub stub_create :
      Handlers → Pod → Container → Handler S (Option ContainerAdjustment × List ContainerUpdate)
  stub_create h pod c s = elim h.create_container [
    | none ↦ (handled (none, []), s)
    | some f ↦ f pod c s
  ]

  unfoldable pub stub_update :
      Handlers → Pod → Container → Option LinuxResources → Handler S (List ContainerUpdate)
  stub_update h pod c resources s = elim h.update_container [
    | none ↦ (handled [], s)
    | some f ↦ f pod c resources s
  ]

  unfoldable pub stub_stop : Handlers → Pod → Container → Handler S (List ContainerUpdate)
  stub_stop h pod c s = elim h.stop_container [ none ↦ (handled [], s) | some f ↦ f pod c s ]

  unfoldable pub stub_update_pod :
      Handlers → Pod → Option LinuxResources → Option LinuxResources → Handler S (Unit {0})
  stub_update_pod h pod overhead resources s = elim h.update_pod [
    | none ↦ (handled tt, s)
    | some f ↦ f pod overhead resources s
  ]

  -- `ValidateContainerAdjustment`: an error of the handler rejects the adjustment.
  unfoldable pub stub_validate : Handlers → ValidateRequest → S → Verdict × S
  stub_validate h req s = elim h.validate [
    | none ↦ (record { reject = false; reason = "" }, s)
    | some f ↦
        let (answer, s') = f req s in
        elim answer [
          | handled u ↦ (record { reject = false; reason = "" }, s')
          | handler_failed e ↦ (record { reject = true; reason = e }, s')
        ]
  ]

  -- The handler of a state change that `StateChange` selects by the event.

  abbrev pub without_container :
      Option (Pod → Handler S (Unit {0})) → Option (Pod → Container → Handler S (Unit {0}))
  without_container none = none
  without_container (some f) = some (λ pod c. f pod)

  unfoldable pub state_handler : Handlers → ℕ → Option (Pod → Container → Handler S (Unit {0}))
  state_handler h e =
      if nat_beq e run_pod_event
      then without_container h.run_pod
      else if nat_beq e post_update_pod_event
      then without_container h.post_update_pod
      else if nat_beq e stop_pod_event
      then without_container h.stop_pod
      else if nat_beq e remove_pod_event
      then without_container h.remove_pod
      else if nat_beq e post_create_event
      then h.post_create_container
      else if nat_beq e start_event
      then h.start_container
      else if nat_beq e post_start_event
      then h.post_start_container
      else if nat_beq e post_update_event
      then h.post_update_container
      else if nat_beq e remove_event
      then h.remove_container
      else none

  -- `StateChange`
  unfoldable pub stub_state_change : Handlers → ℕ → Pod → Container → Handler S (Unit {0})
  unfolding state_handler
  stub_state_change h e pod c s = elim (state_handler h e) [
    | none ↦ (handled tt, s)
    | some f ↦ f pod c s
  ]
