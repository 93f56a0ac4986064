-- ===== src/Adaptation/Relay.antt =====
-- A request of the runtime is relayed to a plugin (pkg/adaptation/plugin.go), if the plugin's event mask
-- (pkg/api/event.go) has it.
use nri.Base.{
  ℕ, ◌≡◌, ◌⊎◌, inl, inr, refl, String, Bool, true, false, not, Option, none, some, List, ◌==◌,
  string_eq, if◌then◌else◌,
}
use nri.Api.Event.{update_pod_event, validate_event, is_set}
use nri.Api.Types.{Container, ContainerAdjustment, ContainerUpdate}
use nri.Api.Owners.{OwningPlugins}
use nri.Adaptation.State.{CollectedContainer, Adjustment}
use nri.Adaptation.Update.{UpdateRequest, CollectedUpdate}

-- The errors that `isFatalError` knows, and the others.
pub data CallError : Type 0 where
  ttrpc_closed server_closed protocol_error deadline_exceeded : CallError
  other_error : String → CallError

unfoldable pub is_fatal_error : CallError → Bool
is_fatal_error (other_error e) = false
is_fatal_error _ = true

-- What the call of a plugin returns.
pub data Call (A : Type 0) : Type 0 where
  answered : A → Call A
  call_failed : CallError → Call A

-- `ValidateContainerAdjustmentResponse`
pub record Verdict : Type 0 where
  pub reject : Bool
  pub reason : String

-- `ValidateContainerAdjustmentRequest`; `plugins` has the name and the index of each.
pub record ValidateRequest : Type 0 where
  pub container : Container
  pub plugins : List (String × String)
  pub adjust : Option Adjustment
  pub update : List (Option CollectedUpdate)
  pub owners : OwningPlugins

-- The plugins behind their connections: what each call on one returns. `hang_up` closes it.
pub record PluginApi : Type 1 where
  pub Conn : Type 0
  pub create_container :
      CollectedContainer → Conn → Call (Option ContainerAdjustment × List ContainerUpdate) × Conn
  pub update_container : UpdateRequest → Conn → Call (List ContainerUpdate) × Conn
  pub stop_container : Conn → Call (List ContainerUpdate) × Conn
  pub update_pod_sandbox : Conn → Call (Unit {0}) × Conn
  pub state_change : ℕ → Conn → Call (Unit {0}) × Conn
  pub validate_adjustment : ValidateRequest → Conn → Call Verdict × Conn
  pub hang_up : Conn → Conn

-- What a relay returns: the plugin's answer, nil where there is none, or an error.
pub data Relayed (A : Type 0) : Type 0 where
  relayed : Option A → Relayed A
  relay_failed : CallError → Relayed A

pub Relayed-cases :
    {A : Type 0} (r : Relayed A)
    → ((o : Option A) × (r ≡ relayed o)) ⊎ ((x : CallError) × (r ≡ relay_failed x))
Relayed-cases (relayed o) = inl (o, refl)
Relayed-cases (relay_failed x) = inr (x, refl)

-- How a validator's call ends: in favour, with its reason to reject, or with an error.
pub data Validation : Type 0 where
  accepts : Validation
  rejects : String → Validation
  validator_failed : CallError → Validation

-- `ValidationResult` (pkg/api/validate.go)
unfoldable pub validation_result : Verdict → Validation
validation_result v =
    if not v.reject
    then accepts
    else rejects (if v.reason == "" then "unknown rejection reason" else v.reason)

module _ (api : PluginApi) where
  open api use {Conn}

  -- `is_local` is for a builtin plugin or one in WASM.
  pub record Plugin : Type 0 where
    pub idx : String
    pub base : String
    pub events : ℕ
    pub is_local : Bool
    pub closed : Bool
    pub conn : Conn

  abbrev pub is_validator : Plugin → Bool
  unfolding is_set
  is_validator p = is_set p.events validate_event

  unfoldable pub close : Plugin → Plugin
  close p =
      if p.is_local
      then record p { closed = true }
      else if p.closed
      then p
      else record p { closed = true; conn = api.hang_up p.conn }

  -- The body that `createContainer`, `updateContainer`, `stopContainer`, `updatePodSandbox` and
  -- `StateChange` of a plugin share, for their events and calls.
  unfoldable pub relay : {A : Type 0} → ℕ → (Conn → Call A × Conn) → Plugin → Relayed A × Plugin
  unfolding is_set close
  relay e call p =
      if not (is_set p.events e)
      then (relayed none, p)
      else let (result, conn) = call p.conn in
        let p' = record p { conn = conn } in
        elim result [
          | answered a ↦ (relayed (some a), p')
          | call_failed x ↦
              if is_fatal_error x then (relayed none, close p') else (relay_failed x, p')
        ]

  -- `updatePodSandbox` and `StateChange` of a plugin
  unfoldable pub relay_update_pod : Plugin → Relayed (Unit {0}) × Plugin
  unfolding relay
  relay_update_pod p = relay update_pod_event api.update_pod_sandbox p

  unfoldable pub relay_state_change : ℕ → Plugin → Relayed (Unit {0}) × Plugin
  unfolding relay
  relay_state_change e p = relay e (api.state_change e) p

  -- `plugin.ValidateContainerAdjustment`: here a fatal error is returned, too.
  unfoldable pub validate_with : (Conn → Call Verdict × Conn) → Plugin → Validation × Plugin
  unfolding is_set close validation_result
  validate_with call p =
      if not (is_set p.events validate_event)
      then (accepts, p)
      else let (result, conn) = call p.conn in
        let p' = record p { conn = conn } in
        elim result [
          | answered verdict ↦ (validation_result verdict, p')
          | call_failed x ↦ (validator_failed x, if is_fatal_error x then close p' else p')
        ]
