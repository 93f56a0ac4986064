-- ===== src/Adaptation/Requests.antt =====
-- The requests that the runtime makes of the adaptation (pkg/adaptation/adaptation.go), relayed to its
-- plugins.
pub mod Replies
pub mod Collecting
pub mod Ordering
use nri.Base.{
  map, ℕ, zero, suc, String, Bool, true, false, not, ◌&&◌, Option, none, some, List, [], ◌∷◌, keep,
  nat_beq, if◌then◌else◌, ◌++◌,
}
use Prim.Native.String.{◌++◌ as join}
use nri.Base.Exec.{Error, Outcome, ok, err}
use nri.Api.Types.{Container, ContainerUpdate, LinuxResources, ContainerAdjustment}
use nri.Adaptation.State.{Adjustment, CollectedContainer}
use nri.Adaptation.Adjust.{Ranges}
use nri.Adaptation.Update.{
  UpdateRequest, Result, Response, no_response, create_response, update_response, stop_response,
  apply, collect_create_container_result, collect_update_container_result,
  create_container_response, update_container_response, stop_container_response, CollectedUpdate,
}
use nri.Api.Event.{unknown_event, create_event, update_event, stop_event, update_pod_event}
use nri.Adaptation.Relay.{
  relay_update_pod, relay_state_change, ValidateRequest, CallError, PluginApi, Relayed, relayed,
  relay_failed, Plugin, is_validator, relay, validate_with, Validation, accepts, rejects,
  validator_failed,
}

-- How the loop over the plugins ends: after the last, at an error of a call, or at an answer that is
-- refused.
pub data LoopEnd : Type 0 where
  finished : LoopEnd
  failed_call : CallError → LoopEnd
  refused : Error → LoopEnd

-- The returns within the loop: an error of the call, or an answer that is refused.
abbrev pub branch_on :
    {A B : Type 0} → Relayed A → Outcome (Unit {0}) → B → (CallError → B) → (Error → B) → B
branch_on (relay_failed x) applied more failed bad = failed x
branch_on (relayed a) (ok _) more failed bad = more
branch_on (relayed a) (err e) more failed bad = bad e

module _ (api : PluginApi) where
  -- `plugins` and `validators` are pointers to plugins, here addresses in `store`.
  pub record Runtime : Type 0 where
    pub store : ℕ → Plugin api
    pub plugins : List ℕ
    pub validators : List ℕ

  abbrev pub put : ℕ → Plugin api → (ℕ → Plugin api) → ℕ → Plugin api
  put h p store j = if nat_beq j h then p else store j

  -- `plugin.name`
  abbrev pub name : Plugin api → String
  name p = join p.idx (join "-" p.base)

  unfoldable pub remove_closed_plugins : Runtime → Runtime
  unfolding keep
  remove_closed_plugins rt =
      let active = keep (λ h. not (rt.store h).closed) rt.plugins in
      record rt { plugins = active; validators = keep (λ h. is_validator api (rt.store h)) active }

  abbrev pub response_of : Relayed Response → Response
  response_of (relayed (some response)) = response
  response_of _ = no_response

  -- The loop that `CreateContainer`, `UpdateContainer` and `StopContainer` share; `ask` relays what the
  -- request has become to a plugin.
  unfoldable pub collect_loop :
      (Result → Plugin api → Relayed Response × Plugin api)
      → Ranges
      → List ℕ
      → Result
      → (ℕ → Plugin api)
      → LoopEnd × Result × (ℕ → Plugin api)
  unfolding apply
  collect_loop ask ranges [] r store = (finished, r, store)
  collect_loop ask ranges (h ∷ hs) r store =
      let (answer, p) = ask r (store h) in
      let store' = put h p store in
      let (applied, r') = apply ranges (response_of answer) (name p) r in
      let more = collect_loop ask ranges hs r' store' in
      branch_on answer applied more (λ x. (failed_call x, r, store')) (λ e. (refused e, r', store'))

  abbrev pub as_response :
      {A : Type 0} → (A → Response) → Relayed A × Plugin api → Relayed Response × Plugin api
  as_response f (relayed none, p) = (relayed none, p)
  as_response f (relayed (some a), p) = (relayed (some (f a)), p)
  as_response f (relay_failed x, p) = (relay_failed x, p)

  unfoldable pub create_with :
      Option (CollectedContainer × Adjustment) → Plugin api → Relayed Response × Plugin api
  unfolding relay
  create_with none p = (relayed none, p)
  create_with (some (c, a)) p =
      as_response (λ (adjust, updates). create_response adjust updates)
        (relay api create_event (api.create_container c) p)

  unfoldable pub update_with : Option UpdateRequest → Plugin api → Relayed Response × Plugin api
  unfolding relay
  update_with none p = (relayed none, p)
  update_with (some q) p =
      as_response update_response (relay api update_event (api.update_container q) p)

  -- `createContainer` and `updateContainer` of a plugin, for the request as the plugins before have
  -- changed it.
  unfoldable pub ask_create : Result → Plugin api → Relayed Response × Plugin api
  unfolding create_with
  ask_create r p = create_with r.create p

  unfoldable pub ask_update : Result → Plugin api → Relayed Response × Plugin api
  unfolding update_with
  ask_update r p = update_with r.update p

  unfoldable pub ask_stop : Result → Plugin api → Relayed Response × Plugin api
  unfolding relay
  ask_stop r p = as_response stop_response (relay api stop_event api.stop_container p)

  -- The loop that `StateChange` and `UpdatePodSandbox` share.
  unfoldable pub notify_loop :
      (Plugin api → Relayed (Unit {0}) × Plugin api)
      → List ℕ
      → (ℕ → Plugin api)
      → LoopEnd × (ℕ → Plugin api)
  notify_loop tell [] store = (finished, store)
  notify_loop tell (h ∷ hs) store =
      let (answer, p) = tell (store h) in
      let store' = put h p store in
      let more = notify_loop tell hs store' in
      elim answer [ relay_failed x ↦ (failed_call x, store') | relayed _ ↦ more ]

  abbrev in_favour : Validation → Bool
  in_favour accepts = true
  in_favour _ = false

  -- The validators of `validateContainerAdjustment`, in the order in which they answer. All are
  -- asked, and the first that is not in favour decides.
  unfoldable pub validate_loop :
      ValidateRequest → List ℕ → (ℕ → Plugin api) → Validation × (ℕ → Plugin api)
  unfolding validate_with
  validate_loop req [] store = (accepts, store)
  validate_loop req (h ∷ hs) store =
      let (verdict, p) = validate_with api (api.validate_adjustment req) (store h) in
      let (others, store') = validate_loop req hs (put h p store) in
      (if in_favour verdict then others else verdict, store')

  -- How a request ends for the runtime.
  pub data RequestEnd (A : Type 0) : Type 0 where
    replied : A → RequestEnd A
    not_called : CallError → RequestEnd A
    not_applied : Error → RequestEnd A
    not_valid : Validation → RequestEnd A
    not_an_event : RequestEnd A

  -- The deferred `removeClosedPlugins` of every request.
  unfoldable pub after_request : (ℕ → Plugin api) → Runtime → Runtime
  unfolding remove_closed_plugins
  after_request store rt = remove_closed_plugins (record rt { store = store })

  abbrev pub Created : Type 0
  Created = Option Adjustment × List (Option CollectedUpdate)

  -- The request for the validators: the container as the runtime asked for it, the plugins, and the result.
  unfoldable pub validate_request : Container → Runtime → Result → ValidateRequest
  unfolding create_container_response
  validate_request c rt r = record {
    container = c;
    plugins = map (λ h. ((rt.store h).base, (rt.store h).idx)) rt.plugins;
    adjust = (create_container_response r).0;
    update = (create_container_response r).1;
    owners = r.owners;
  }

  -- `validateContainerAdjustment`
  unfoldable pub validate_container_adjustment :
      Container → Result → (ℕ → Plugin api) → Runtime → RequestEnd Created × (ℕ → Plugin api)
  unfolding validate_loop validate_request
  validate_container_adjustment c r store rt =
      let response = create_container_response r in
      let (verdict, store') = validate_loop (validate_request c rt r) rt.validators store in
      elim rt.validators [
        | [] ↦ (replied response, store)
        | h ∷ hs ↦ (if in_favour verdict then replied response else not_valid verdict, store')
      ]

  -- What is returned once the loop has ended, after the validation if it is after the last plugin.
  unfoldable pub created :
      LoopEnd
      → Container
      → Result
      → (ℕ → Plugin api)
      → Runtime
      → RequestEnd Created × (ℕ → Plugin api)
  unfolding validate_container_adjustment
  created (failed_call x) c r store rt = (not_called x, store)
  created (refused e) c r store rt = (not_applied e, store)
  created finished c r store rt = validate_container_adjustment c r store rt

  unfoldable pub create_container : Ranges → Container → Runtime → RequestEnd Created × Runtime
  unfolding collect_loop ask_create created after_request
  create_container ranges c rt =
      let (end, r, store) =
        collect_loop ask_create ranges rt.plugins (collect_create_container_result c) rt.store in
      let (answer, store') = created end c r store rt in (answer, after_request store' rt)

  unfoldable pub update_container :
      Ranges
      → String × Option LinuxResources
      → Runtime
      → RequestEnd (List (Option CollectedUpdate)) × Runtime
  unfolding collect_loop ask_update after_request update_container_response
  update_container ranges request rt =
      let (end, r, store) =
        collect_loop ask_update ranges rt.plugins (collect_update_container_result (some request))
          rt.store in
      (
        elim end [
          | failed_call x ↦ not_called x
          | refused e ↦ not_applied e
          | finished ↦ elim (update_container_response r) [
            | ok updates ↦ replied updates
            | err e ↦ not_applied e
          ]
        ],
        after_request store rt,
      )

  unfoldable pub stop_container :
      Ranges → Runtime → RequestEnd (List (Option CollectedUpdate)) × Runtime
  unfolding collect_loop ask_stop after_request stop_container_response
  stop_container ranges rt =
      let (end, r, store) =
        collect_loop ask_stop ranges rt.plugins (collect_update_container_result none) rt.store in
      (
        elim end [
          | failed_call x ↦ not_called x
          | refused e ↦ not_applied e
          | finished ↦ replied (stop_container_response r)
        ],
        after_request store rt,
      )

  abbrev notified : LoopEnd → RequestEnd (Unit {0})
  notified finished = replied tt
  notified (failed_call x) = not_called x
  notified (refused e) = not_applied e

  unfoldable pub update_pod_sandbox : Runtime → RequestEnd (Unit {0}) × Runtime
  unfolding notify_loop relay_update_pod after_request
  update_pod_sandbox rt =
      let (end, store) = notify_loop (relay_update_pod api) rt.plugins rt.store in
      (notified end, after_request store rt)

  unfoldable pub state_change : ℕ → Runtime → RequestEnd (Unit {0}) × Runtime
  unfolding notify_loop relay_state_change after_request
  state_change e rt =
      let (end, store) = notify_loop (relay_state_change api e) rt.plugins rt.store in
      if nat_beq e unknown_event then (not_an_event, rt) else (notified end, after_request store rt)
