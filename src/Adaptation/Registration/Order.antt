-- ===== src/Adaptation/Registration/Order.antt =====
-- The lists of plugins and of validators are in the order of the plugins' indices, whatever requests and
-- registrations there have been (pkg/adaptation/adaptation.go, pkg/adaptation/plugin.go).
use nri.Base.{
  true, false, List, ℕ, ◌≡◌, ◌≢◌, ◌∙◌, String, Bool, Bool-cases, inl, inr, Option, none, some, [],
  All, nat_beq, arith,
}
use nri.Api.Types.{Container, LinuxResources}
use nri.Api.Event.{unknown_event, update_pod_event}
use nri.Adaptation.Adjust.{Ranges}
use nri.Adaptation.Relay.{PluginApi, Plugin, relay_update_pod, relay_state_change}
use nri.Adaptation.Update.{collect_create_container_result, collect_update_container_result}
use nri.Adaptation.Requests.{
  Runtime, put, create_container, update_container, stop_container, update_pod_sandbox,
  state_change, collect_loop, ask_create, ask_update, ask_stop, created,
}
use nri.Adaptation.Registration.{
  SortSlice, register_plugin, accept_plugin, sync_plugins, start_plugins, stop_plugins,
}
use nri.Adaptation.Registration.Keeps.{
  put-SameIndices, created-SameIndices, collect_loop-SameIndices, notify_loop-SameIndices,
  ask_create_idx, ask_update_idx, ask_stop_idx, relay_idx,
}
use nri.Adaptation.Registration.InOrder.{
  IsInOrder, sort_plugins-IsInOrder, after_request-IsInOrder, accept_plugin-IsInOrder,
  same-IsInOrder, unlisted-IsInOrder,
}

module _ (api : PluginApi) (slices : SortSlice) where
  -- The runtime with a plugin that has called `RegisterPlugin`.
  abbrev pub register_at : ℕ → Bool → String → String → Runtime api → Runtime api
  register_at h is_external plugin_name plugin_idx rt = record rt {
    store =
        put api h (register_plugin api slices is_external plugin_name plugin_idx (rt.store h)).1
          rt.store;
  }

  registered_idx :
      (is_external : Bool) (plugin_name plugin_idx : String) (p : Plugin api)
      → plugin_idx ≡ p.idx
      → (register_plugin api slices is_external plugin_name plugin_idx p).1.idx ≡ p.idx
  unfolding register_plugin
  registered_idx is_external plugin_name plugin_idx p same = ground arith

  -- What may happen to the adaptation: the requests of the runtime, however they end, the start with
  -- the pre-installed plugins, the registration of a plugin and its acceptance, and the end. Left out
  -- is that a plugin in the lists registers again with another index.
  pub data Step (before : Runtime api) : Runtime api → Type 0 where
    creating :
        (ranges : Ranges) (c : Container) → Step before (create_container api ranges c before).1
    updating :
        (ranges : Ranges) (q : String × Option LinuxResources)
        → Step before (update_container api ranges q before).1
    stopping : (ranges : Ranges) → Step before (stop_container api ranges before).1
    updating_pod : Step before (update_pod_sandbox api before).1
    changing : (e : ℕ) → Step before (state_change api e before).1
    accepting :
        (h : ℕ) (p : Plugin api) (synchronized : Bool)
        → All (λ g. g ≢ h) before.plugins
        → All (λ g. g ≢ h) before.validators
        → Step before (accept_plugin api slices h p synchronized before)
    -- A plugin registers that is in neither list: it is being started.
    registering :
        (h : ℕ) (is_external : Bool) (plugin_name plugin_idx : String)
        → All (λ g. g ≢ h) before.plugins
        → All (λ g. g ≢ h) before.validators
        → Step before (register_at h is_external plugin_name plugin_idx before)
    -- A plugin registers again with the index that it has.
    registering_again :
        (h : ℕ) (is_external : Bool) (plugin_name plugin_idx : String)
        → plugin_idx ≡ (before.store h).idx
        → Step before (register_at h is_external plugin_name plugin_idx before)
    launching :
        (store : ℕ → Plugin api) (started : List (ℕ × Bool)) (synchronized : Bool)
        → Step before (start_plugins api slices store started synchronized before)
    ending : Step before (stop_plugins api slices before)

  -- From a runtime without plugins.
  pub data Reachable : Runtime api → Type 0 where
    starting :
        (store : ℕ → Plugin api)
        → Reachable (record { store = store; plugins = []; validators = [] })
    stepping : {before after : Runtime api} → Reachable before → Step before after → Reachable after

  create_container-IsInOrder :
      (ranges : Ranges) (c : Container) (rt : Runtime api)
      → IsInOrder api slices rt
      → IsInOrder api slices (create_container api ranges c rt).1
  unfolding create_container
  create_container-IsInOrder ranges c rt o =
      let (end, r, store) =
        collect_loop api (ask_create api) ranges rt.plugins (collect_create_container_result c)
          rt.store in
      after_request-IsInOrder api slices (created api end c r store rt).1 rt
        (λ j.
          created-SameIndices api end c r store rt j
          ∙ collect_loop-SameIndices api (ask_create api) (ask_create_idx api) ranges rt.plugins
              (collect_create_container_result c) rt.store j)
        o

  update_container-IsInOrder :
      (ranges : Ranges) (q : String × Option LinuxResources) (rt : Runtime api)
      → IsInOrder api slices rt
      → IsInOrder api slices (update_container api ranges q rt).1
  unfolding update_container
  update_container-IsInOrder ranges q rt o =
      after_request-IsInOrder api slices _ rt
        (collect_loop-SameIndices api (ask_update api) (ask_update_idx api) ranges rt.plugins
          (collect_update_container_result (some q)) rt.store)
        o

  stop_container-IsInOrder :
      (ranges : Ranges) (rt : Runtime api)
      → IsInOrder api slices rt
      → IsInOrder api slices (stop_container api ranges rt).1
  unfolding stop_container
  stop_container-IsInOrder ranges rt o =
      after_request-IsInOrder api slices _ rt
        (collect_loop-SameIndices api (ask_stop api) (ask_stop_idx api) ranges rt.plugins
          (collect_update_container_result none) rt.store)
        o

  notified-IsInOrder :
      (e : ℕ) (rt : Runtime api)
      → IsInOrder api slices rt
      → IsInOrder api slices (update_pod_sandbox api rt).1
        × IsInOrder api slices (state_change api e rt).1
  unfolding update_pod_sandbox state_change relay_update_pod relay_state_change
  notified-IsInOrder e rt o = (
    after_request-IsInOrder api slices _ rt
        (notify_loop-SameIndices api (relay_update_pod api)
          (relay_idx api update_pod_event api.update_pod_sandbox) rt.plugins rt.store)
        o,
    elim (Bool-cases (nat_beq e unknown_event)) [
      | inl unknown ↦ rw (unknown, state_change) o
      | inr known ↦
          rw (known, state_change)
            (after_request-IsInOrder api slices _ rt
              (notify_loop-SameIndices api (relay_state_change api e)
                (relay_idx api e (api.state_change e)) rt.plugins rt.store)
              o)
    ],
  )

  Step-IsInOrder :
      {before after : Runtime api}
      → Step before after
      → IsInOrder api slices before
      → IsInOrder api slices after
  unfolding stop_plugins start_plugins
  Step-IsInOrder (creating ranges c) o = create_container-IsInOrder ranges c _ o
  Step-IsInOrder (updating ranges q) o = update_container-IsInOrder ranges q _ o
  Step-IsInOrder (stopping ranges) o = stop_container-IsInOrder ranges _ o
  Step-IsInOrder updating_pod o = (notified-IsInOrder 0 _ o).0
  Step-IsInOrder (changing e) o = (notified-IsInOrder e _ o).1
  Step-IsInOrder (accepting h p synchronized free unused) o =
      accept_plugin-IsInOrder api slices h p synchronized _ free unused o
  Step-IsInOrder (registering h is_external plugin_name plugin_idx free unused) o =
      unlisted-IsInOrder api slices h _ _ free unused o
  Step-IsInOrder {before} (registering_again h is_external plugin_name plugin_idx same) o =
      same-IsInOrder api slices _ before
        (put-SameIndices api h _ before.store
          (registered_idx is_external plugin_name plugin_idx (before.store h) same))
        o
  Step-IsInOrder {before} (launching store started true) o =
      sort_plugins-IsInOrder api slices
        (record before { store = store; plugins = sync_plugins api slices started })
  Step-IsInOrder (launching store started false) o = o
  Step-IsInOrder ending o = record { plugins = tt; validators = o.validators }

  -- Whatever the runtime requests and plugins answer, and whichever plugins are started, register
  -- and are accepted, at addresses of their own, the list of the plugins is in the order of their
  -- indices, and so is the list of the validators, as long as no plugin in the lists registers again
  -- with another index.
  pub Reachable-IsInOrder : (rt : Runtime api) → Reachable rt → IsInOrder api slices rt
  Reachable-IsInOrder _ (starting store) = record { plugins = tt; validators = tt }
  Reachable-IsInOrder rt (stepping run step) = Step-IsInOrder step (Reachable-IsInOrder _ run)
