-- ===== src/Adaptation/Registration.antt =====
-- The registration of plugins and the order in which they are listed: `RegisterPlugin`
-- (pkg/adaptation/plugin.go), `sortPlugins`, the end of
-- `startPlugins` and of `acceptPluginConnections`, and `stopPlugins` (pkg/adaptation/adaptation.go).
pub mod Indices
pub mod Keeps
pub mod InOrder
pub mod Accepted
pub mod Order
mod Tests
use mathlib.Core.List.{Perm}
use nri.Base.{
  ℕ, String, code, ◌≡◌, Bool, true, false, not, List, [], ◌∷◌, ◌++◌, All, ltb, nat_beq, Option,
  none, some, ◌==◌, string_eq, if◌then◌else◌,
}
use nri.Api.PluginName.{NameError, check_plugin_index}
use nri.Adaptation.Relay.{PluginApi, Plugin, is_validator}
use nri.Adaptation.Requests.{Runtime, put, remove_closed_plugins}
use nri.Adaptation.Requests.Ordering.{Ordered}

-- `s < t`
unfoldable pub string_ltb : String → String → Bool
string_ltb String.[] String.[] = false
string_ltb String.[] (String.◌∷◌ d t) = true
string_ltb (String.◌∷◌ c s) String.[] = false
string_ltb (String.◌∷◌ c s) (String.◌∷◌ d t) =
    let rest = string_ltb s t in
    if ltb (code c) (code d) then true else if nat_beq (code c) (code d) then rest else false

-- A strict weak order.
pub record IsOrder {A : Type 0} (less : A → A → Bool) : Type 0 where
  pub asymmetric : (x y : A) → less x y ≡ true → less y x ≡ false
  pub transitive : (x y z : A) → less y x ≡ false → less z y ≡ false → less z x ≡ false

-- What the code relies on of `sort.Slice`: of a strict weak order, it puts the elements in an order in
-- which none is less than one before it. Nothing is said of elements of which neither is less.
pub record SortSlice : Type 0 where
  pub sort : (ℕ → ℕ → Bool) → List ℕ → List ℕ
  pub same_elements : (less : ℕ → ℕ → Bool) (xs : List ℕ) → Perm (sort less xs) xs
  pub in_order :
      (less : ℕ → ℕ → Bool) (xs : List ℕ)
      → IsOrder less
      → Ordered (λ x y. less y x ≡ false) (sort less xs)

-- What is sent to the one that waits for a plugin to register.
pub data Registered : Type 0 where
  registered empty_name : Registered
  bad_index : NameError → Registered

module _ (api : PluginApi) (slices : SortSlice) where
  abbrev pub index_less : Runtime api → ℕ → ℕ → Bool
  index_less rt g h = string_ltb (rt.store g).idx (rt.store h).idx

  unfoldable pub sort_plugins : Runtime api → Runtime api
  unfolding remove_closed_plugins string_ltb
  sort_plugins rt =
      let alive = remove_closed_plugins api rt in
      record alive {
        plugins = slices.sort (index_less alive) alive.plugins;
        validators = slices.sort (index_less alive) alive.validators;
      }

  -- `RegisterPlugin`, the call that a plugin makes over its connection: an external one gives its name
  -- and its index, another one has them already.
  unfoldable pub register_plugin : Bool → String → String → Plugin api → Registered × Plugin api
  unfolding check_plugin_index
  register_plugin is_external plugin_name plugin_idx p =
      if not is_external
      then (registered, p)
      else if plugin_name == ""
      then (empty_name, p)
      else elim (check_plugin_index plugin_idx) [
        | some e ↦ (bad_index e, p)
        | none ↦ (registered, record p { base = plugin_name; idx = plugin_idx })
      ]

  -- A plugin has connected, at an address of its own, and has been started; it is registered if the
  -- runtime could synchronize it.
  unfoldable pub accept_plugin : ℕ → Plugin api → Bool → Runtime api → Runtime api
  unfolding sort_plugins
  accept_plugin h p synchronized rt =
      let connected = record rt { store = put api h p rt.store } in
      let listed = sort_plugins (record connected {
        plugins = rt.plugins ++ h ∷ [];
        validators = if is_validator api p then rt.validators ++ h ∷ [] else rt.validators;
      }) in
      if not synchronized then connected else listed

  -- `syncPlugins` of `startPlugins`: of the plugins that were started, those that are synchronized too.
  unfoldable pub sync_plugins : List (ℕ × Bool) → List ℕ
  sync_plugins [] = []
  sync_plugins ((h, synchronized) ∷ rest) =
      let others = sync_plugins rest in if synchronized then h ∷ others else others

  -- `startPlugins`, with the builtin and the launched plugins that could be started, in the new store; the
  -- runtime's call for the synchronization may fail, and then none is kept.
  unfoldable pub start_plugins :
      (ℕ → Plugin api) → List (ℕ × Bool) → Bool → Runtime api → Runtime api
  unfolding sort_plugins sync_plugins
  start_plugins store started synchronized rt =
      let launched = sort_plugins (record rt { store = store; plugins = sync_plugins started }) in
      if not synchronized then rt else launched

  -- The plugins are stopped with the adaptation.
  unfoldable pub stop_plugins : Runtime api → Runtime api
  stop_plugins rt = record rt { plugins = [] }
