-- ===== src/Adaptation/Tests/Requests.antt =====
-- The theorems about requests at a runtime with three plugins.
use nri.Base.{
  String, ℕ, ◌≡◌, ◌≢◌, refl, false, none, [], ◌∷◌, string_eq, nat_eq, arith, nat_beq, if◌then◌else◌,
  keep,
}
use nri.Adaptation.Adjust.{Ranges}
use nri.Adaptation.Update.{collect_create_container_result}
use nri.Adaptation.Relay.{
  is_fatal_error, Call, answered, call_failed, server_closed, PluginApi, Plugin,
}
use nri.Adaptation.Requests.{
  Runtime, collect_loop, ask_create, ask_update, ask_stop, state_change, replied,
}
use nri.Adaptation.Requests.Replies.{create_reply, update_reply, stop_reply}
use nri.Adaptation.Requests.Collecting.{Collected, collect_loops-Collected}
use nri.Adaptation.Requests.Ordering.{Ordered}
use nri.Adaptation.Tests.{box}

-- A plugin is up, 0, or its server is gone.
abbrev from_server : {A : Type 0} → A → ℕ → Call A × ℕ
from_server a n = (if nat_beq n 0 then answered a else call_failed server_closed, n)

abbrev three_api : PluginApi
three_api = record {
  Conn = ℕ;
  create_container = λ c. from_server (none, []);
  update_container = λ q. from_server [];
  stop_container = from_server [];
  update_pod_sandbox = from_server tt;
  state_change = λ e. from_server tt;
  validate_adjustment = λ req. from_server (record { reject = false; reason = "" });
  hang_up = λ n. n;
}

abbrev a_plugin : String → ℕ → Plugin three_api
a_plugin idx n = record {
  idx = idx;
  base = "plugin";
  events = 8191;
  is_local = false;
  closed = false;
  conn = n;
}

-- The plugins 0, 1 and 2; the server of 1 is gone.
abbrev three : Runtime three_api
three = record {
  store = λ h. if nat_beq h 1 then a_plugin "20" 1 else a_plugin "10" 0;
  plugins = 0 ∷ 1 ∷ 2 ∷ [];
  validators = [];
}

abbrev plain_ranges : Ranges
plain_ranges = record { mounts = λ m. m; namespaces = λ m. [] }

-- The plugin whose server is gone is removed, and the request succeeds.
run-state_change : (state_change three_api 1 three).1.plugins ≡ 0 ∷ 2 ∷ []
unfolding state_change keep is_fatal_error
run-state_change = refl

run-state_change_end : (state_change three_api 1 three).0 ≡ replied tt
unfolding state_change keep is_fatal_error
run-state_change_end = refl

three_distinct : Ordered (λ h j. h ≢ j) (0 ∷ 1 ∷ 2 ∷ [])
three_distinct = ((ground arith, (ground arith, tt)), ((ground arith, tt), (tt, tt)))

collect_loops-Collected_example :
    Collected three_api
      (create_reply three_api)
      plain_ranges
      three.store
      (0 ∷ 1 ∷ 2 ∷ [])
      (collect_create_container_result box)
      (collect_loop three_api
        (ask_create three_api)
        plain_ranges
        (0 ∷ 1 ∷ 2 ∷ [])
        (collect_create_container_result box)
        three.store)
    × Collected three_api
        (update_reply three_api)
        plain_ranges
        three.store
        (0 ∷ 1 ∷ 2 ∷ [])
        (collect_create_container_result box)
        (collect_loop three_api
          (ask_update three_api)
          plain_ranges
          (0 ∷ 1 ∷ 2 ∷ [])
          (collect_create_container_result box)
          three.store)
    × Collected three_api
        (stop_reply three_api)
        plain_ranges
        three.store
        (0 ∷ 1 ∷ 2 ∷ [])
        (collect_create_container_result box)
        (collect_loop three_api
          (ask_stop three_api)
          plain_ranges
          (0 ∷ 1 ∷ 2 ∷ [])
          (collect_create_container_result box)
          three.store)
collect_loops-Collected_example =
    collect_loops-Collected three_api plain_ranges (0 ∷ 1 ∷ 2 ∷ [])
      (collect_create_container_result box) three.store three_distinct
