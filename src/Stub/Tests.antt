-- ===== src/Stub/Tests.antt =====
-- The theorems about the stub at a plugin that creates and counts containers.
use nri.Base.{
  ℕ, suc, ◌+◌, ◌≡◌, refl, String, true, false, Option, none, some, List, [], ◌∷◌, arith,
  if◌then◌else◌, length, leb, min,
}
use nri.Api.Types.{Container, ContainerUpdate}
use nri.Api.Event.{create_event, is_set, bit, set, set_bit, and_not}
use nri.Adaptation.Sync.{
  SyncRequest, SyncError, Round, Scale, synced, ended, continued, sync_round, sync_rounds,
  sync_start, first_of, from_of, request, answered, advance, recalc_objs_per_sync_msg, rescaled,
}
use nri.Adaptation.Sync.Delivery.{whole}
use nri.Stub.Handlers.{handled, Handlers, set_events, events_of, setup_handlers, configure_stub}
use nri.Stub.Subscription.{handles, configure_stub-handles}
use nri.Stub.Synchronize.{
  with_collected, collect_sync, deliver_sync, synchronize, Connected, served, transmitted,
  stub_peer,
}
use nri.Stub.Delivered.{Delivered, fresh, sync_rounds-Delivered}

abbrev update_of : String → ContainerUpdate
update_of id = record { container_id = id; resources = none; ignore_failure = true }

-- Its state is the number of pods that it has seen; it asks for container creations only.
abbrev counting : Handlers ℕ ℕ
counting = record {
  configure = some (λ config runtime version s. (handled (set_bit 0 3), s));
  synchronize = some (λ pods ctrs s. (handled (update_of "c0" ∷ []), s + length pods));
  run_pod = some (λ pod s. (handled tt, suc s));
  update_pod = none;
  stop_pod = none;
  remove_pod = none;
  post_update_pod = none;
  create_container = some (λ pod c s. (handled (none, []), s));
  start_container = none;
  update_container = none;
  stop_container = none;
  remove_container = none;
  post_create_container = none;
  post_start_container = none;
  post_update_container = none;
  validate = none;
}

configure_stub-handles_example : handles ℕ ℕ counting create_event ≡ true
unfolding setup_handlers set_events events_of configure_stub set and_not is_set bit set_bit
configure_stub-handles_example =
    configure_stub-handles ℕ ℕ counting (events_of ℕ ℕ counting) (set_bit 0 3) "" "runtime" "1" 7
      create_event refl refl (omega arith) (omega arith) refl

-- The connection takes messages of up to eight objects.
abbrev eight : SyncRequest ℕ Container → Unit {0} → Option SyncError × Unit {0}
eight req link = (
  if leb (length req.pods + length req.containers) 8
      then none
      else some (record { exhausted = true; oversized = some (8, length req.pods) }),
  link,
)

abbrev plain_error : String → SyncError
plain_error e = record { exhausted = false; oversized = none }

abbrev at_most_eight : Scale
at_most_eight max_len msg_len n = min n 8

abbrev ten : List ℕ
ten = 1 ∷ 2 ∷ 3 ∷ 4 ∷ 5 ∷ 6 ∷ 7 ∷ 8 ∷ 9 ∷ 10 ∷ []

abbrev run : Round (stub_peer counting plain_error eight) at_most_eight
run = sync_rounds (stub_peer counting plain_error eight) at_most_eight 3 (
    sync_start (stub_peer counting plain_error eight) at_most_eight (whole ten) (whole [])
      (fresh counting plain_error eight 7 tt))

abbrev peer_of :
    Round (stub_peer counting plain_error eight) at_most_eight
    → Connected counting plain_error eight
peer_of (ended x p) = p
peer_of (continued s) = s.peer

-- The ten pods go in two messages, after one that is rejected.
run_ends : run ≡ ended (synced (update_of "c0" ∷ [])) (peer_of run)
unfolding sync_rounds sync_round sync_start first_of from_of request answered advance
    recalc_objs_per_sync_msg rescaled with_collected collect_sync deliver_sync synchronize served
    transmitted
run_ends = refl

sync_rounds-Delivered_example :
    Delivered counting.synchronize ten [] 7 (update_of "c0" ∷ []) (peer_of run).stub.plugin
sync_rounds-Delivered_example =
    sync_rounds-Delivered counting plain_error eight (λ e. refl) at_most_eight 3 ten [] 7 tt
      (update_of "c0" ∷ []) (peer_of run) run_ends
