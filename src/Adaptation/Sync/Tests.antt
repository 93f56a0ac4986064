-- ===== src/Adaptation/Sync/Tests.antt =====
-- The theorems about synchronization at a plugin whose connection takes a dozen objects per message.
use nri.Base.{
  ℕ, zero, suc, ◌+◌, ◌*◌, ◌≡◌, refl, Bool, true, false, inr, ◌⊎◌, none, some, List, [], ◌∷◌, ◌++◌,
  arith, if◌then◌else◌, length, leb,
}
use Prim.Native.Nat.{◌/◌}
use nri.Api.Types.{ContainerUpdate}
use nri.Adaptation.Sync.{
  SyncRequest, SyncError, SyncAnswer, replied, failed, SyncPeer, synced, closed, call_failed,
  out_of_range, Scale, Syncing, Round, ended, continued, sync_round, sync_rounds, sync_start,
  first_of, from_of, request, answered, advance, recalc_objs_per_sync_msg, rescaled,
}
use nri.Adaptation.Sync.Delivery.{whole, IsWhole, sync_rounds-IsWhole}
use nri.Adaptation.Sync.Progress.{Shrinks, Ends, Stalls, sync_start-Ends_or_Stalls}
use nri.Adaptation.Sync.Stall.{stalled_at, after, empty_requests, stalled_until_failure}
use nri.Adaptation.Sync.Clamp.{sync_rounds_out_of_range}

abbrev limit : ℕ
limit = 12

-- A factor of a tenth, or of a half.
abbrev quotient : Scale
quotient max_len msg_len n = if leb (10 * max_len) msg_len then n / 10 else n / 2

abbrev Request : Type 0
Request = SyncRequest ℕ ℕ

abbrev load : Request → ℕ
load r = length r.pods + length r.containers

abbrev take_request : Request → List Request → SyncAnswer × List Request
take_request r rs =
    if leb (load r) limit
    then (replied [] r.more, rs ++ r ∷ [])
    else (failed (record { exhausted = true; oversized = some (limit, load r) }), rs)

take_request_replied :
    (r : Request) (rs : List Request) (us : List ContainerUpdate) (more : Bool)
    → (take_request r rs).0 ≡ replied us more
    → (take_request r rs).1 ≡ rs ++ r ∷ []
take_request_replied r rs us more h = ground arith

take_request_failed :
    (r : Request) (rs : List Request) (e : SyncError)
    → (take_request r rs).0 ≡ failed e
    → (take_request r rs).1 ≡ rs
take_request_failed r rs e h = ground arith

abbrev dozen : SyncPeer ℕ ℕ
dozen = record {
  Peer = List Request;
  call = take_request;
  received = λ rs. rs;
  received_replied = take_request_replied;
  received_failed = take_request_failed;
}

abbrev numbers : ℕ → List ℕ
numbers zero = []
numbers (suc n) = n ∷ numbers n

abbrev run : ℕ → ℕ → ℕ → Round dozen quotient
run n pods ctrs =
    sync_rounds dozen quotient n
      (sync_start dozen quotient (whole (numbers pods)) (whole (numbers ctrs)) [])

abbrev peer_of : Round dozen quotient → List Request
peer_of (ended x p) = p
peer_of (continued s) = s.peer

-- Twenty pods and five containers go in three messages.
run_ends : run 8 20 5 ≡ ended (synced []) (peer_of (run 8 20 5))
unfolding sync_rounds sync_round sync_start first_of from_of request answered advance
    recalc_objs_per_sync_msg rescaled
run_ends = refl

sync_rounds-IsWhole_example : IsWhole dozen quotient (numbers 20) (numbers 5) (peer_of (run 8 20 5))
sync_rounds-IsWhole_example =
    sync_rounds-IsWhole dozen quotient (numbers 20) (numbers 5) 8 [] (peer_of (run 8 20 5)) [] refl
      run_ends

quotient-Shrinks : Shrinks quotient
quotient-Shrinks = record {
  zero_stays = λ max_len msg_len. ground arith;
  falls = λ max_len msg_len n less some_left. ground arith;
}

sync_start-Ends_or_Stalls_example :
    Ends quotient quotient-Shrinks dozen 51
      (sync_start dozen quotient (whole (numbers 20)) (whole (numbers 5)) [])
    ⊎ Stalls quotient quotient-Shrinks dozen
        (sync_start dozen quotient (whole (numbers 20)) (whole (numbers 5)) [])
sync_start-Ends_or_Stalls_example =
    sync_start-Ends_or_Stalls quotient quotient-Shrinks dozen (whole (numbers 20))
      (whole (numbers 5)) [] 51 (omega arith)

-- A hundred pods and two containers come to empty messages.
run_stalls :
    run 14 100 2
    ≡ continued (stalled_at dozen quotient (whole []) (whole (numbers 2)) (peer_of (run 14 100 2)))
unfolding sync_rounds sync_round sync_start first_of from_of request answered advance
    recalc_objs_per_sync_msg rescaled
run_stalls = refl

-- The connection to a plugin that answers until it has received four messages.
abbrev until_four : Request → List Request → SyncAnswer × List Request
until_four r rs =
    if leb 4 (length rs)
    then (failed (record { exhausted = false; oversized = none }), rs)
    else (replied [] r.more, rs ++ r ∷ [])

until_four_replied :
    (r : Request) (rs : List Request) (us : List ContainerUpdate) (more : Bool)
    → (until_four r rs).0 ≡ replied us more
    → (until_four r rs).1 ≡ rs ++ r ∷ []
until_four_replied r rs us more h = ground arith

until_four_failed :
    (r : Request) (rs : List Request) (e : SyncError)
    → (until_four r rs).0 ≡ failed e
    → (until_four r rs).1 ≡ rs
until_four_failed r rs e h = ground arith

abbrev tiring : SyncPeer ℕ ℕ
tiring = record {
  Peer = List Request;
  call = until_four;
  received = λ rs. rs;
  received_replied = until_four_replied;
  received_failed = until_four_failed;
}

stalled_until_failure_example :
    let start = stalled_at tiring quotient (whole []) (whole (numbers 2)) [] in
    let four = after tiring quotient 4 [] in
    (sync_rounds tiring quotient 4 start
      ≡ continued (stalled_at tiring quotient (whole []) (whole (numbers 2)) four))
    × (sync_rounds tiring quotient 5 start
        ≡ ended (closed (call_failed (record { exhausted = false; oversized = none }))) four)
    × (four ≡ empty_requests tiring quotient 4)
stalled_until_failure_example =
    stalled_until_failure tiring quotient (whole []) (whole (numbers 2)) (omega arith) 4 []
      (record { exhausted = false; oversized = none }) (refl, (refl, (refl, (refl, tt)))) refl

-- Thirteen pods and no containers: one message, then a panic.
abbrev pods_only : Syncing dozen quotient
pods_only = record {
  pods_to_send = whole (numbers 13);
  ctrs_to_send = whole [];
  pods_per_msg = 13;
  ctrs_per_msg = 0;
  peer = [];
}

sync_rounds_out_of_range_example : sync_rounds dozen quotient 2 pods_only ≡ ended out_of_range []
sync_rounds_out_of_range_example =
    sync_rounds_out_of_range dozen quotient pods_only 12 13 (omega arith) (omega arith) refl
      (omega arith) (omega arith) (omega arith) (omega arith) (inr (omega arith))
