-- ===== src/Stub/Synchronize.antt =====
-- `Synchronize`, `collectSync` and `deliverSync` (pkg/stub/stub.go), and the stub as the peer that the
-- adaptation synchronizes.
use nri.Base.{
  ◌≡◌, refl, String, Bool, false, Option, none, some, List, [], ◌∷◌, ◌++◌, if◌then◌else◌,
}
use nri.Api.Types.{Container, ContainerUpdate}
use nri.Adaptation.Sync.{SyncRequest, SyncError, SyncAnswer, replied, failed, SyncPeer}
use nri.Stub.Handlers.{Handled, handled, handler_failed, Handlers}

-- The part of the stub that `Synchronize` works on: the requests collected so far, if any, and the
-- state of the plugin.
pub record SyncStub (S Pod : Type 0) : Type 0 where
  pub plugin : S
  pub sync_req : Option (SyncRequest Pod Container)

-- `sync_error` is the status that a handler's error becomes in the answer to the call.
module _ {S Pod : Type 0} (h : Handlers S Pod) (sync_error : String → SyncError) where
  -- The request with what was collected before it.
  unfoldable pub with_collected :
      Option (SyncRequest Pod Container) → SyncRequest Pod Container → SyncRequest Pod Container
  with_collected none req = req
  with_collected (some earlier) req = record earlier {
    pods = earlier.pods ++ req.pods;
    containers = earlier.containers ++ req.containers;
  }

  unfoldable pub collect_sync :
      SyncRequest Pod Container → SyncStub S Pod → SyncAnswer × SyncStub S Pod
  unfolding with_collected
  collect_sync req s =
      (replied [] req.more, record s { sync_req = some (with_collected s.sync_req req) })

  -- The response to the handler's answer.
  abbrev pub sync_answer : Handled (List ContainerUpdate) → SyncAnswer
  sync_answer (handled us) = replied us false
  sync_answer (handler_failed e) = failed (sync_error e)

  unfoldable pub deliver_sync :
      (List Pod → List Container → S → Handled (List ContainerUpdate) × S)
      → SyncRequest Pod Container
      → SyncStub S Pod
      → SyncAnswer × SyncStub S Pod
  unfolding with_collected
  deliver_sync handler req s =
      let whole = with_collected s.sync_req req in
      let (answer, plugin) = handler whole.pods whole.containers s.plugin in
      (sync_answer answer, record { plugin = plugin; sync_req = none })

  unfoldable pub synchronize :
      SyncRequest Pod Container → SyncStub S Pod → SyncAnswer × SyncStub S Pod
  unfolding collect_sync deliver_sync
  synchronize req s = elim h.synchronize [
    | none ↦ (replied [] req.more, s)
    | some handler ↦ if req.more then collect_sync req s else deliver_sync handler req s
  ]

  -- `N` is the state of the connection, and `transmit` whether it rejects a request, and with which
  -- error.
  module _ {N : Type 0} (transmit : SyncRequest Pod Container → N → Option SyncError × N) where
    -- The stub behind its connection, with the requests that it has answered.
    pub record Connected : Type 0 where
      pub stub : SyncStub S Pod
      pub link : N
      pub answered : List (SyncRequest Pod Container)

    abbrev pub log_answer :
        SyncAnswer
        → SyncRequest Pod Container
        → List (SyncRequest Pod Container)
        → List (SyncRequest Pod Container)
    log_answer (replied us more) req log = log ++ req ∷ []
    log_answer (failed e) req log = log

    unfoldable pub served :
        SyncRequest Pod Container
        → Connected
        → N
        → SyncAnswer × SyncStub S Pod
        → SyncAnswer × Connected
    served req p link (answer, stub) =
        (answer, record { stub = stub; link = link; answered = log_answer answer req p.answered })

    unfoldable pub transmitted :
        SyncRequest Pod Container → Connected → Option SyncError × N → SyncAnswer × Connected
    unfolding served
    transmitted req p (some e, link) = (failed e, record p { link = link })
    transmitted req p (none, link) = served req p link (synchronize req p.stub)

    served-replied :
        (req : SyncRequest Pod Container) (p : Connected) (link : N)
        (result : SyncAnswer × SyncStub S Pod) (us : List ContainerUpdate) (more : Bool)
        → (served req p link result).0 ≡ replied us more
        → (served req p link result).1.answered ≡ p.answered ++ req ∷ []
    unfolding served
    served-replied req p link (replied vs m, stub) us more e = refl
    served-replied req p link (failed x, stub) us more e = absurd (cc)

    served-failed :
        (req : SyncRequest Pod Container) (p : Connected) (link : N)
        (result : SyncAnswer × SyncStub S Pod) (x : SyncError)
        → (served req p link result).0 ≡ failed x
        → (served req p link result).1.answered ≡ p.answered
    unfolding served
    served-failed req p link (replied vs m, stub) x e = absurd (cc)
    served-failed req p link (failed y, stub) x e = refl

    pub transmitted-replied :
        (req : SyncRequest Pod Container) (p : Connected) (sent : Option SyncError × N)
        (us : List ContainerUpdate) (more : Bool)
        → (transmitted req p sent).0 ≡ replied us more
        → (transmitted req p sent).1.answered ≡ p.answered ++ req ∷ []
    unfolding transmitted
    transmitted-replied req p (some x, link) us more e = absurd (cc)
    transmitted-replied req p (none, link) us more e =
        served-replied req p link (synchronize req p.stub) us more e

    pub transmitted-failed :
        (req : SyncRequest Pod Container) (p : Connected) (sent : Option SyncError × N)
        (x : SyncError)
        → (transmitted req p sent).0 ≡ failed x
        → (transmitted req p sent).1.answered ≡ p.answered
    unfolding transmitted
    transmitted-failed req p (some y, link) x e = refl
    transmitted-failed req p (none, link) x e =
        served-failed req p link (synchronize req p.stub) x e

    -- The stub, as `plugin.synchronize` calls it.
    abbrev pub stub_peer : SyncPeer Pod Container
    stub_peer = record {
      Peer = Connected;
      call = λ req p. transmitted req p (transmit req p.link);
      received = λ p. p.answered;
      received_replied = λ req p. transmitted-replied req p (transmit req p.link);
      received_failed = λ req p. transmitted-failed req p (transmit req p.link);
    }
