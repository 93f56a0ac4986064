-- ===== src/Stub/Delivered.antt =====
-- A plugin that the adaptation has synchronized through its stub has had its handler called once, with
-- all pods and containers (pkg/adaptation/plugin.go and pkg/stub/stub.go).
use nri.Base.{
  ℕ, ◌≡◌, refl, sym, String, false, inl, inr, Option, none, some, List, [], Option-cases,
}
use nri.Api.Types.{Container, ContainerUpdate}
use nri.Adaptation.Sync.{SyncRequest, SyncError, synced, Scale, ended, sync_rounds, sync_start}
use nri.Adaptation.Sync.Delivery.{whole, sync_rounds-IsWhole}
use nri.Adaptation.Sync.Calls.{CallsKeep, sync_rounds-after}
use nri.Stub.Handlers.{Handled, handled, Handlers}
use nri.Stub.Synchronize.{Connected, stub_peer}
use nri.Stub.Collecting.{
  Untouched, UntouchedEnd, transmitted-Untouched, transmitted-UntouchedEnd, Collecting, Handed,
  transmitted_more, transmitted_exhausted, transmitted_last,
}

-- What a handler, if there is one, made of the pods and containers, from a state of the plugin to
-- another: its updates are the ones it returned, none without a handler.
abbrev pub Delivered :
    {S Pod : Type 0}
    → Option (List Pod → List Container → S → Handled (List ContainerUpdate) × S)
    → List Pod
    → List Container
    → S
    → List ContainerUpdate
    → S
    → Type 0
Delivered none pods ctrs s us s' = (us ≡ []) × (s' ≡ s)
Delivered (some handler) pods ctrs s us s' = handler pods ctrs s ≡ (handled us, s')

module _ {S Pod N : Type 0} (h : Handlers S Pod) (sync_error : String → SyncError)
    (transmit : SyncRequest Pod Container → N → Option SyncError × N) where
  -- The stub of a plugin that has got no request yet.
  abbrev pub fresh : S → N → Connected h sync_error transmit
  fresh start link = record {
    stub = record { plugin = start; sync_req = none };
    link = link;
    answered = [];
  }

  nil-CallsKeep :
      (start : S)
      → h.synchronize ≡ none
      → CallsKeep
          (stub_peer h sync_error transmit)
          (Untouched h sync_error transmit start)
          (UntouchedEnd h sync_error transmit start)
  nil-CallsKeep start nil = record {
    on_more = λ req p us more u follows e.
        transmitted-Untouched h sync_error transmit start nil req p (transmit req p.link) u;
    on_last = λ req p us more u last e. (
      transmitted-UntouchedEnd h sync_error transmit start nil req p (transmit req p.link) us more
          e,
      transmitted-Untouched h sync_error transmit start nil req p (transmit req p.link) u,
    );
    on_exhausted = λ req p x u e full.
        transmitted-Untouched h sync_error transmit start nil req p (transmit req p.link) u;
  }

  module _ (not_exhausted : (e : String) → (sync_error e).exhausted ≡ false) where
    handler-CallsKeep :
        (start : S) (handler : List Pod → List Container → S → Handled (List ContainerUpdate) × S)
        → h.synchronize ≡ some handler
        → CallsKeep
            (stub_peer h sync_error transmit)
            (Collecting h sync_error transmit start handler)
            (Handed h sync_error transmit start handler)
    handler-CallsKeep start handler is = record {
      on_more = λ req p us more c follows e.
          transmitted_more h sync_error transmit start handler is req p (transmit req p.link) us
            more c follows e;
      on_last = λ req p us more c last e.
          transmitted_last h sync_error transmit start handler is req p (transmit req p.link) us
            more c last e;
      on_exhausted = λ req p x c e full.
          transmitted_exhausted h sync_error transmit start handler is not_exhausted req p
            (transmit req p.link) x c e full;
    }

    -- When the adaptation has synchronized a plugin behind a fresh stub, in as many messages and after
    -- as many rejected ones as the connection made it take, the plugin's handler was called once, on the
    -- state that the plugin started with, with exactly the pods and containers of the adaptation in
    -- their order, and the updates that the adaptation gets are the ones that the handler returned;
    -- without a handler there are none. The slices have no spare capacity, and a handler's error does
    -- not have the status of an oversized message.
    pub sync_rounds-Delivered :
        (scaled : Scale) (n : ℕ) (pods : List Pod) (ctrs : List Container) (start : S) (link : N)
        (us : List ContainerUpdate) (final : Connected h sync_error transmit)
        → sync_rounds (stub_peer h sync_error transmit) scaled n (
            sync_start
              (stub_peer h sync_error transmit)
              scaled
              (whole pods)
              (whole ctrs)
              (fresh start link))
          ≡ ended (synced us) final
        → Delivered h.synchronize pods ctrs start us final.stub.plugin
    unfolding sync_start
    sync_rounds-Delivered scaled n pods ctrs start link us final e =
        let all =
          sync_rounds-IsWhole (stub_peer h sync_error transmit) scaled pods ctrs n
            (fresh start link) final us refl e in
        elim (Option-cases h.synchronize) [
          | inl nil ↦ rw nil (
              sync_rounds-after (stub_peer h sync_error transmit) _ _ scaled
                (nil-CallsKeep start nil) n
                (sync_start _ scaled (whole pods) (whole ctrs) (fresh start link)) us final refl e)
          | inr (handler, is) ↦
              rw (is, sym all.all_pods, sym all.all_containers)
                (sync_rounds-after (stub_peer h sync_error transmit) _ _ scaled
                  (handler-CallsKeep start handler is) n
                  (sync_start _ scaled (whole pods) (whole ctrs) (fresh start link)) us final
                  (record { unchanged = refl; pods = refl; containers = refl }) e)
        ]
