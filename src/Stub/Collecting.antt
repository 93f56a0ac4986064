-- ===== src/Stub/Collecting.antt =====
-- What the calls of `plugin.synchronize` make of the stub's collected requests and of the plugin's state
-- (pkg/stub/stub.go).
use nri.Base.{
  ◌≡◌, refl, sym, ◌∙◌, ap, String, Bool, true, false, inl, inr, Option, none, some, List, [], ◌∷◌,
  ◌++◌, Bool-cases,
}
use nri.Api.Types.{Container, ContainerUpdate}
use nri.Adaptation.Sync.{SyncRequest, SyncError, replied, failed}
use nri.Adaptation.Sync.Delivery.{all_of, all_of-append_one}
use nri.Stub.Handlers.{Handled, handled, handler_failed, Handlers}
use nri.Stub.Synchronize.{
  SyncStub, with_collected, collect_sync, deliver_sync, synchronize, sync_answer, Connected, served,
  transmitted,
}

module _ {S Pod N : Type 0} (h : Handlers S Pod) (sync_error : String → SyncError)
    (transmit : SyncRequest Pod Container → N → Option SyncError × N) where
  abbrev pub pods_of : Option (SyncRequest Pod Container) → List Pod
  pods_of none = []
  pods_of (some r) = r.pods

  abbrev pub containers_of : Option (SyncRequest Pod Container) → List Container
  containers_of none = []
  containers_of (some r) = r.containers

  with_collected-pods :
      (o : Option (SyncRequest Pod Container)) (req : SyncRequest Pod Container)
      → (with_collected h sync_error o req).pods ≡ pods_of o ++ req.pods
  unfolding with_collected
  with_collected-pods none req = refl
  with_collected-pods (some r) req = refl

  with_collected-containers :
      (o : Option (SyncRequest Pod Container)) (req : SyncRequest Pod Container)
      → (with_collected h sync_error o req).containers ≡ containers_of o ++ req.containers
  unfolding with_collected
  with_collected-containers none req = refl
  with_collected-containers (some r) req = refl

  -- The plugin without a handler.
  module _ (start : S) where
    abbrev pub Untouched : Connected h sync_error transmit → Type 0
    Untouched p = p.stub.plugin ≡ start

    abbrev pub UntouchedEnd : List ContainerUpdate → Connected h sync_error transmit → Type 0
    UntouchedEnd us p = (us ≡ []) × (p.stub.plugin ≡ start)

    module _ (nil : h.synchronize ≡ none) where
      pub transmitted-Untouched :
          (req : SyncRequest Pod Container) (p : Connected h sync_error transmit)
          (sent : Option SyncError × N)
          → Untouched p
          → Untouched (transmitted h sync_error transmit req p sent).1
      unfolding transmitted synchronize
      transmitted-Untouched req p (some x, link) e = e
      transmitted-Untouched req p (none, link) e = rw (nil, transmitted) e

      pub transmitted-UntouchedEnd :
          (req : SyncRequest Pod Container) (p : Connected h sync_error transmit)
          (sent : Option SyncError × N) (us : List ContainerUpdate) (more : Bool)
          → (transmitted h sync_error transmit req p sent).0 ≡ replied us more
          → us ≡ []
      unfolding transmitted synchronize
      transmitted-UntouchedEnd req p (some x, link) us more e = absurd (cc)
      transmitted-UntouchedEnd req p (none, link) us more e =
          let r = e in let q = rw (nil, transmitted) at r in cc

  -- The plugin with a handler.
  module _ (start : S)
      (handler : List Pod → List Container → S → Handled (List ContainerUpdate) × S) where
    -- Nothing but collecting has been done, and all that was answered has been collected.
    pub record Collecting (p : Connected h sync_error transmit) : Type 0 where
      pub unchanged : p.stub.plugin ≡ start
      pub pods : pods_of p.stub.sync_req ≡ all_of SyncRequest.pods p.answered
      pub containers : containers_of p.stub.sync_req ≡ all_of SyncRequest.containers p.answered

    abbrev pub Handed : List ContainerUpdate → Connected h sync_error transmit → Type 0
    Handed us p =
        handler (all_of SyncRequest.pods p.answered) (all_of SyncRequest.containers p.answered)
          start
        ≡ (handled us, p.stub.plugin)

    module _ (is : h.synchronize ≡ some handler) where
      synchronize_more :
          (req : SyncRequest Pod Container) (s : SyncStub S Pod)
          → req.more ≡ true
          → synchronize h sync_error req s ≡ collect_sync h sync_error req s
      unfolding synchronize
      synchronize_more req s more = rw (is, more, synchronize)

      synchronize_last :
          (req : SyncRequest Pod Container) (s : SyncStub S Pod)
          → req.more ≡ false
          → synchronize h sync_error req s ≡ deliver_sync h sync_error handler req s
      unfolding synchronize
      synchronize_last req s last = rw (is, last, synchronize)

      -- An error of the handler is not one of exhausted resources, so that its request is not sent again.
      delivered_exhausted :
          (not_exhausted : (e : String) → (sync_error e).exhausted ≡ false)
          (req : SyncRequest Pod Container) (p : Connected h sync_error transmit) (link : N)
          (r : Handled (List ContainerUpdate) × S) (x : SyncError)
          → (served h sync_error transmit req p link
              (sync_answer h sync_error r.0, record { plugin = r.1; sync_req = none })).0
            ≡ failed x
          → x.exhausted ≡ true
          → ⊥
      unfolding served
      delivered_exhausted not_exhausted req p link (handled us, s) x e full = cc
      delivered_exhausted not_exhausted req p link (handler_failed why, s) x e full =
          let no = not_exhausted why in cc

      served_exhausted :
          (not_exhausted : (e : String) → (sync_error e).exhausted ≡ false)
          (req : SyncRequest Pod Container) (p : Connected h sync_error transmit) (link : N)
          (x : SyncError)
          → (served h sync_error transmit req p link (synchronize h sync_error req p.stub)).0
            ≡ failed x
          → x.exhausted ≡ true
          → ⊥
      unfolding served collect_sync deliver_sync
      served_exhausted not_exhausted req p link x e full = elim (Bool-cases req.more) [
        | inl follows ↦ let r = e in let q = rw (synchronize_more req p.stub follows) at r in cc
        | inr last ↦
            let r = e in
            delivered_exhausted not_exhausted req p link
              (handler (with_collected h sync_error p.stub.sync_req req).pods
                (with_collected h sync_error p.stub.sync_req req).containers p.stub.plugin)
              x (rw (synchronize_last req p.stub last) at r) full
      ]

      delivered_last :
          (req : SyncRequest Pod Container) (p : Connected h sync_error transmit) (link : N)
          (r : Handled (List ContainerUpdate) × S) (us : List ContainerUpdate) (more : Bool)
          → (served h sync_error transmit req p link
              (sync_answer h sync_error r.0, record { plugin = r.1; sync_req = none })).0
            ≡ replied us more
          → (r ≡ (
            handled us,
            (served h sync_error transmit req p link (
              sync_answer h sync_error r.0,
              record { plugin = r.1; sync_req = none },
            )).1.stub.plugin,
          ))
            × ((served h sync_error transmit req p link (
              sync_answer h sync_error r.0,
              record { plugin = r.1; sync_req = none },
            )).1.answered
                ≡ p.answered ++ req ∷ [])
      unfolding served
      delivered_last req p link (handled vs, s) us more e =
          let same : vs ≡ us = cc in (ap (λ v. (handled v, s)) same, refl)
      delivered_last req p link (handler_failed why, s) us more e = absurd (cc)

      pub transmitted_more :
          (req : SyncRequest Pod Container) (p : Connected h sync_error transmit)
          (sent : Option SyncError × N) (us : List ContainerUpdate) (more : Bool)
          → Collecting p
          → req.more ≡ true
          → (transmitted h sync_error transmit req p sent).0 ≡ replied us more
          → Collecting (transmitted h sync_error transmit req p sent).1
      unfolding transmitted served collect_sync
      transmitted_more req p (some x, link) us more c follows e = absurd (cc)
      transmitted_more req p (none, link) us more c follows e =
          rw (synchronize_more req p.stub follows, transmitted)
            (record {
              unchanged = c.unchanged;
              pods =
                  with_collected-pods p.stub.sync_req req
                  ∙ (ap (λ xs. xs ++ req.pods) c.pods
                      ∙ sym (all_of-append_one SyncRequest.pods p.answered req));
              containers =
                  with_collected-containers p.stub.sync_req req
                  ∙ (ap (λ xs. xs ++ req.containers) c.containers
                      ∙ sym (all_of-append_one SyncRequest.containers p.answered req));
            })

      pub transmitted_exhausted :
          (not_exhausted : (e : String) → (sync_error e).exhausted ≡ false)
          (req : SyncRequest Pod Container) (p : Connected h sync_error transmit)
          (sent : Option SyncError × N) (x : SyncError)
          → Collecting p
          → (transmitted h sync_error transmit req p sent).0 ≡ failed x
          → x.exhausted ≡ true
          → Collecting (transmitted h sync_error transmit req p sent).1
      unfolding transmitted
      transmitted_exhausted not_exhausted req p (some y, link) x c e full = record {
        unchanged = c.unchanged;
        pods = c.pods;
        containers = c.containers;
      }
      transmitted_exhausted not_exhausted req p (none, link) x c e full =
          absurd (served_exhausted not_exhausted req p link x e full)

      -- The handler gets what was collected and the last request.
      delivered_all :
          (req : SyncRequest Pod Container) (p : Connected h sync_error transmit)
          (log : List (SyncRequest Pod Container)) (us : List ContainerUpdate) (plugin : S)
          → Collecting p
          → log ≡ p.answered ++ req ∷ []
          → handler
              (with_collected h sync_error p.stub.sync_req req).pods
              (with_collected h sync_error p.stub.sync_req req).containers
              p.stub.plugin
            ≡ (handled us, plugin)
          → handler (all_of SyncRequest.pods log) (all_of SyncRequest.containers log) start
            ≡ (handled us, plugin)
      delivered_all req p log us plugin c now e =
          let pods : all_of SyncRequest.pods log
              ≡ (with_collected h sync_error p.stub.sync_req req).pods =
            ap (all_of SyncRequest.pods) now
            ∙ (all_of-append_one SyncRequest.pods p.answered req
                ∙ (ap (λ xs. xs ++ req.pods) (sym c.pods)
                    ∙ sym (with_collected-pods p.stub.sync_req req))) in
          let ctrs : all_of SyncRequest.containers log
              ≡ (with_collected h sync_error p.stub.sync_req req).containers =
            ap (all_of SyncRequest.containers) now
            ∙ (all_of-append_one SyncRequest.containers p.answered req
                ∙ (ap (λ xs. xs ++ req.containers) (sym c.containers)
                    ∙ sym (with_collected-containers p.stub.sync_req req))) in
          rw (pods, ctrs, sym c.unchanged) e

      pub transmitted_last :
          (req : SyncRequest Pod Container) (p : Connected h sync_error transmit)
          (sent : Option SyncError × N) (us : List ContainerUpdate) (more : Bool)
          → Collecting p
          → req.more ≡ false
          → (transmitted h sync_error transmit req p sent).0 ≡ replied us more
          → Handed us (transmitted h sync_error transmit req p sent).1
      unfolding transmitted deliver_sync
      transmitted_last req p (some x, link) us more c last e = absurd (cc)
      transmitted_last req p (none, link) us more c last e =
          let r = e in
          let (answer, now) =
            delivered_last req p link
              (handler (with_collected h sync_error p.stub.sync_req req).pods
                (with_collected h sync_error p.stub.sync_req req).containers p.stub.plugin)
              us more (rw (synchronize_last req p.stub last) at r) in
          rw (synchronize_last req p.stub last, transmitted)
            (delivered_all req p _ us _ c now answer)
