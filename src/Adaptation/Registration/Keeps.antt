-- ===== src/Adaptation/Registration/Keeps.antt =====
-- No request changes the index of a plugin (pkg/adaptation/plugin.go, pkg/adaptation/adaptation.go).
use nri.Base.{
  ℕ, ◌≡◌, refl, ◌∙◌, Bool-cases, Option-cases, List-cases, ◌⊎◌, inl, inr, nat_beq, none, some, List,
  [], ◌∷◌, arith,
}
use nri.Api.Types.{Container}
use nri.Base.Exec.{Outcome-cases}
use nri.Api.Event.{create_event, update_event, stop_event, validate_event, is_set}
use nri.Adaptation.Adjust.{Ranges}
use nri.Adaptation.Update.{Result, Response, apply}
use nri.Adaptation.Relay.{
  PluginApi, Plugin, Relayed, relayed, relay_failed, Relayed-cases, relay, validate_with, close,
  Call, CallError, Verdict, answered, call_failed, ValidateRequest,
}
use nri.Adaptation.Requests.{
  Runtime, put, collect_loop, create_with, update_with, ask_create, ask_update, ask_stop,
  as_response, notify_loop, validate_loop, validate_request, created, validate_container_adjustment,
  finished, failed_call, refused, LoopEnd, name, response_of,
}

Call-cases :
    {A : Type 0} (r : Call A)
    → ((a : A) × (r ≡ answered a)) ⊎ ((x : CallError) × (r ≡ call_failed x))
Call-cases (answered a) = inl (a, refl)
Call-cases (call_failed x) = inr (x, refl)

module _ (api : PluginApi) where
  open api use {Conn}

  -- The plugins of two stores have the same indices.
  abbrev pub SameIndices : (ℕ → Plugin api) → (ℕ → Plugin api) → Type 0
  SameIndices store store' = (j : ℕ) → (store' j).idx ≡ (store j).idx

  pub put-SameIndices :
      (h : ℕ) (p : Plugin api) (store : ℕ → Plugin api)
      → p.idx ≡ (store h).idx
      → SameIndices store (put api h p store)
  put-SameIndices h p store e j = elim (Bool-cases (nat_beq j h)) [
    | inl same ↦ let at_h : j ≡ h = ground arith in rw same (rw at_h e)
    | inr other ↦ rw other refl
  ]

  close_idx : (p : Plugin api) → (close api p).idx ≡ p.idx
  unfolding close
  close_idx p = ground arith

  pub relay_idx :
      {A : Type 0} (e : ℕ) (call : Conn → Call A × Conn) (p : Plugin api)
      → (relay api e call p).1.idx ≡ p.idx
  unfolding relay close
  relay_idx e call p = ground arith

  validate_with_idx :
      (call : Conn → Call Verdict × Conn) (p : Plugin api)
      → (validate_with api call p).1.idx ≡ p.idx
  unfolding validate_with close is_set
  validate_with_idx call p = elim (Bool-cases (is_set p.events validate_event)) [
    | inr no_event ↦ rw no_event refl
    | inl event ↦ elim (Call-cases (call p.conn).0) [
      | inl (v, reply) ↦ rw (event, reply) refl
      | inr (x, error) ↦ rw (event, error) (ground arith)
    ]
  ]

  as_response_idx :
      {A : Type 0} (f : A → Response) (result : Relayed A × Plugin api)
      → (as_response api f result).1.idx ≡ result.1.idx
  as_response_idx f (relayed none, q) = refl
  as_response_idx f (relayed (some a), q) = refl
  as_response_idx f (relay_failed y, q) = refl

  pub ask_create_idx : (r : Result) (p : Plugin api) → (ask_create api r p).1.idx ≡ p.idx
  unfolding ask_create create_with
  ask_create_idx r p = elim (Option-cases r.create) [
    | inl absent ↦ rw absent refl
    | inr ((c, a), present) ↦ rw present (
        as_response_idx _ (relay api create_event (api.create_container c) p)
        ∙ relay_idx create_event (api.create_container c) p)
  ]

  pub ask_update_idx : (r : Result) (p : Plugin api) → (ask_update api r p).1.idx ≡ p.idx
  unfolding ask_update update_with
  ask_update_idx r p = elim (Option-cases r.update) [
    | inl absent ↦ rw absent refl
    | inr (q, present) ↦ rw present (
        as_response_idx _ (relay api update_event (api.update_container q) p)
        ∙ relay_idx update_event (api.update_container q) p)
  ]

  pub ask_stop_idx : (r : Result) (p : Plugin api) → (ask_stop api r p).1.idx ≡ p.idx
  unfolding ask_stop
  ask_stop_idx r p =
      as_response_idx _ (relay api stop_event api.stop_container p)
      ∙ relay_idx stop_event api.stop_container p

  -- One plugin after the other is asked.
  after_put :
      (h : ℕ) (p : Plugin api) (store later : ℕ → Plugin api)
      → p.idx ≡ (store h).idx
      → SameIndices (put api h p store) later
      → SameIndices store later
  after_put h p store later e same j = same j ∙ put-SameIndices h p store e j

  pub notify_loop-SameIndices :
      (tell : Plugin api → Relayed (Unit {0}) × Plugin api)
      → ((p : Plugin api) → (tell p).1.idx ≡ p.idx)
      → (hs : List ℕ) (store : ℕ → Plugin api) → SameIndices store (notify_loop api tell hs store).1
  unfolding notify_loop
  notify_loop-SameIndices tell keep [] store = λ j. refl
  notify_loop-SameIndices tell keep (h ∷ hs) store =
      let p = (tell (store h)).1 in
      elim (Relayed-cases (tell (store h)).0) [
        | inl (o, fine) ↦
            rw (fine, notify_loop)
              (after_put h p store (notify_loop api tell hs (put api h p store)).1 (keep (store h))
                (notify_loop-SameIndices tell keep hs (put api h p store)))
        | inr (x, error) ↦ rw (error, notify_loop) (put-SameIndices h p store (keep (store h)))
      ]

  pub collect_loop-SameIndices :
      (ask : Result → Plugin api → Relayed Response × Plugin api)
      → ((r : Result) (p : Plugin api) → (ask r p).1.idx ≡ p.idx)
      → (ranges : Ranges) (hs : List ℕ) (r : Result) (store : ℕ → Plugin api)
      → SameIndices store (collect_loop api ask ranges hs r store).2
  unfolding collect_loop
  collect_loop-SameIndices ask keep ranges [] r store = λ j. refl
  collect_loop-SameIndices ask keep ranges (h ∷ hs) r store =
      let p = (ask r (store h)).1 in
      let here = put-SameIndices h p store (keep r (store h)) in
      elim (Relayed-cases (ask r (store h)).0) [
        | inr (x, error) ↦ rw (error, collect_loop) here
        | inl (o, fine) ↦
            let applied = apply ranges (response_of api (relayed o)) (name api p) r in
            elim (Outcome-cases applied.0) [
              | inl (u, good) ↦
                  rw (collect_loop, fine, good)
                    (after_put h p store
                      (collect_loop api ask ranges hs applied.1 (put api h p store)).2
                      (keep r (store h))
                      (collect_loop-SameIndices ask keep ranges hs applied.1 (put api h p store)))
              | inr (e, bad) ↦ rw (collect_loop, fine, bad) here
            ]
      ]

  validate_loop-SameIndices :
      (req : ValidateRequest) (hs : List ℕ) (store : ℕ → Plugin api)
      → SameIndices store (validate_loop api req hs store).1
  unfolding validate_loop
  validate_loop-SameIndices req [] store = λ j. refl
  validate_loop-SameIndices req (h ∷ hs) store =
      let p = (validate_with api (api.validate_adjustment req) (store h)).1 in
      after_put h p store (validate_loop api req hs (put api h p store)).1
        (validate_with_idx (api.validate_adjustment req) (store h))
        (validate_loop-SameIndices req hs (put api h p store))

  validated-SameIndices :
      (c : Container) (r : Result) (store : ℕ → Plugin api) (rt : Runtime api)
      → SameIndices store (validate_container_adjustment api c r store rt).1
  unfolding validate_container_adjustment
  validated-SameIndices c r store rt = elim (List-cases rt.validators) [
    | inl nobody ↦ rw (nobody, validate_container_adjustment) (λ j. refl)
    | inr (h, hs, some_one) ↦
        rw (some_one, validate_container_adjustment)
          (validate_loop-SameIndices (validate_request api c rt r) rt.validators store)
  ]

  pub created-SameIndices :
      (end : LoopEnd) (c : Container) (r : Result) (store : ℕ → Plugin api) (rt : Runtime api)
      → SameIndices store (created api end c r store rt).1
  unfolding created
  created-SameIndices (failed_call x) c r store rt = λ j. refl
  created-SameIndices (refused e) c r store rt = λ j. refl
  created-SameIndices finished c r store rt = validated-SameIndices c r store rt
