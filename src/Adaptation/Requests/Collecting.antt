-- ===== src/Adaptation/Requests/Collecting.antt =====
-- The loops over the plugins (pkg/adaptation/adaptation.go) collect the answers that the plugins give.
use nri.Base.{
  ◌++◌, ℕ, ◌≡◌, ◌≢◌, refl, sym, ap, ◌∙◌, subst, String, false, nat_beq_iff, List, [], ◌∷◌, arith,
  All,
}
use nri.Base.Exec.{Error, Outcome, ok, err}
use nri.Adaptation.Adjust.{Ranges}
use nri.Adaptation.Update.{Result, Response, apply, apply_all}
use nri.Adaptation.Relay.{
  CallError, is_fatal_error, PluginApi, Relayed, relayed, relay_failed, Plugin,
}
use nri.Adaptation.Requests.{
  branch_on, LoopEnd, finished, failed_call, refused, put, name, response_of, collect_loop,
  ask_create, ask_update, ask_stop,
}
use nri.Adaptation.Requests.Ordering.{Ordered, All-always}
use nri.Adaptation.Requests.Replies.{
  Reply, counts, fails, create_reply, update_reply, stop_reply, reply_said, Asks, ask_create-Asks,
  ask_update-Asks, ask_stop-Asks,
}

module _ (api : PluginApi) where
  -- All that some plugins, asked in their order, replied to the request, each as the answers of
  -- those before have changed it, with the plugin's name.
  abbrev pub Answered :
      (Result → Plugin api → Reply)
      → Ranges
      → (ℕ → Plugin api)
      → List ℕ
      → Result
      → List (String × Response)
      → Type 0
  Answered reply ranges store [] r answers = answers ≡ []
  Answered reply ranges store (h ∷ hs) r answers =
      (given : Response) × (more : List (String × Response)) × (answers
        ≡ (name api (store h), given) ∷ more)
      × (reply r (store h) ≡ counts given)
      × Answered reply ranges store hs (apply ranges given (name api (store h)) r).1 more

  -- How a request has ended: with the answers of all plugins collected; with those of the first
  -- plugins, of which the last one's is refused; or with those of the first plugins, where the next
  -- one replied with an error that is not fatal.
  abbrev pub Collected :
      (Result → Plugin api → Reply)
      → Ranges
      → (ℕ → Plugin api)
      → List ℕ
      → Result
      → LoopEnd × Result × (ℕ → Plugin api)
      → Type 0
  Collected reply ranges store hs r (finished, r', store') =
      (answers : List (String × Response)) × Answered reply ranges store hs r answers
      × (apply_all ranges answers r ≡ (ok tt, r'))
  Collected reply ranges store hs r (refused e, r', store') =
      (answers : List (String × Response)) × (asked : List ℕ) × (later : List ℕ) × (asked ++ later
        ≡ hs)
      × Answered reply ranges store asked r answers
      × (apply_all ranges answers r ≡ (err e, r'))
  Collected reply ranges store hs r (failed_call x, r', store') =
      (answers : List (String × Response)) × (asked : List ℕ) × (h : ℕ) × (later : List ℕ) × (asked
          ++ h ∷ later
        ≡ hs)
      × Answered reply ranges store asked r answers
      × (apply_all ranges answers r ≡ (ok tt, r'))
      × (reply r' (store h) ≡ fails x)
      × (is_fatal_error x ≡ false)

  module _ (reply : Result → Plugin api → Reply) (ranges : Ranges) (store : ℕ → Plugin api) where
    -- One more answer comes first.
    Collected-first :
        (h : ℕ) (given : Response) (hs : List ℕ) (r : Result)
        (end : LoopEnd × Result × (ℕ → Plugin api))
        → reply r (store h) ≡ counts given
        → (apply ranges given (name api (store h)) r).0 ≡ ok tt
        → Collected reply ranges store hs (apply ranges given (name api (store h)) r).1 end
        → Collected reply ranges store (h ∷ hs) r end
    unfolding apply_all
    Collected-first h given hs r (finished, r', _) replied e (answers, heard, all) = (
      (name api (store h), given) ∷ answers,
      (given, answers, refl, replied, heard),
      rw (e, apply_all) all,
    )
    Collected-first h given hs r (refused x, r', _) replied e
          (answers, asked, later, same, heard, all) =
        (
          (name api (store h), given) ∷ answers,
          h ∷ asked,
          later,
          ap (λ hs. h ∷ hs) same,
          (given, answers, refl, replied, heard),
          rw (e, apply_all) all,
        )
    Collected-first h given hs r (failed_call x, r', _) replied e
          (answers, asked, next, later, same, heard, all, failed, fatal) =
        (
          (name api (store h), given) ∷ answers,
          h ∷ asked,
          next,
          later,
          ap (λ hs. h ∷ hs) same,
          (given, answers, refl, replied, heard),
          rw (e, apply_all) all,
          failed,
          fatal,
        )

    refused_first :
        (plugin : String) (given : Response) (r : Result) (x : Error)
        → (apply ranges given plugin r).0 ≡ err x
        → apply_all ranges ((plugin, given) ∷ []) r ≡ (err x, (apply ranges given plugin r).1)
    unfolding apply_all
    refused_first plugin given r x e = rw (e, apply_all) refl

    Collected-branch_on :
        (hs : List ℕ) (r : Result) (answer : Relayed Response) (applied : Outcome (Unit {0}))
        (more : LoopEnd × Result × (ℕ → Plugin api))
        (on_failed : CallError → LoopEnd × Result × (ℕ → Plugin api))
        (on_refused : Error → LoopEnd × Result × (ℕ → Plugin api))
        → ((x : CallError)
            → reply_said api answer ≡ fails x
            → Collected reply ranges store hs r (on_failed x))
        → ((e : Error)
            → reply_said api answer ≡ counts (response_of api answer)
            → applied ≡ err e
            → Collected reply ranges store hs r (on_refused e))
        → (reply_said api answer ≡ counts (response_of api answer)
            → applied ≡ ok tt
            → Collected reply ranges store hs r more)
        → Collected reply ranges store hs r (branch_on answer applied more on_failed on_refused)
    Collected-branch_on hs r (relay_failed x) applied more on_failed on_refused f g h = f x refl
    Collected-branch_on hs r (relayed o) (ok tt) more on_failed on_refused f g h = h refl refl
    Collected-branch_on hs r (relayed o) (err e) more on_failed on_refused f g h = g e refl refl

  -- No plugin of the list has been asked yet.
  abbrev Unasked : List ℕ → (ℕ → Plugin api) → (ℕ → Plugin api) → Type 0
  Unasked hs before now = All (λ j. now j ≡ before j) hs

  put-Unasked :
      (h : ℕ) (p : Plugin api) (hs : List ℕ) (before now : ℕ → Plugin api)
      → All (λ j. h ≢ j) hs
      → Unasked hs before now
      → Unasked hs before (put api h p now)
  put-Unasked h p [] before now other same = tt
  put-Unasked h p (j ∷ hs) before now other same =
      (ground (arith, nat_beq_iff j h), put-Unasked h p hs before now other.1 same.1)

  module _ (ask : Result → Plugin api → Relayed Response × Plugin api)
      (reply : Result → Plugin api → Reply) (asks : Asks api ask reply) (ranges : Ranges)
      (before : ℕ → Plugin api) where
    collect_loop-Collected :
        (hs : List ℕ) (r : Result) (store : ℕ → Plugin api)
        → Ordered (λ h j. h ≢ j) hs
        → Unasked hs before store
        → Collected reply ranges before hs r (collect_loop api ask ranges hs r store)
    unfolding collect_loop apply_all
    collect_loop-Collected [] r store distinct same = ([], refl, refl)
    collect_loop-Collected (h ∷ hs) r store distinct same =
        let told = asks r (store h) in
        let p = (ask r (store h)).1 in
        let given = response_of api (ask r (store h)).0 in
        let named : name api p ≡ name api (before h) = told.same_name ∙ ap (name api) same.0 in
        let replied : reply_said api (ask r (store h)).0 ≡ reply r (before h) =
          told.same_reply ∙ ap (reply r) same.0 in
        let rest =
          collect_loop-Collected hs (apply ranges given (name api p) r).1 (put api h p store)
            distinct.1 (put-Unasked h p hs before store distinct.0 same.1) in
        Collected-branch_on reply ranges before (h ∷ hs) r (ask r (store h)).0
          (apply ranges given (name api p) r).0 _ _ _
          (λ x failed.
            ([], [], h, hs, refl, refl, refl, sym replied ∙ failed, told.not_fatal x failed))
          (λ e heard bad. (
            (name api (before h), given) ∷ [],
            h ∷ [],
            hs,
            refl,
            (given, [], refl, sym replied ∙ heard, refl),
            subst
                (λ n.
                  apply_all ranges ((n, given) ∷ []) r
                  ≡ (err e, (apply ranges given (name api p) r).1))
                named (refused_first reply ranges before (name api p) given r e bad),
          ))
          (λ heard fine.
            subst
              (λ n.
                let r' = (apply ranges given n r).1 in
                let end = collect_loop api ask ranges hs r' (put api h p store) in
                (apply ranges given n r).0 ≡ ok tt
                → Collected reply ranges before hs r' end
                → Collected reply ranges before (h ∷ hs) r end)
              (sym named) (Collected-first reply ranges before h given hs r _ (sym replied ∙ heard))
              fine rest)

  -- The loop of `CreateContainer`, `UpdateContainer` or `StopContainer` over some plugins, none twice,
  -- has collected what the plugins reply when they are called in their order, as applying one
  -- answer after the other does, each in its plugin's name: the answers of all plugins, where it
  -- ends after the last; up to one that is refused, with the same error and state; or up to a
  -- plugin whose call fails, with its error, which is not a fatal one. A plugin that has not asked
  -- for the event, or whose call fails with a fatal error, has nothing to say.
  pub collect_loops-Collected :
      (ranges : Ranges) (hs : List ℕ) (r : Result) (store : ℕ → Plugin api)
      → Ordered (λ h j. h ≢ j) hs
      → Collected
          (create_reply api)
          ranges
          store
          hs
          r
          (collect_loop api (ask_create api) ranges hs r store)
        × Collected
            (update_reply api)
            ranges
            store
            hs
            r
            (collect_loop api (ask_update api) ranges hs r store)
        × Collected
            (stop_reply api)
            ranges
            store
            hs
            r
            (collect_loop api (ask_stop api) ranges hs r store)
  collect_loops-Collected ranges hs r store distinct =
      let fresh = All-always (λ j. store j ≡ store j) hs (λ j. refl) in
      (
        collect_loop-Collected (ask_create api) (create_reply api) (ask_create-Asks api) ranges
            store hs r store distinct fresh,
        collect_loop-Collected (ask_update api) (update_reply api) (ask_update-Asks api) ranges
            store hs r store distinct fresh,
        collect_loop-Collected (ask_stop api) (stop_reply api) (ask_stop-Asks api) ranges store hs r
            store distinct fresh,
      )
