-- ===== src/Adaptation/Requests/Replies.antt =====
-- What a plugin has to say to a request, and that a relay of the request (pkg/adaptation/plugin.go) is that.
use nri.Base.{ℕ, ◌≡◌, refl, false, none, some, arith, if◌then◌else◌}
use nri.Adaptation.Update.{
  create_response, update_response, stop_response, no_response, Result, Response,
}
use nri.Api.Event.{create_event, update_event, stop_event, is_set}
use nri.Adaptation.Relay.{
  CallError, is_fatal_error, Call, answered, call_failed, PluginApi, Relayed, relayed, relay_failed,
  Plugin, close, relay,
}
use nri.Adaptation.Requests.{
  create_with, update_with, name, response_of, ask_create, ask_update, ask_stop, as_response,
}

-- What one plugin has to say to a request: an answer that counts, or an error that ends the request.
pub data Reply : Type 0 where
  counts : Response → Reply
  fails : CallError → Reply

module _ (api : PluginApi) where
  open api use {Conn}

  -- A plugin that has asked for the event replies what its call returns. One that has not, and one
  -- whose connection is gone, has nothing to say; any other error is its reply.
  abbrev pub reply_to :
      {A : Type 0} → ℕ → (Conn → Call A × Conn) → (A → Response) → Plugin api → Reply
  reply_to e call response p =
      let reply : Reply = elim (call p.conn).0 [
        | answered a ↦ counts (response a)
        | call_failed x ↦ if is_fatal_error x then counts no_response else fails x
      ] in
      if is_set p.events e then reply else counts no_response

  -- What a plugin replies to the three requests, as the plugins before have changed them.
  abbrev pub create_reply : Result → Plugin api → Reply
  create_reply r p = elim r.create [
    | none ↦ counts no_response
    | some (c, a) ↦
        reply_to create_event (api.create_container c)
          (λ (adjust, updates). create_response adjust updates) p
  ]

  abbrev pub update_reply : Result → Plugin api → Reply
  update_reply r p = elim r.update [
    | none ↦ counts no_response
    | some q ↦ reply_to update_event (api.update_container q) update_response p
  ]

  abbrev pub stop_reply : Result → Plugin api → Reply
  stop_reply r p = reply_to stop_event api.stop_container stop_response p

  abbrev pub reply_said : Relayed Response → Reply
  reply_said (relayed o) = counts (response_of api (relayed o))
  reply_said (relay_failed x) = fails x

  -- What is relayed is the plugin's reply. The plugin is the same one after it, and an error is not
  -- a fatal one.
  pub record IsReply (p : Plugin api) (reply : Reply) (result : Relayed Response × Plugin api)
      : Type 0 where
    pub same_reply : reply_said result.0 ≡ reply
    pub same_name : name api result.1 ≡ name api p
    pub not_fatal : (x : CallError) → reply_said result.0 ≡ fails x → is_fatal_error x ≡ false

  relay-IsReply :
      {A : Type 0} (e : ℕ) (call : Conn → Call A × Conn) (response : A → Response) (p : Plugin api)
      → IsReply p (reply_to e call response p) (as_response api response (relay api e call p))
  unfolding relay close is_set
  relay-IsReply e call response p = record {
    same_reply = ground arith;
    same_name = ground arith;
    not_fatal = λ x failed. ground arith;
  }

  not_asked-IsReply : (p : Plugin api) → IsReply p (counts no_response) (relayed none, p)
  not_asked-IsReply p = record {
    same_reply = refl;
    same_name = refl;
    not_fatal = λ x e. ground arith;
  }

  abbrev pub Asks :
      (Result → Plugin api → Relayed Response × Plugin api) → (Result → Plugin api → Reply) → Type 0
  Asks ask reply = (r : Result) (p : Plugin api) → IsReply p (reply r p) (ask r p)

  pub ask_create-Asks : Asks (ask_create api) create_reply
  unfolding ask_create create_with
  ask_create-Asks r p =
      elim r.create
        as (λ o.
          IsReply p
            (elim o [
              | none ↦ counts no_response
              | some (c, a) ↦
                  reply_to create_event (api.create_container c)
                    (λ (adjust, updates). create_response adjust updates) p
            ])
            (create_with api o p)) [
              | none ↦ not_asked-IsReply p
              | some (c, a) ↦ relay-IsReply create_event (api.create_container c) _ p
            ]

  pub ask_update-Asks : Asks (ask_update api) update_reply
  unfolding ask_update update_with
  ask_update-Asks r p =
      elim r.update
        as (λ o.
          IsReply p
            (elim o [
              | none ↦ counts no_response
              | some q ↦ reply_to update_event (api.update_container q) update_response p
            ])
            (update_with api o p)) [
              | none ↦ not_asked-IsReply p
              | some q ↦ relay-IsReply update_event (api.update_container q) update_response p
            ]

  pub ask_stop-Asks : Asks (ask_stop api) stop_reply
  unfolding ask_stop
  ask_stop-Asks r p = relay-IsReply stop_event api.stop_container stop_response p
