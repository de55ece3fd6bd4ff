-- ===== src/Relay/Steps/Serving.antt =====
-- Requests and ticks as accesses to the shared state, and what every reachable state satisfies.
use qsl_server.Base.{List, [], ◌∷◌}
use qsl_server.Relay.State.{Settings, Relay, Deps, Meets}
use qsl_server.Relay.Actions.{Action, act, Allowed}
use qsl_server.Relay.Requests.{
  Parsers, Request, post_push, get_pull, post_pull_ack, get_server_info, post_invite_create,
  post_invite_redeem, post_invite_revoke, serve, Event, request, tick, handle, handle_all,
}
use qsl_server.Relay.Steps.Pushing.{push_message-keeps}
use qsl_server.Relay.Steps.Queueing.{
  pull_message-keeps, ack_messages-keeps, run_retention_sweep-keeps,
}
use qsl_server.Relay.Steps.Inviting.{invite_create-keeps, invite_redeem-keeps, invite_revoke-keeps}

module _ (st : Settings) (P : Relay → Type 0)
    (keep : (a : Action) (r : Relay) → Allowed st a → P r → P (act st a r)) where
  serve-keeps :
      (deps : Deps) (parse : Parsers) (w : Meets) (q : Request) (r : Relay)
      → P r
      → P (serve st deps parse w q r).1
  unfolding serve
  serve-keeps deps parse w (post_push headers body) r h =
      push_message-keeps st P keep deps w headers body r h
  serve-keeps deps parse w (get_pull headers q) r h =
      pull_message-keeps st P keep deps w headers q r h
  serve-keeps deps parse w (post_pull_ack headers body) r h =
      ack_messages-keeps st P keep deps w parse.ids headers body r h
  serve-keeps deps parse w (get_server_info headers) r h = h
  serve-keeps deps parse w (post_invite_create headers body) r h =
      invite_create-keeps st P keep deps w parse.create headers body r h
  serve-keeps deps parse w (post_invite_redeem headers body) r h =
      invite_redeem-keeps st P keep deps w parse.redeem headers body r h
  serve-keeps deps parse w (post_invite_revoke headers body) r h =
      invite_revoke-keeps st P keep deps w parse.revoke headers body r h

  pub handle-keeps :
      (deps : Deps) (parse : Parsers) (e : Event) (r : Relay) → P r → P (handle st deps parse e r)
  unfolding handle
  handle-keeps deps parse (request w q) r h = serve-keeps deps parse w q r h
  handle-keeps deps parse (tick w) r h =
      run_retention_sweep-keeps st P keep w.first w.lock_ok w.now r h

  pub handle_all-keeps :
      (deps : Deps) (parse : Parsers) (es : List Event) (r : Relay)
      → P r
      → P (handle_all st deps parse es r)
  unfolding handle_all
  handle_all-keeps deps parse [] r h = h
  handle_all-keeps deps parse (e ∷ es) r h =
      handle_all-keeps deps parse es (handle st deps parse e r) (handle-keeps deps parse e r h)
