-- ===== src/Relay/Requests.antt =====
-- src/lib.rs: `app`. One constructor for each route, with what reaches its handler.
use qsl_server.Base.{ℕ, Option, List, Text, [], ◌∷◌}
use qsl_server.Secrets.Headers.{HeaderMap}
use qsl_server.Relay.State.{Settings, Relay, Deps, Meets, Reply}
use qsl_server.Relay.Buckets.{run_retention_sweep}
use qsl_server.Relay.Push.{push_message}
use qsl_server.Relay.Queues.{PullQuery, pull_message, ack_messages}
use qsl_server.Relay.Slots.{
  InviteCreateReq, InviteRedeemReq, InviteRevokeReq, invite_create, invite_redeem, invite_revoke,
}
use qsl_server.Relay.Info.{InfoReply, server_info}

-- `serde_json::from_slice` at the four body types.
pub record Parsers : Type 0 where
  pub ids : List ℕ → Option (List Text)
  pub create : List ℕ → Option InviteCreateReq
  pub redeem : List ℕ → Option InviteRedeemReq
  pub revoke : List ℕ → Option InviteRevokeReq

pub data Request : Type 0 where
  post_push : HeaderMap → List ℕ → Request
  get_pull : HeaderMap → PullQuery → Request
  post_pull_ack : HeaderMap → List ℕ → Request
  get_server_info : HeaderMap → Request
  post_invite_create : HeaderMap → List ℕ → Request
  post_invite_redeem : HeaderMap → List ℕ → Request
  post_invite_revoke : HeaderMap → List ℕ → Request

pub data Response : Type 0 where
  replied : Reply → Response
  informed : InfoReply → Response

abbrev answered : Reply × Relay → Response × Relay
answered (reply, r) = (replied reply, r)

unfoldable pub serve : Settings → Deps → Parsers → Meets → Request → Relay → Response × Relay
unfolding push_message pull_message ack_messages server_info invite_create invite_redeem
    invite_revoke
serve st deps parse w (post_push headers body) r = answered (push_message st deps w headers body r)
serve st deps parse w (get_pull headers query) r = answered (pull_message st deps w headers query r)
serve st deps parse w (post_pull_ack headers body) r =
    answered (ack_messages st deps w parse.ids headers body r)
serve st deps parse w (get_server_info headers) r = (informed (server_info st deps headers), r)
serve st deps parse w (post_invite_create headers body) r =
    answered (invite_create st deps w parse.create headers body r)
serve st deps parse w (post_invite_redeem headers body) r =
    answered (invite_redeem st deps w parse.redeem headers body r)
serve st deps parse w (post_invite_revoke headers body) r =
    answered (invite_revoke st deps w parse.revoke headers body r)

-- A request, or a tick of the task that sweeps.
pub data Event : Type 0 where
  request : Meets → Request → Event
  tick : Meets → Event

unfoldable pub handle : Settings → Deps → Parsers → Event → Relay → Relay
unfolding serve run_retention_sweep
handle st deps parse (request w q) r = (serve st deps parse w q r).1
handle st deps parse (tick w) r = (run_retention_sweep st w.first w.lock_ok w.now r).1

unfoldable pub handle_all : Settings → Deps → Parsers → List Event → Relay → Relay
unfolding handle
handle_all st deps parse [] r = r
handle_all st deps parse (e ∷ es) r = handle_all st deps parse es (handle st deps parse e r)
