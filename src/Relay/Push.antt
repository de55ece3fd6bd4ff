-- ===== src/Relay/Push.antt =====
-- src/lib.rs: `push_message`.
use qsl_server.Base.{
  ℕ, Text, Bool, not, ◌&&◌, Option, some, none, List, length, leb, ltb, if◌then◌else◌,
}
use qsl_server.Secrets.Hex.{sha256_hex, route_key_for, channel_log_id}
use qsl_server.Secrets.Trim.{trim, is_empty, is_blank}
use qsl_server.Secrets.Compare.{ct_eq_secret}
use qsl_server.Secrets.Headers.{
  HeaderMap, header_text, auth_ok, RouteToken, token, refused, resolve_route_token, TokenError,
  missing_route_token, bad_route_token,
}
use qsl_server.Store.Schema.{
  RouteStatus, EnqueueOutcome, accepted, overloaded, route_cap, slot_rejected, SlotReject,
}
use qsl_server.Store.Status.{route_status}
use qsl_server.Store.Enqueue.{Push, enqueue}
use qsl_server.Relay.State.{
  Settings, Relay, Deps, Meets, Code, Reply, failure, posted, Stored, stored, store_failed,
  run_store,
}
use qsl_server.Relay.Buckets.{log_and_prune_sweep, drop_rate_bucket, consume_push}

abbrev pub token_code : TokenError → Code
token_code missing_route_token = Code.err_missing_route_token
token_code bad_route_token = Code.err_bad_route_token

abbrev id_or_new : Option Text → Text → Text
id_or_new none fresh = fresh
id_or_new (some v) fresh = if is_blank v then fresh else v

-- The x-msg-id header, or else a new id.
unfoldable pub message_id : Deps → Meets → HeaderMap → Text
unfolding is_blank
message_id deps w headers = id_or_new (header_text deps.to_str headers.msg_id) w.random

abbrev verifier : Deps → Option Text → Option (Text → Bool)
verifier deps none = none
verifier deps (some v) =
    if is_empty (trim v)
    then none
    else some (λ stored. ct_eq_secret deps.sha256 (sha256_hex deps.sha256 (trim v)) stored)

-- The ticket header, trimmed and hashed, as the comparison that the store runs.
unfoldable pub ticket_verifier : Deps → HeaderMap → Option (Text → Bool)
unfolding trim ct_eq_secret sha256_hex
ticket_verifier deps headers = verifier deps (header_text deps.to_str headers.invite_ticket)

unfoldable pub push_of : Settings → Deps → Meets → HeaderMap → List ℕ → Text → Push
unfolding route_key_for channel_log_id message_id ticket_verifier
push_of st deps w headers body channel = record {
  route_key = route_key_for deps.sha256 channel;
  log_id = channel_log_id channel;
  msg_id = message_id deps w headers;
  body = body;
  now = w.now;
  max_queue_depth = st.limits.max_queue_depth;
  max_route_count = st.controls.max_route_count;
  ticket = ticket_verifier deps headers;
}

abbrev slot_failure : SlotReject → Reply
slot_failure SlotReject.expired = failure 410 Code.err_invite_expired
slot_failure SlotReject.revoked = failure 410 Code.err_invite_revoked
slot_failure SlotReject.ticket_invalid = failure 403 Code.err_invite_ticket_invalid

unfoldable pub push_reply : Bool → Push → Stored EnqueueOutcome → Relay → Reply × Relay
unfolding drop_rate_bucket
push_reply lock_ok p store_failed r = (failure 500 Code.err_store, r)
push_reply lock_ok p (stored accepted) r = (posted p.msg_id, r)
push_reply lock_ok p (stored (overloaded depth)) r = (failure 429 Code.err_overloaded, r)
push_reply lock_ok p (stored (route_cap live)) r =
    (failure 429 Code.err_route_cap, drop_rate_bucket lock_ok p.route_key r)
push_reply lock_ok p (stored (slot_rejected reason)) r = (slot_failure reason, r)

-- The call of the store that keeps the message.
unfoldable pub push_store : Meets → Push → Relay → Reply × Relay
unfolding push_reply enqueue run_store
push_store w p r =
    let (result, after) = enqueue w.second p r.db in
    push_reply w.lock_ok p (run_store result) (record r { db = after })

-- The rate gate, behind the caps.
unfoldable pub push_rate : Settings → Meets → Push → Relay → Reply × Relay
unfolding push_store consume_push
push_rate st w p r =
    if not w.lock_ok
    then (failure 500 Code.err_lock_poison, r)
    else (let (admitted, after) = consume_push st.controls w.mono_now p.route_key r in
        if not admitted then (failure 429 Code.err_rate_limited, after) else push_store w p after)

-- The caps, from the status of the route.
unfoldable pub push_caps : Settings → Meets → Push → Stored RouteStatus → Relay → Reply × Relay
unfolding push_rate log_and_prune_sweep
push_caps st w p store_failed r = (failure 500 Code.err_store, r)
push_caps st w p (stored status) r =
    let after = log_and_prune_sweep w.lock_ok status.sweep r in
    if status.route_exists && leb st.limits.max_queue_depth status.depth
    then (failure 429 Code.err_overloaded, after)
    else if not status.route_exists && leb st.controls.max_route_count status.live_routes
    then (failure 429 Code.err_route_cap, after)
    else push_rate st w p after

unfoldable pub push_status : Settings → Meets → Push → Relay → Reply × Relay
unfolding push_caps route_status run_store
push_status st w p r =
    let (result, after) = route_status w.first st.store p.route_key w.now r.db in
    push_caps st w p (run_store result) (record r { db = after })

unfoldable pub push_body :
    Settings → Deps → Meets → HeaderMap → List ℕ → RouteToken → Relay → Reply × Relay
unfolding push_status push_of
push_body st deps w headers body (refused e) r = (failure 400 (token_code e), r)
push_body st deps w headers body (token channel) r =
    if is_empty body
    then (failure 400 Code.err_empty_body, r)
    else if ltb st.limits.max_body_bytes (length body)
    then (failure 413 Code.err_too_large, r)
    else push_status st w (push_of st deps w headers body channel) r

unfoldable pub push_message : Settings → Deps → Meets → HeaderMap → List ℕ → Relay → Reply × Relay
unfolding push_body auth_ok resolve_route_token
push_message st deps w headers body r =
    if not (auth_ok deps.sha256 deps.to_str headers st.relay_token)
    then (failure 401 Code.err_unauthorized, r)
    else push_body st deps w headers body (resolve_route_token deps.to_str headers) r
