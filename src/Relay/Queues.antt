-- ===== src/Relay/Queues.antt =====
-- src/lib.rs: `pull_message` and `ack_messages`.
use qsl_server.Base.{
  ℕ, ◌*◌, min, max, Text, text_eq, Bool, not, ◌||◌, Option, some, none, List, [], ◌∷◌, map, length,
  ltb, ◌==◌, if◌then◌else◌,
}
use qsl_server.Secrets.Hex.{route_key_for}
use qsl_server.Secrets.Trim.{is_empty}
use qsl_server.Secrets.Headers.{HeaderMap, auth_ok, RouteToken, token, refused, resolve_route_token}
use qsl_server.Config.Limits.{max_body_bytes_ceiling}
use qsl_server.Store.Schema.{
  StoredMsg, PullMode, legacy, lease, PullOutcome, AckOutcome, max_ack_ids,
}
use qsl_server.Store.Pull.{pull}
use qsl_server.Store.Ack.{ack}
use qsl_server.Relay.State.{
  Settings, Relay, Deps, Meets, Code, Reply, failure, pulled, no_content, acked, Stored, stored,
  store_failed, run_store, ack_body_cap,
}
use qsl_server.Relay.Buckets.{log_and_prune_sweep, drop_rate_bucket}
use qsl_server.Relay.Push.{token_code}

-- FINISH_SCAN_BATCH
abbrev pub finish_scan_batch : ℕ
finish_scan_batch = 16

-- PULL_BUDGET_BYTES
abbrev pub pull_budget_bytes : ℕ
pull_budget_bytes = finish_scan_batch * max_body_bytes_ceiling

pub record PullQuery : Type 0 where
  pub max : Option ℕ
  pub ack : Option Text

abbrev lease_word : Text
lease_word = b'l' ∷ b'e' ∷ b'a' ∷ b's' ∷ b'e' ∷ []

unfoldable pub pull_mode : Option Text → Option PullMode
pull_mode none = some legacy
pull_mode (some word) = if text_eq word lease_word then some lease else none

abbrev pub asked : Option ℕ → ℕ
asked none = 1
asked (some n) = n

abbrev pull_item : StoredMsg → Text × List ℕ
pull_item m = (m.msg_id, m.body)

abbrev pub settled : Bool → Bool → Text → Relay → Relay
settled lock_ok drained k r = if drained then drop_rate_bucket lock_ok k r else r

unfoldable pub pull_reply : Bool → Text → Stored PullOutcome → Relay → Reply × Relay
unfolding log_and_prune_sweep drop_rate_bucket
pull_reply lock_ok k store_failed r = (failure 500 Code.err_store, r)
pull_reply lock_ok k (stored outcome) r = (
  if is_empty outcome.items then no_content else pulled (map pull_item outcome.items),
  settled lock_ok outcome.route_drained k (log_and_prune_sweep lock_ok outcome.sweep r),
)

unfoldable pub pull_mode_given :
    Settings → Meets → Text → ℕ → Option PullMode → Relay → Reply × Relay
unfolding pull_reply pull run_store
pull_mode_given st w k n none r = (failure 400 Code.err_bad_ack_mode, r)
pull_mode_given st w k n (some mode) r =
    let (result, after) =
      pull w.first st.store k n (max pull_budget_bytes st.limits.max_body_bytes) w.now mode r.db in
    pull_reply w.lock_ok k (run_store result) (record r { db = after })

unfoldable pub pull_token : Settings → Deps → Meets → PullQuery → RouteToken → Relay → Reply × Relay
unfolding pull_mode_given pull_mode route_key_for
pull_token st deps w q (refused e) r = (failure 400 (token_code e), r)
pull_token st deps w q (token channel) r =
    if asked q.max == 0
    then (failure 400 Code.err_bad_max, r)
    else pull_mode_given st w (route_key_for deps.sha256 channel)
        (min (asked q.max) st.limits.max_queue_depth) (pull_mode q.ack) r

unfoldable pub pull_message :
    Settings → Deps → Meets → HeaderMap → PullQuery → Relay → Reply × Relay
unfolding pull_token auth_ok resolve_route_token
pull_message st deps w headers q r =
    if not (auth_ok deps.sha256 deps.to_str headers st.relay_token)
    then (failure 401 Code.err_unauthorized, r)
    else pull_token st deps w q (resolve_route_token deps.to_str headers) r

unfoldable pub ack_reply : Bool → Text → Stored AckOutcome → Relay → Reply × Relay
unfolding log_and_prune_sweep drop_rate_bucket
ack_reply lock_ok k store_failed r = (failure 500 Code.err_store, r)
ack_reply lock_ok k (stored outcome) r = (
  acked outcome.acked,
  settled lock_ok outcome.route_drained k (log_and_prune_sweep lock_ok outcome.sweep r),
)

unfoldable pub ack_ids : Settings → Meets → Text → Option (List Text) → Relay → Reply × Relay
unfolding ack_reply ack run_store
ack_ids st w k none r = (failure 400 Code.err_bad_ack_body, r)
ack_ids st w k (some ids) r =
    if is_empty ids || ltb max_ack_ids (length ids)
    then (failure 400 Code.err_bad_ack_ids, r)
    else (let (result, after) = ack w.first st.store k ids w.now r.db in
        ack_reply w.lock_ok k (run_store result) (record r { db = after }))

-- `parse` is the JSON parser of the body, for its `ids`.
unfoldable pub ack_token :
    Settings
    → Deps
    → Meets
    → (List ℕ → Option (List Text))
    → List ℕ
    → RouteToken
    → Relay
    → Reply × Relay
unfolding ack_ids route_key_for
ack_token st deps w parse body (refused e) r = (failure 400 (token_code e), r)
ack_token st deps w parse body (token channel) r =
    if ltb ack_body_cap (length body)
    then (failure 413 Code.err_too_large, r)
    else ack_ids st w (route_key_for deps.sha256 channel) (parse body) r

unfoldable pub ack_messages :
    Settings
    → Deps
    → Meets
    → (List ℕ → Option (List Text))
    → HeaderMap
    → List ℕ
    → Relay
    → Reply × Relay
unfolding ack_token auth_ok resolve_route_token
ack_messages st deps w parse headers body r =
    if not (auth_ok deps.sha256 deps.to_str headers st.relay_token)
    then (failure 401 Code.err_unauthorized, r)
    else ack_token st deps w parse body (resolve_route_token deps.to_str headers) r
