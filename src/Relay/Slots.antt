-- ===== src/Relay/Slots.antt =====
-- src/lib.rs: `invite_create`, `invite_redeem` and `invite_revoke`. The JSON parsers of the bodies are
-- parameters; `random` is the token that the handler draws. An expiry is a signed number: `before`
-- stands for one below zero, which is before every time.
use qsl_server.Base.{
  ℕ, ◌+◌, ◌-◌, ◌*◌, ◌/◌, ◌^◌, min, Text, not, ◌||◌, Option, some, none, List, length, leb, ltb,
  if◌then◌else◌,
}
use qsl_server.Config.Limits.{InviteLimits}
use qsl_server.Base64.Codec.{b64_encode, b64_decode}
use qsl_server.Secrets.Hex.{sha256_hex, route_key_for, channel_log_id}
use qsl_server.Secrets.Trim.{is_blank, is_empty}
use qsl_server.Secrets.Compare.{ct_eq_secret}
use qsl_server.Secrets.Headers.{HeaderMap, auth_ok}
use qsl_server.Rate.Bucket.{try_consume}
use qsl_server.Store.Schema.{InviteCreateOutcome, InviteRedeemOutcome, InviteRevokeOutcome}
use qsl_server.Store.Invites.{NewInvite}
use qsl_server.Store.Invites
use qsl_server.Relay.State.{
  Settings, Relay, Deps, Meets, Code, Reply, failure, invite_created, invite_opened, invite_revoked,
  Stored, stored, store_failed, run_store, invite_redeem_body_cap, invite_revoke_body_cap,
}
use qsl_server.Relay.Buckets.{invite_bucket_controls}

-- 2 * (4 * max_bundle_bytes).div_ceil(3) + 4 * 1024
unfoldable pub invite_create_body_cap : ℕ → ℕ
invite_create_body_cap max_bundle_bytes = 2 * ((4 * max_bundle_bytes + 2) / 3) + 4 * 1024

-- A signed number of seconds.
pub data Expiry : Type 0 where
  at_second : ℕ → Expiry
  before : ℕ → Expiry

pub record InviteCreateReq : Type 0 where
  pub invite_id : Text
  pub cap_hash : Text
  pub expiry : Expiry
  pub bundle_b64 : Text
  pub invite_sig_b64 : Text

pub record InviteRedeemReq : Type 0 where
  pub invite_id : Text
  pub cap : Text

pub record InviteRevokeReq : Type 0 where
  pub invite_id : Text
  pub revoke_token : Text

-- req.expiry.min(now.saturating_add(max_expiry_secs)), unless req.expiry <= now
unfoldable pub clamp_expiry : InviteLimits → ℕ → Expiry → Option ℕ
clamp_expiry l now (before n) = none
clamp_expiry l now (at_second e) =
    if leb e now then none else some (min e (min (now + l.max_expiry_secs) (2 ^ 63 - 1)))

unfoldable pub create_reply : Text → Stored InviteCreateOutcome → Relay → Reply × Relay
create_reply revoke_token store_failed r = (failure 500 Code.err_store, r)
create_reply revoke_token (stored InviteCreateOutcome.created) r = (invite_created revoke_token, r)
create_reply revoke_token (stored InviteCreateOutcome.duplicate) r =
    (failure 409 Code.err_invite_duplicate, r)
create_reply revoke_token (stored (InviteCreateOutcome.cap_full live)) r =
    (failure 429 Code.err_invite_cap_full, r)

unfoldable pub create_store : Settings → Deps → Meets → NewInvite → Relay → Reply × Relay
unfolding create_reply Invites.invite_create run_store
create_store st deps w n r =
    let (result, after) =
      Invites.invite_create w.first st.store n w.now st.invite_limits.max_slots r.db in
    create_reply w.random (run_store result) (record r { db = after })

unfoldable pub create_expiry :
    Settings → Deps → Meets → InviteCreateReq → List ℕ → List ℕ → Option ℕ → Relay → Reply × Relay
unfolding create_store route_key_for channel_log_id sha256_hex
create_expiry st deps w req bundle sig none r = (failure 400 Code.err_invite_expired, r)
create_expiry st deps w req bundle sig (some expiry) r =
    create_store st deps w
      (record {
        slot_key = route_key_for deps.sha256 req.invite_id;
        log_id = channel_log_id req.invite_id;
        cap_hash = req.cap_hash;
        revoke_hash = sha256_hex deps.sha256 w.random;
        bundle = bundle;
        invite_sig = sig;
        expiry = expiry;
      })
      r

unfoldable pub create_blobs :
    Settings
    → Deps
    → Meets
    → InviteCreateReq
    → Option (List ℕ)
    → Option (List ℕ)
    → Relay
    → Reply × Relay
unfolding create_expiry clamp_expiry
create_blobs st deps w req none sig r = (failure 400 Code.err_invite_bad_body, r)
create_blobs st deps w req (some bundle) none r = (failure 400 Code.err_invite_bad_body, r)
create_blobs st deps w req (some bundle) (some sig) r =
    if is_empty bundle || is_empty sig
    then (failure 400 Code.err_invite_bad_body, r)
    else if ltb st.invite_limits.max_bundle_bytes (length bundle)
        || ltb st.invite_limits.max_bundle_bytes (length sig)
    then (failure 413 Code.err_invite_too_large, r)
    else create_expiry st deps w req bundle sig (clamp_expiry st.invite_limits w.now req.expiry) r

unfoldable pub create_parsed :
    Settings → Deps → Meets → Option InviteCreateReq → Relay → Reply × Relay
unfolding create_blobs b64_decode is_blank
create_parsed st deps w none r = (failure 400 Code.err_invite_bad_body, r)
create_parsed st deps w (some req) r =
    if is_blank req.invite_id || is_blank req.cap_hash
    then (failure 400 Code.err_invite_bad_body, r)
    else create_blobs st deps w req (b64_decode req.bundle_b64) (b64_decode req.invite_sig_b64) r

-- The rate gate, before anything is parsed.
unfoldable pub create_rate :
    Settings → Deps → Meets → Option InviteCreateReq → Relay → Reply × Relay
unfolding create_parsed try_consume
create_rate st deps w req r =
    if not w.lock_ok
    then (failure 500 Code.err_lock_poison, r)
    else (let (admitted, bucket) =
          try_consume (invite_bucket_controls st.invite_limits) w.mono_now r.invite_create_rate in
        let after = record r { invite_create_rate = bucket } in
        if not admitted
        then (failure 429 Code.err_rate_limited, after)
        else create_parsed st deps w req after)

unfoldable pub invite_create :
    Settings
    → Deps
    → Meets
    → (List ℕ → Option InviteCreateReq)
    → HeaderMap
    → List ℕ
    → Relay
    → Reply × Relay
unfolding create_rate auth_ok invite_create_body_cap
invite_create st deps w parse headers body r =
    if not (auth_ok deps.sha256 deps.to_str headers st.relay_token)
    then (failure 401 Code.err_unauthorized, r)
    else if ltb (invite_create_body_cap st.invite_limits.max_bundle_bytes) (length body)
    then (failure 413 Code.err_invite_too_large, r)
    else create_rate st deps w (parse body) r

unfoldable pub redeem_reply : Text → Stored InviteRedeemOutcome → Reply
unfolding b64_encode
redeem_reply ticket store_failed = failure 500 Code.err_store
redeem_reply ticket (stored (InviteRedeemOutcome.redeemed bundle sig)) =
    invite_opened (b64_encode bundle) (b64_encode sig) ticket
redeem_reply ticket (stored InviteRedeemOutcome.not_found) = failure 404 Code.err_invite_not_found
redeem_reply ticket (stored InviteRedeemOutcome.revoked) = failure 410 Code.err_invite_revoked
redeem_reply ticket (stored InviteRedeemOutcome.expired) = failure 410 Code.err_invite_expired
redeem_reply ticket (stored InviteRedeemOutcome.already_used) =
    failure 409 Code.err_invite_already_used
redeem_reply ticket (stored InviteRedeemOutcome.cap_invalid) =
    failure 403 Code.err_invite_cap_invalid

unfoldable pub redeem_parsed : Deps → Meets → Option InviteRedeemReq → Relay → Reply × Relay
unfolding redeem_reply Invites.invite_redeem run_store route_key_for sha256_hex ct_eq_secret
    is_blank
redeem_parsed deps w none r = (failure 400 Code.err_invite_bad_body, r)
redeem_parsed deps w (some req) r =
    if is_blank req.invite_id || is_blank req.cap
    then (failure 400 Code.err_invite_bad_body, r)
    else (let (result, after) =
          Invites.invite_redeem w.first (route_key_for deps.sha256 req.invite_id) w.now
            (sha256_hex deps.sha256 w.random)
            (λ stored. ct_eq_secret deps.sha256 (sha256_hex deps.sha256 req.cap) stored) r.db in
        (redeem_reply w.random (run_store result), record r { db = after }))

unfoldable pub invite_redeem :
    Settings
    → Deps
    → Meets
    → (List ℕ → Option InviteRedeemReq)
    → HeaderMap
    → List ℕ
    → Relay
    → Reply × Relay
unfolding redeem_parsed auth_ok
invite_redeem st deps w parse headers body r =
    if not (auth_ok deps.sha256 deps.to_str headers st.relay_token)
    then (failure 401 Code.err_unauthorized, r)
    else if ltb invite_redeem_body_cap (length body)
    then (failure 413 Code.err_too_large, r)
    else redeem_parsed deps w (parse body) r

unfoldable pub revoke_reply : Stored InviteRevokeOutcome → Reply
revoke_reply store_failed = failure 500 Code.err_store
revoke_reply (stored InviteRevokeOutcome.revoked) = invite_revoked
revoke_reply (stored InviteRevokeOutcome.already_revoked) = invite_revoked
revoke_reply (stored InviteRevokeOutcome.not_found) = failure 404 Code.err_invite_not_found
revoke_reply (stored InviteRevokeOutcome.token_invalid) = failure 403 Code.err_invite_revoke_invalid

unfoldable pub revoke_parsed : Deps → Meets → Option InviteRevokeReq → Relay → Reply × Relay
unfolding revoke_reply Invites.invite_revoke run_store route_key_for sha256_hex ct_eq_secret
    is_blank
revoke_parsed deps w none r = (failure 400 Code.err_invite_bad_body, r)
revoke_parsed deps w (some req) r =
    if is_blank req.invite_id || is_blank req.revoke_token
    then (failure 400 Code.err_invite_bad_body, r)
    else (let (result, after) =
          Invites.invite_revoke w.first (route_key_for deps.sha256 req.invite_id)
            (λ stored. ct_eq_secret deps.sha256 (sha256_hex deps.sha256 req.revoke_token) stored)
            r.db in
        (revoke_reply (run_store result), record r { db = after }))

unfoldable pub invite_revoke :
    Settings
    → Deps
    → Meets
    → (List ℕ → Option InviteRevokeReq)
    → HeaderMap
    → List ℕ
    → Relay
    → Reply × Relay
unfolding revoke_parsed auth_ok
invite_revoke st deps w parse headers body r =
    if not (auth_ok deps.sha256 deps.to_str headers st.relay_token)
    then (failure 401 Code.err_unauthorized, r)
    else if ltb invite_revoke_body_cap (length body)
    then (failure 413 Code.err_too_large, r)
    else revoke_parsed deps w (parse body) r
