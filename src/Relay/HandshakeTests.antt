-- ===== src/Relay/HandshakeTests.antt =====
-- The theorems on a push that is pulled and on an invite from its publication to the push that its
-- ticket admits, at concrete requests.
use qsl_server.Base.{◌≡◌, refl, some, none, [], ◌∷◌, ◌++◌, arith, map, text_eq, inl, inr}
use qsl_server.Base64.Codec.{b64_encode, b64_decode}
use qsl_server.Secrets.Hex.{sha256_hex, route_key_for}
use qsl_server.Secrets.Headers.{HeaderMap, auth_ok, resolve_route_token}
use qsl_server.Store.Sweep.{swept}
use qsl_server.Store.Queue.View.{queue}
use qsl_server.Store.Valid.Invariant.{IsValid}
use qsl_server.Store.Tests.{later_expiry}
use qsl_server.Secrets.Trim.{trim}
use qsl_server.Rate.Bucket.{new_bucket}
use qsl_server.Relay.Buckets.{get}
use qsl_server.Relay.State.{Meets, Relay, pulled, posted, invite_opened}
use qsl_server.Relay.Push.{push_message, push_of, message_id}
use qsl_server.Relay.Queues.{PullQuery, pull_message}
use qsl_server.Relay.Slots.{
  InviteCreateReq, InviteRedeemReq, at_second, clamp_expiry, invite_create, invite_redeem,
}
use qsl_server.Relay.Delivered.{item_of, pull_message-push_message}
use qsl_server.Relay.Published.{invite_redeem-invite_create}
use qsl_server.Relay.Handshake.{push_message-invite_redeem}
use qsl_server.Relay.Tests.{deps, digest, headers, settings, meets, relay}

abbrev later : Meets
later = record meets { now = 9; mono_now = 2000; random = b't' ∷ [] }

abbrev all_of_it : PullQuery
all_of_it = record { max = some 4; ack = none }

-- A relay that has one message on the route.
abbrev posted_once : Relay
posted_once = (push_message (settings none) deps meets headers (1 ∷ 2 ∷ []) relay).1

pull_message-push_message_example :
    let queued = queue (route_key_for digest (b'r' ∷ [])) (swept 100 9 posted_once.db) in
    (pull_message
      (settings none)
      deps
      later
      headers
      all_of_it
      (push_message (settings none) deps later headers (3 ∷ []) posted_once).1).0
    ≡ pulled (map item_of queued ++ (b'i' ∷ [], 3 ∷ []) ∷ [])
unfolding push_message resolve_route_token auth_ok text_eq swept route_key_for
pull_message-push_message_example =
    pull_message-push_message (settings none) deps later later headers headers (3 ∷ []) all_of_it
      posted_once (b'r' ∷ []) (b'i' ∷ []) 4 refl refl refl refl refl refl refl (refl, tt)
      (omega arith) (omega arith) (omega arith) (omega arith)

abbrev create_req : InviteCreateReq
create_req = record {
  invite_id = b'r' ∷ [];
  cap_hash = sha256_hex digest (b'c' ∷ []);
  expiry = at_second 50;
  bundle_b64 = b64_encode (7 ∷ 250 ∷ []);
  invite_sig_b64 = b64_encode (8 ∷ []);
}

abbrev redeem_req : InviteRedeemReq
redeem_req = record { invite_id = b'r' ∷ []; cap = b'c' ∷ [] }

abbrev created : Relay
created = (invite_create (settings none) deps meets (λ b. some create_req) headers (1 ∷ []) relay).1

invite_redeem-invite_create_example :
    (invite_redeem (settings none) deps later (λ b. some redeem_req) headers (1 ∷ []) created).0
    ≡ invite_opened create_req.bundle_b64 create_req.invite_sig_b64 (b't' ∷ [])
unfolding invite_create sha256_hex b64_encode b64_decode text_eq auth_ok clamp_expiry invite_redeem
invite_redeem-invite_create_example =
    invite_redeem-invite_create (settings none) deps meets later (λ b. some create_req)
      (λ b. some redeem_req) headers headers (1 ∷ []) (1 ∷ []) create_req redeem_req (7 ∷ 250 ∷ [])
      (8 ∷ []) 50 relay (b'u' ∷ []) refl refl refl (omega arith, (omega arith, tt))
      (omega arith, tt) refl refl refl (omega arith) refl refl refl refl refl (omega arith)

abbrev with_ticket : HeaderMap
with_ticket = record headers { invite_ticket = some (b't' ∷ []) }

created-IsValid : IsValid created.db
unfolding invite_create sha256_hex b64_encode b64_decode text_eq auth_ok clamp_expiry
created-IsValid = record {
  backed = λ k. refl;
  routes_unique = tt;
  slots_unique = (refl, tt);
  ordered = omega arith;
  tidy = (inl (refl, refl), tt);
}

push_message-invite_redeem_example :
    let opened =
      (invite_redeem
        (settings none)
        deps
        later
        (λ b. some redeem_req)
        headers
        (1 ∷ [])
        created).1 in
    (push_message (settings none) deps later with_ticket (5 ∷ []) opened).0
    ≡ posted (message_id deps later with_ticket)
unfolding invite_create sha256_hex b64_encode b64_decode text_eq auth_ok clamp_expiry invite_redeem
    resolve_route_token trim route_key_for push_of get new_bucket swept
push_message-invite_redeem_example =
    push_message-invite_redeem (settings none) deps later later (λ b. some redeem_req) headers
      with_ticket (1 ∷ []) (5 ∷ []) redeem_req created create_req.bundle_b64
      create_req.invite_sig_b64 (b't' ∷ []) (b't' ∷ []) created-IsValid refl refl refl refl refl
      refl refl refl (omega arith) refl refl refl (λ i found. later_expiry _ 9 refl i found)
      (omega arith) (omega arith) (inr (refl, omega arith))
