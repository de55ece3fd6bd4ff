-- ===== src/Relay/Steps/Inviting.antt =====
-- The three invite handlers as accesses to the shared state.
use qsl_server.Base.{ℕ, Text, ◌≡◌, true, refl, Option, some, none, List, arith}
use qsl_server.Base64.Codec.{b64_decode}
use qsl_server.Secrets.Headers.{HeaderMap}
use qsl_server.Secrets.Hex.{route_key_for, sha256_hex, is_hex, is_hex-route_key_for}
use qsl_server.Secrets.Compare.{ct_eq_secret}
use qsl_server.Store.Schema.{InviteCreateOutcome}
use qsl_server.Store.Invites
use qsl_server.Store.Invites.{NewInvite}
use qsl_server.Store.Calls.{creates, redeems, revokes}
use qsl_server.Relay.State.{Settings, Relay, Deps, Meets, Stored, stored, store_failed, run_store}
use qsl_server.Relay.Actions.{Action, transaction, take_create, act, Allowed}
use qsl_server.Relay.Slots.{
  InviteCreateReq, InviteRedeemReq, InviteRevokeReq, clamp_expiry, create_reply, create_store,
  create_expiry, create_blobs, create_parsed, create_rate, invite_create, redeem_parsed,
  invite_redeem, revoke_parsed, invite_revoke,
}

module _ (st : Settings) (P : Relay → Type 0)
    (keep : (a : Action) (r : Relay) → Allowed st a → P r → P (act st a r)) where
  create_reply-keeps :
      (t : Text) (o : Stored InviteCreateOutcome) (r : Relay) → P r → P (create_reply t o r).1
  unfolding create_reply
  create_reply-keeps t store_failed r h = h
  create_reply-keeps t (stored InviteCreateOutcome.created) r h = h
  create_reply-keeps t (stored InviteCreateOutcome.duplicate) r h = h
  create_reply-keeps t (stored (InviteCreateOutcome.cap_full n)) r h = h

  create_store-keeps :
      (deps : Deps) (w : Meets) (n : NewInvite) (r : Relay)
      → is_hex n.slot_key ≡ true
      → P r
      → P (create_store st deps w n r).1
  unfolding create_store act
  create_store-keeps deps w n r hexed h =
      create_reply-keeps w.random
        (run_store
          (Invites.invite_create w.first st.store n w.now st.invite_limits.max_slots r.db).0)
        _
        (keep (transaction w.first (creates n w.now st.invite_limits.max_slots)) r (refl, hexed) h)

  create_expiry-keeps :
      (deps : Deps) (w : Meets) (req : InviteCreateReq) (bundle sig : List ℕ) (expiry : Option ℕ)
      (r : Relay)
      → P r
      → P (create_expiry st deps w req bundle sig expiry r).1
  unfolding create_expiry
  create_expiry-keeps deps w req bundle sig none r h = h
  create_expiry-keeps deps w req bundle sig (some expiry) r h =
      create_store-keeps deps w _ r (is_hex-route_key_for deps.sha256 req.invite_id) h

  create_blobs-keeps :
      (deps : Deps) (w : Meets) (req : InviteCreateReq) (bundle sig : Option (List ℕ)) (r : Relay)
      → P r
      → P (create_blobs st deps w req bundle sig r).1
  unfolding create_blobs
  create_blobs-keeps deps w req none sig r h = h
  create_blobs-keeps deps w req (some bundle) none r h = h
  create_blobs-keeps deps w req (some bundle) (some sig) r h = ground (
    arith,
    create_expiry-keeps deps w req bundle sig (clamp_expiry st.invite_limits w.now req.expiry) r h,
  )

  create_parsed-keeps :
      (deps : Deps) (w : Meets) (req : Option InviteCreateReq) (r : Relay)
      → P r
      → P (create_parsed st deps w req r).1
  unfolding create_parsed
  create_parsed-keeps deps w none r h = h
  create_parsed-keeps deps w (some req) r h = ground (
    arith,
    create_blobs-keeps deps w req (b64_decode req.bundle_b64) (b64_decode req.invite_sig_b64) r h,
  )

  create_rate-keeps :
      (deps : Deps) (w : Meets) (req : Option InviteCreateReq) (r : Relay)
      → P r
      → P (create_rate st deps w req r).1
  unfolding create_rate act
  create_rate-keeps deps w req r h =
      let taken = keep (take_create w.mono_now) r tt h in
      ground
        (arith, taken, create_parsed-keeps deps w req (act st (take_create w.mono_now) r) taken)

  pub invite_create-keeps :
      (deps : Deps) (w : Meets) (parse : List ℕ → Option InviteCreateReq) (headers : HeaderMap)
      (body : List ℕ) (r : Relay)
      → P r
      → P (invite_create st deps w parse headers body r).1
  unfolding invite_create
  invite_create-keeps deps w parse headers body r h =
      ground (arith, create_rate-keeps deps w (parse body) r h)

  redeem_parsed-keeps :
      (deps : Deps) (w : Meets) (req : Option InviteRedeemReq) (r : Relay)
      → P r
      → P (redeem_parsed deps w req r).1
  unfolding redeem_parsed act
  redeem_parsed-keeps deps w none r h = h
  redeem_parsed-keeps deps w (some req) r h =
      let after =
        keep
          (transaction w.first (
            redeems (route_key_for deps.sha256 req.invite_id) w.now
              (sha256_hex deps.sha256 w.random)
              (λ stored. ct_eq_secret deps.sha256 (sha256_hex deps.sha256 req.cap) stored)))
          r (tt, tt) h in
      ground (arith, after)

  pub invite_redeem-keeps :
      (deps : Deps) (w : Meets) (parse : List ℕ → Option InviteRedeemReq) (headers : HeaderMap)
      (body : List ℕ) (r : Relay)
      → P r
      → P (invite_redeem st deps w parse headers body r).1
  unfolding invite_redeem
  invite_redeem-keeps deps w parse headers body r h =
      ground (arith, redeem_parsed-keeps deps w (parse body) r h)

  revoke_parsed-keeps :
      (deps : Deps) (w : Meets) (req : Option InviteRevokeReq) (r : Relay)
      → P r
      → P (revoke_parsed deps w req r).1
  unfolding revoke_parsed act
  revoke_parsed-keeps deps w none r h = h
  revoke_parsed-keeps deps w (some req) r h =
      let after =
        keep
          (transaction w.first (
            revokes (route_key_for deps.sha256 req.invite_id) (λ stored.
              ct_eq_secret deps.sha256 (sha256_hex deps.sha256 req.revoke_token) stored)))
          r (tt, tt) h in
      ground (arith, after)

  pub invite_revoke-keeps :
      (deps : Deps) (w : Meets) (parse : List ℕ → Option InviteRevokeReq) (headers : HeaderMap)
      (body : List ℕ) (r : Relay)
      → P r
      → P (invite_revoke st deps w parse headers body r).1
  unfolding invite_revoke
  invite_revoke-keeps deps w parse headers body r h =
      ground (arith, revoke_parsed-keeps deps w (parse body) r h)
