-- ===== src/Relay/Published.antt =====
-- A published invite, redeemed.
use qsl_server.Base.{
  ℕ, ◌≤◌, ◌<◌, Text, ◌≡◌, sym, ap, ◌∙◌, Bool, true, false, ◌||◌, Option, some, List, arith, All,
  length, ltb,
}
use qsl_server.Base.Result.{Result, ok}
use qsl_server.Base64.Words.{IsByte}
use qsl_server.Base64.Codec.{b64_encode, b64_decode}
use qsl_server.Base64.RoundTrip.{b64_decode-b64_encode}
use qsl_server.Secrets.Hex.{sha256_hex, route_key_for}
use qsl_server.Secrets.Trim.{is_blank}
use qsl_server.Secrets.Compare.{ct_eq_secret}
use qsl_server.Secrets.Equal.{ct_eq_secret-same}
use qsl_server.Secrets.Headers.{HeaderMap, auth_ok}
use qsl_server.Store.Schema.{InviteRedeemOutcome}
use qsl_server.Store.Transaction.{healthy}
use qsl_server.Store.Invites.{NewInvite, invite_create_tx}
use qsl_server.Store.Invites
use qsl_server.Store.Slots.Once.{redeem-create}
use qsl_server.Relay.State.{
  Settings, Relay, Deps, Meets, invite_created, invite_opened, run_store, invite_redeem_body_cap,
}
use qsl_server.Relay.Slots.{
  InviteCreateReq, InviteRedeemReq, clamp_expiry, invite_create, redeem_reply, redeem_parsed,
  invite_redeem,
}
use qsl_server.Relay.Created.{slot_of, created-Published}

opened_reply :
    (ticket : Text) (result : Result InviteRedeemOutcome) (bundle sig : List ℕ)
    → result ≡ ok (InviteRedeemOutcome.redeemed bundle sig)
    → redeem_reply ticket (run_store result)
      ≡ invite_opened (b64_encode bundle) (b64_encode sig) ticket
unfolding redeem_reply run_store
opened_reply ticket result bundle sig e = rw e

-- What a redemption answers, from what the store answers.
redeem-opened :
    (st : Settings) (deps : Deps) (w : Meets) (parse : List ℕ → Option InviteRedeemReq)
    (headers : HeaderMap) (body : List ℕ) (req : InviteRedeemReq) (r : Relay) (bundle sig : List ℕ)
    → auth_ok deps.sha256 deps.to_str headers st.relay_token ≡ true
    → length body ≤ invite_redeem_body_cap
    → parse body ≡ some req
    → (is_blank req.invite_id || is_blank req.cap) ≡ false
    → (Invites.invite_redeem w.first
        (route_key_for deps.sha256 req.invite_id)
        w.now
        (sha256_hex deps.sha256 w.random)
        (λ stored. ct_eq_secret deps.sha256 (sha256_hex deps.sha256 req.cap) stored)
        r.db).0
      ≡ ok (InviteRedeemOutcome.redeemed bundle sig)
    → (invite_redeem st deps w parse headers body r).0
      ≡ invite_opened (b64_encode bundle) (b64_encode sig) w.random
unfolding invite_redeem redeem_parsed
redeem-opened st deps w parse headers body req r bundle sig auth small p filled e =
    let short : ltb invite_redeem_body_cap (length body) ≡ false = ground arith in
    rw (auth, short, p, filled) (opened_reply w.random _ bundle sig e)

-- What is published is opened. After a create that is answered with a revocation token, and whose
-- two blobs are the encodings of bytes, the redemption that comes next, with no request in between, is
-- answered with the two blobs, spelled as they were published, and a ticket. The redemption passes the
-- bearer check, has a body within the byte limit that parses, names the same invite and is before the
-- expiry that the relay gave the slot; its identifier and its capability are not blank, the hash of the
-- capability is the published one, and its transaction meets no fault.
pub invite_redeem-invite_create :
    (st : Settings) (deps : Deps) (w w' : Meets) (parse : List ℕ → Option InviteCreateReq)
    (parse' : List ℕ → Option InviteRedeemReq) (headers headers' : HeaderMap) (body body' : List ℕ)
    (req : InviteCreateReq) (req' : InviteRedeemReq) (bundle sig : List ℕ) (expiry : ℕ) (r : Relay)
    (token : Text)
    → parse body ≡ some req
    → req.bundle_b64 ≡ b64_encode bundle
    → req.invite_sig_b64 ≡ b64_encode sig
    → All IsByte bundle
    → All IsByte sig
    → clamp_expiry st.invite_limits w.now req.expiry ≡ some expiry
    → (invite_create st deps w parse headers body r).0 ≡ invite_created token
    → auth_ok deps.sha256 deps.to_str headers' st.relay_token ≡ true
    → length body' ≤ invite_redeem_body_cap
    → parse' body' ≡ some req'
    → req'.invite_id ≡ req.invite_id
    → (is_blank req'.invite_id || is_blank req'.cap) ≡ false
    → sha256_hex deps.sha256 req'.cap ≡ req.cap_hash
    → w'.first ≡ healthy
    → w'.now < expiry
    → (invite_redeem st deps w' parse' headers' body'
        (invite_create st deps w parse headers body r).1).0
      ≡ invite_opened req.bundle_b64 req.invite_sig_b64 w'.random
invite_redeem-invite_create st deps w w' parse parse' headers headers' body body' req req' bundle
      sig expiry r token p b s bytes bytes' c e auth small p' same filled cap fine early =
    let n = slot_of deps w req bundle sig expiry in
    let published = (invite_create st deps w parse headers body r).1 in
    let (created, left) =
      created-Published st deps w parse headers body req bundle sig expiry r token p
        (ap b64_decode b ∙ b64_decode-b64_encode bundle bytes)
        (ap b64_decode s ∙ b64_decode-b64_encode sig bytes') c e in
    let check : Text → Bool =
      λ stored. ct_eq_secret deps.sha256 (sha256_hex deps.sha256 req'.cap) stored in
    let good : check req.cap_hash ≡ true =
      ap check (sym cap) ∙ ct_eq_secret-same deps.sha256 (sha256_hex deps.sha256 req'.cap) in
    let opened =
      redeem-create st.store n w.now st.invite_limits.max_slots r.db created w'.now
        (sha256_hex deps.sha256 w'.random) check early good in
    redeem-opened st deps w' parse' headers' body' req' published bundle sig auth small p' filled (
      ap
        (λ f.
          (Invites.invite_redeem f (route_key_for deps.sha256 req'.invite_id) w'.now
            (sha256_hex deps.sha256 w'.random) check published.db).0)
        fine
      ∙ ap
          (λ id.
            (Invites.invite_redeem healthy (route_key_for deps.sha256 id) w'.now
              (sha256_hex deps.sha256 w'.random) check published.db).0)
          same
      ∙ ap
          (λ db.
            (Invites.invite_redeem healthy n.slot_key w'.now (sha256_hex deps.sha256 w'.random)
              check db).0)
          left
      ∙ opened)
    ∙ ap (λ x. invite_opened x (b64_encode sig) w'.random) (sym b)
    ∙ ap (λ x. invite_opened req.bundle_b64 x w'.random) (sym s)
