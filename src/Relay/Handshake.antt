-- ===== src/Relay/Handshake.antt =====
-- A redemption, and the push that its ticket admits.
use qsl_server.Base.{
  ℕ, ◌≤◌, ◌<◌, Text, ◌≡◌, ◌≢◌, refl, sym, ap, subst, ◌∙◌, Bool, true, false, ◌||◌, if◌then◌else◌,
  Option, some, List, arith, length, ltb, find_where, All-find_where,
}
use qsl_server.Base.Result.{Result, ok, err, ok-inj}
use qsl_server.Secrets.Hex.{sha256_hex, route_key_for}
use qsl_server.Secrets.Trim.{trim, is_blank, is_empty}
use qsl_server.Secrets.Compare.{ct_eq_secret}
use qsl_server.Secrets.Equal.{ct_eq_secret-same}
use qsl_server.Secrets.Headers.{HeaderMap, auth_ok, header_text, token, resolve_route_token}
use qsl_server.Store.Schema.{Db, Invite, InviteRedeemOutcome, invite_is}
use qsl_server.Store.Transaction.{Fault, healthy, lock_poisoned, sql_error, transact}
use qsl_server.Store.Sweep.{swept}
use qsl_server.Store.Invites.{consume}
use qsl_server.Store.Invites
use qsl_server.Store.Valid.Invariant.{IsValid, Tidy}
use qsl_server.Store.Slots.Opened.{redeemed_slot, Tidy-active, consumed_slot}
use qsl_server.Store.Queue.Push.{HasRoom}
use qsl_server.Relay.State.{
  Settings, Relay, Deps, Meets, Code, Reply, failure, posted, invite_opened, run_store,
}
use qsl_server.Relay.Slots.{InviteRedeemReq, redeem_reply, redeem_parsed, invite_redeem}
use qsl_server.Relay.Push.{
  push_of, push_status, push_body, push_message, message_id, ticket_verifier,
}
use qsl_server.Relay.Admitted.{HasToken, find-swept, ticket_accepted, status-posted}

-- What an opened slot's row was, and is.
abbrev Opened : Text → ℕ → Text → Db → Db → Type 0
Opened k now ticket before after =
    (i : Invite) × (find_where (invite_is k) before.invites ≡ some i)
    × (find_where (invite_is k) after.invites ≡ some (consume now ticket i))

store-Opened :
    (f : Fault) (k : Text) (now : ℕ) (th : Text) (verify : Text → Bool) (db : Db)
    (bundle sig : List ℕ)
    → IsValid db
    → (Invites.invite_redeem f k now th verify db).0 ≡ ok (InviteRedeemOutcome.redeemed bundle sig)
    → Opened k now th db (Invites.invite_redeem f k now th verify db).1
unfolding Invites.invite_redeem transact
store-Opened healthy k now th verify db b s v h =
    let (i, found, nc, nr, e) =
      redeemed_slot k now th verify db (find_where (invite_is k) db.invites) b s (ok-inj h) in
    let active =
      Tidy-active i (All-find_where Tidy (invite_is k) db.invites i v.tidy found) nc nr in
    (
      i,
      found,
      ap (λ (after : Db). find_where (invite_is k) after.invites) e
          ∙ consumed_slot k now th db i found active,
    )
store-Opened lock_poisoned k now th verify db b s v h = cc
store-Opened (sql_error m) k now th verify db b s v h = cc

reply_opened :
    (ticket ticket' bundle_b64 sig_b64 : Text) (result : Result InviteRedeemOutcome)
    → redeem_reply ticket (run_store result) ≡ invite_opened bundle_b64 sig_b64 ticket'
    → (ticket ≡ ticket')
      × (bundle : List ℕ) × (sig : List ℕ) × (result ≡ ok (InviteRedeemOutcome.redeemed bundle sig))
unfolding redeem_reply run_store
reply_opened t t' b s (ok (InviteRedeemOutcome.redeemed bundle sig)) e = (cc, bundle, sig, refl)
reply_opened t t' b s (ok InviteRedeemOutcome.not_found) e = cc
reply_opened t t' b s (ok InviteRedeemOutcome.revoked) e = cc
reply_opened t t' b s (ok InviteRedeemOutcome.expired) e = cc
reply_opened t t' b s (ok InviteRedeemOutcome.already_used) e = cc
reply_opened t t' b s (ok InviteRedeemOutcome.cap_invalid) e = cc
reply_opened t t' b s (err m) e = cc

-- A guard whose refusal is another reply was passed.
passed :
    (refuses : Bool) (refusal rest : Reply × Relay) (reply : Reply)
    → refusal.0 ≢ reply
    → (if refuses then refusal else rest).0 ≡ reply
    → (if refuses then refusal else rest) ≡ rest
passed true refusal rest reply other e = absurd (other e)
passed false refusal rest reply other e = refl

parsed-Opened :
    (deps : Deps) (w : Meets) (req : InviteRedeemReq) (r : Relay) (b s ticket : Text)
    → IsValid r.db
    → (redeem_parsed deps w (some req) r).0 ≡ invite_opened b s ticket
    → Opened
        (route_key_for deps.sha256 req.invite_id)
        w.now
        (sha256_hex deps.sha256 ticket)
        r.db
        (redeem_parsed deps w (some req) r).1.db
unfolding redeem_parsed
parsed-Opened deps w req r b s ticket v e =
    let k = route_key_for deps.sha256 req.invite_id in
    let th = sha256_hex deps.sha256 w.random in
    let check : Text → Bool =
      λ stored. ct_eq_secret deps.sha256 (sha256_hex deps.sha256 req.cap) stored in
    let result = Invites.invite_redeem w.first k w.now th check r.db in
    let refusal : Reply × Relay = (failure 400 Code.err_invite_bad_body, r) in
    let rest : Reply × Relay =
      (redeem_reply w.random (run_store result.0), record r { db = result.1 }) in
    let same =
      passed (is_blank req.invite_id || is_blank req.cap) refusal rest (invite_opened b s ticket)
        (λ x. cc) e in
    let answered : rest.0 ≡ invite_opened b s ticket =
      sym (ap (λ (x : Reply × Relay). x.0) same) ∙ e in
    let (named, bundle, sig, returned) = reply_opened w.random ticket b s result.0 answered in
    let opened : Opened k w.now th r.db result.1 =
      store-Opened w.first k w.now th check r.db bundle sig v returned in
    subst (λ (x : Reply × Relay). Opened k w.now (sha256_hex deps.sha256 ticket) r.db x.1.db)
      (sym same) (subst (λ t. Opened k w.now (sha256_hex deps.sha256 t) r.db result.1) named opened)

-- A redemption that is answered with a ticket recorded the ticket's hash.
redeemed-Opened :
    (st : Settings) (deps : Deps) (w : Meets) (parse : List ℕ → Option InviteRedeemReq)
    (headers : HeaderMap) (body : List ℕ) (req : InviteRedeemReq) (r : Relay) (b s ticket : Text)
    → IsValid r.db
    → parse body ≡ some req
    → (invite_redeem st deps w parse headers body r).0 ≡ invite_opened b s ticket
    → Opened
        (route_key_for deps.sha256 req.invite_id)
        w.now
        (sha256_hex deps.sha256 ticket)
        r.db
        (invite_redeem st deps w parse headers body r).1.db
unfolding invite_redeem
redeemed-Opened st deps w parse headers body req r b s ticket v p e =
    ground (arith, p, parsed-Opened deps w req r b s ticket v)

presented :
    (deps : Deps) (headers : HeaderMap) (sent : Text)
    → header_text deps.to_str headers.invite_ticket ≡ some sent
    → is_empty (trim sent) ≡ false
    → ticket_verifier deps headers
      ≡ some (λ stored. ct_eq_secret deps.sha256 (sha256_hex deps.sha256 (trim sent)) stored)
unfolding ticket_verifier
presented deps headers sent h e = rw (h, e)

-- What the handler answers behind its first checks.
checked :
    (st : Settings) (deps : Deps) (w : Meets) (headers : HeaderMap) (body : List ℕ) (channel : Text)
    (r : Relay)
    → auth_ok deps.sha256 deps.to_str headers st.relay_token ≡ true
    → resolve_route_token deps.to_str headers ≡ token channel
    → is_empty body ≡ false
    → length body ≤ st.limits.max_body_bytes
    → push_message st deps w headers body r
      ≡ push_status st w (push_of st deps w headers body channel) r
unfolding push_message push_body
checked st deps w headers body channel r auth tok full small =
    let short : ltb st.limits.max_body_bytes (length body) ≡ false = ground arith in
    rw (auth, tok, full, short)

-- A ticket opens the route. In a relay with well-formed tables, after a redemption that is answered with
-- a ticket, a push with the invite's identifier for its route token and with that ticket is answered
-- with its own identifier: if no other request comes between or interrupts it, it passes the bearer
-- check, has a body within the limit, comes before the slot's expiry, meets no fault, the bucket of the
-- route has a token, and the caps leave room once the tables are swept.
pub push_message-invite_redeem :
    (st : Settings) (deps : Deps) (w w' : Meets) (parse : List ℕ → Option InviteRedeemReq)
    (headers headers' : HeaderMap) (body body' : List ℕ) (req : InviteRedeemReq) (r : Relay)
    (b s ticket sent : Text)
    → IsValid r.db
    → parse body ≡ some req
    → (invite_redeem st deps w parse headers body r).0 ≡ invite_opened b s ticket
    → auth_ok deps.sha256 deps.to_str headers' st.relay_token ≡ true
    → resolve_route_token deps.to_str headers' ≡ token req.invite_id
    → header_text deps.to_str headers'.invite_ticket ≡ some sent
    → trim sent ≡ ticket
    → is_empty ticket ≡ false
    → is_empty body' ≡ false
    → length body' ≤ st.limits.max_body_bytes
    → w'.lock_ok ≡ true
    → w'.first ≡ healthy
    → w'.second ≡ healthy
    → ((i : Invite)
        → find_where (invite_is (route_key_for deps.sha256 req.invite_id)) r.db.invites ≡ some i
        → w'.now < i.expiry)
    → 0 < st.controls.push_rate_burst
    → let after = (invite_redeem st deps w parse headers body r).1 in
      let p = push_of st deps w' headers' body' req.invite_id in
      HasToken st.controls w'.mono_now p.route_key after.push_rates
      → HasRoom p (swept st.store.retention_ttl_secs w'.now after.db)
      → (push_message st deps w' headers' body' after).0 ≡ posted (message_id deps w' headers')
unfolding push_of
push_message-invite_redeem st deps w w' parse headers headers' body body' req r b s ticket sent v p
      e auth tok header trimmed filled full small locked fine fine' early pos has_token room =
    let after = (invite_redeem st deps w parse headers body r).1 in
    let q = push_of st deps w' headers' body' req.invite_id in
    let (i, found, opened) = redeemed-Opened st deps w parse headers body req r b s ticket v p e in
    let lasts =
      find-swept q.route_key st.store.retention_ttl_secs w'.now after.db _ opened (early i found) in
    let th = sha256_hex deps.sha256 ticket in
    let check : Text → Bool =
      λ stored. ct_eq_secret deps.sha256 (sha256_hex deps.sha256 (trim sent)) stored in
    let good : check th ≡ true =
      ap (λ t. check (sha256_hex deps.sha256 t)) (sym trimmed)
      ∙ ct_eq_secret-same deps.sha256 (sha256_hex deps.sha256 (trim sent)) in
    let accepted =
      ticket_accepted q (swept st.store.retention_ttl_secs w'.now after.db) (consume w.now th i)
        check th lasts refl (early i found) refl
        (presented deps headers' sent header (ap is_empty trimmed ∙ filled)) good room in
    ap (λ (x : Reply × Relay). x.0)
      (checked st deps w' headers' body' req.invite_id after auth tok full small)
    ∙ status-posted st w' q after locked fine fine' refl refl pos has_token room accepted
