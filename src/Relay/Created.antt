-- ===== src/Relay/Created.antt =====
-- What a create that is answered with a token leaves of the tables.
use qsl_server.Base.{ℕ, Text, ◌≡◌, refl, sym, ap, ◌∙◌, Option, some, List, arith}
use qsl_server.Base.Result.{Result, ok, err}
use qsl_server.Base64.Codec.{b64_decode}
use qsl_server.Secrets.Hex.{sha256_hex, route_key_for, channel_log_id}
use qsl_server.Secrets.Headers.{HeaderMap}
use qsl_server.Store.Schema.{Db, InviteCreateOutcome}
use qsl_server.Store.Transaction.{Fault, healthy, lock_poisoned, sql_error, transact}
use qsl_server.Store.Invites.{NewInvite, invite_create_tx}
use qsl_server.Store.Invites
use qsl_server.Rate.Bucket.{try_consume}
use qsl_server.Relay.State.{Settings, Relay, Deps, Meets, invite_created, run_store}
use qsl_server.Relay.Buckets.{invite_bucket_controls}
use qsl_server.Relay.Slots.{
  InviteCreateReq, clamp_expiry, create_reply, create_store, create_expiry, create_blobs,
  create_parsed, create_rate, invite_create,
}

-- What an answered create leaves of the tables.
abbrev pub Published : Settings → Meets → NewInvite → Db → Db → Type 0
Published st w n before after =
    ((Invites.invite_create healthy st.store n w.now st.invite_limits.max_slots before).0
      ≡ ok InviteCreateOutcome.created)
    × (after ≡ (Invites.invite_create healthy st.store n w.now st.invite_limits.max_slots before).1)

created_reply :
    (revoke_token token : Text) (result : Result InviteCreateOutcome) (r : Relay)
    → (create_reply revoke_token (run_store result) r).0 ≡ invite_created token
    → (result ≡ ok InviteCreateOutcome.created)
      × ((create_reply revoke_token (run_store result) r).1.db ≡ r.db)
unfolding create_reply run_store
created_reply rt token (ok InviteCreateOutcome.created) r e = (refl, refl)
created_reply rt token (ok InviteCreateOutcome.duplicate) r e = cc
created_reply rt token (ok (InviteCreateOutcome.cap_full n)) r e = cc
created_reply rt token (err m) r e = cc

healthy_create :
    (st : Settings) (w : Meets) (n : NewInvite) (f : Fault) (db : Db)
    → (Invites.invite_create f st.store n w.now st.invite_limits.max_slots db).0
      ≡ ok InviteCreateOutcome.created
    → f ≡ healthy
unfolding Invites.invite_create transact
healthy_create st w n healthy db e = refl
healthy_create st w n lock_poisoned db e = cc
healthy_create st w n (sql_error m) db e = cc

store-Published :
    (st : Settings) (deps : Deps) (w : Meets) (n : NewInvite) (r : Relay) (token : Text)
    → (create_store st deps w n r).0 ≡ invite_created token
    → Published st w n r.db (create_store st deps w n r).1.db
unfolding create_store
store-Published st deps w n r token e =
    let result = Invites.invite_create w.first st.store n w.now st.invite_limits.max_slots r.db in
    let (created, same) = created_reply w.random token result.0 (record r { db = result.1 }) e in
    let fine = healthy_create st w n w.first r.db created in
    (
      ap (λ f. (Invites.invite_create f st.store n w.now st.invite_limits.max_slots r.db).0)
            (sym fine)
          ∙ created,
      same
          ∙ ap (λ f. (Invites.invite_create f st.store n w.now st.invite_limits.max_slots r.db).1)
              fine,
    )

-- The slot that the request publishes, with its blobs decoded.
abbrev pub slot_of : Deps → Meets → InviteCreateReq → List ℕ → List ℕ → ℕ → NewInvite
slot_of deps w req bundle sig expiry = record {
  slot_key = route_key_for deps.sha256 req.invite_id;
  log_id = channel_log_id req.invite_id;
  cap_hash = req.cap_hash;
  revoke_hash = sha256_hex deps.sha256 w.random;
  bundle = bundle;
  invite_sig = sig;
  expiry = expiry;
}

expiry-Published :
    (st : Settings) (deps : Deps) (w : Meets) (req : InviteCreateReq) (bundle sig : List ℕ)
    (expiry : ℕ) (r : Relay) (token : Text)
    → (create_expiry st deps w req bundle sig (some expiry) r).0 ≡ invite_created token
    → Published st w
        (slot_of deps w req bundle sig expiry)
        r.db
        (create_expiry st deps w req bundle sig (some expiry) r).1.db
unfolding create_expiry
expiry-Published st deps w req bundle sig expiry r token e =
    store-Published st deps w (slot_of deps w req bundle sig expiry) r token e

blobs-Published :
    (st : Settings) (deps : Deps) (w : Meets) (req : InviteCreateReq) (bundle sig : List ℕ)
    (expiry : ℕ) (r : Relay) (token : Text)
    → clamp_expiry st.invite_limits w.now req.expiry ≡ some expiry
    → (create_blobs st deps w req (some bundle) (some sig) r).0 ≡ invite_created token
    → Published st w
        (slot_of deps w req bundle sig expiry)
        r.db
        (create_blobs st deps w req (some bundle) (some sig) r).1.db
unfolding create_blobs
blobs-Published st deps w req bundle sig expiry r token c e =
    ground (arith, c, expiry-Published st deps w req bundle sig expiry r token)

rate-Published :
    (st : Settings) (deps : Deps) (w : Meets) (req : InviteCreateReq) (bundle sig : List ℕ)
    (expiry : ℕ) (r : Relay) (token : Text)
    → b64_decode req.bundle_b64 ≡ some bundle
    → b64_decode req.invite_sig_b64 ≡ some sig
    → clamp_expiry st.invite_limits w.now req.expiry ≡ some expiry
    → (create_rate st deps w (some req) r).0 ≡ invite_created token
    → Published st w
        (slot_of deps w req bundle sig expiry)
        r.db
        (create_rate st deps w (some req) r).1.db
unfolding create_rate create_parsed
rate-Published st deps w req bundle sig expiry r token b s c e =
    let bucket =
      (try_consume (invite_bucket_controls st.invite_limits) w.mono_now r.invite_create_rate).1 in
    ground (
      arith,
      b,
      s,
      blobs-Published st deps w req bundle sig expiry (record r { invite_create_rate = bucket })
          token c,
    )

pub created-Published :
    (st : Settings) (deps : Deps) (w : Meets) (parse : List ℕ → Option InviteCreateReq)
    (headers : HeaderMap) (body : List ℕ) (req : InviteCreateReq) (bundle sig : List ℕ) (expiry : ℕ)
    (r : Relay) (token : Text)
    → parse body ≡ some req
    → b64_decode req.bundle_b64 ≡ some bundle
    → b64_decode req.invite_sig_b64 ≡ some sig
    → clamp_expiry st.invite_limits w.now req.expiry ≡ some expiry
    → (invite_create st deps w parse headers body r).0 ≡ invite_created token
    → Published st w
        (slot_of deps w req bundle sig expiry)
        r.db
        (invite_create st deps w parse headers body r).1.db
unfolding invite_create
created-Published st deps w parse headers body req bundle sig expiry r token p b s c e =
    ground (arith, p, rate-Published st deps w req bundle sig expiry r token b s c)
