-- ===== src/Relay/Expiry.antt =====
-- A push to a slot whose time is over, through the whole handler.
use qsl_server.Base.{
  ℕ, Text, ◌≡◌, ◌≢◌, refl, sym, subst, Bool, true, false, Option, some, none, List, [], ◌∷◌, arith,
  All, Bool-cases, inl, inr, delete_where, find_where, Option-cases, All-find_where,
}
use qsl_server.Secrets.Headers.{
  HeaderMap, RouteToken, token, refused, resolve_route_token, missing_route_token, bad_route_token,
}
use qsl_server.Store.Schema.{
  Db, Invite, RouteStatus, SweepStats, EnqueueOutcome, accepted, overloaded, route_cap,
  slot_rejected, SlotReject, invite_is,
}
use qsl_server.Store.Transaction.{Fault, healthy, lock_poisoned, sql_error, transact}
use qsl_server.Store.Sweep.{swept, delete_expired_invites, invite_expired, sweep_expired}
use qsl_server.Store.Status.{route_status, route_status_tx}
use qsl_server.Store.Enqueue.{Push, enqueue, enqueue_tx, enqueue_slot, admit, place, slot_refusal}
use qsl_server.Relay.State.{Settings, Relay, Deps, Meets, Code, Reply, failure, stored, run_store}
use qsl_server.Relay.Buckets.{log_and_prune_sweep, consume_push}
use qsl_server.Relay.Push.{
  push_of, push_reply, push_store, push_rate, push_caps, push_status, push_body, push_message,
}

-- No invite of the table is past its expiry.
abbrev AllLive : ℕ → List Invite → Type 0
AllLive now = All (λ i. invite_expired now i ≡ false)

delete_where-All {ℓ} :
    {A : Type ℓ} (p : A → Bool) (xs : List A) → All (λ a. p a ≡ false) (delete_where p xs)
delete_where-All p [] = tt
delete_where-All p (x ∷ xs) = elim (Bool-cases (p x)) [
  | inl e ↦ rw e (delete_where-All p xs)
  | inr e ↦ rw e (e, delete_where-All p xs)
]

swept-AllLive : (ttl now : ℕ) (db : Db) → AllLive now (swept ttl now db).invites
unfolding swept delete_expired_invites
swept-AllLive ttl now db = delete_where-All (invite_expired now) _

-- The slot that a search finds among live invites is live.
found_live :
    (now : ℕ) (k : Text) (is : List Invite) (i : Invite)
    → AllLive now is
    → find_where (invite_is k) is ≡ some i
    → invite_expired now i ≡ false
found_live now k is i h e = All-find_where _ (invite_is k) is i h e

abbrev Unexpired : EnqueueOutcome → Type 0
Unexpired o = o ≢ slot_rejected SlotReject.expired

place-Unexpired : (p : Push) (db : Db) → Unexpired (place p db).0
unfolding place
place-Unexpired p db = ground arith

refusal-live :
    (p : Push) (i : Invite)
    → invite_expired p.now i ≡ false
    → slot_refusal p i ≢ some SlotReject.expired
unfolding slot_refusal
refusal-live p i h = ground arith

admit-Unexpired :
    (p : Push) (db : Db) (o : Option SlotReject)
    → o ≢ some SlotReject.expired
    → Unexpired (admit p db o).0
unfolding admit
admit-Unexpired p db none h = place-Unexpired p _
admit-Unexpired p db (some SlotReject.expired) h = absurd (h refl)
admit-Unexpired p db (some SlotReject.revoked) h = ground arith
admit-Unexpired p db (some SlotReject.ticket_invalid) h = ground arith

-- An `enqueue` at a time at which every invite is live never answers that the slot expired.
enqueue_tx-Unexpired :
    (p : Push) (db : Db) → AllLive p.now db.invites → Unexpired (enqueue_tx p db).0
unfolding enqueue_tx enqueue_slot
enqueue_tx-Unexpired p db h = elim (Option-cases (find_where (invite_is p.route_key) db.invites)) [
  | inl e ↦ rw e (place-Unexpired p db)
  | inr (i, e) ↦ rw e (
      admit-Unexpired p db (slot_refusal p i)
        (refusal-live p i (found_live p.now p.route_key db.invites i h e)))
]

abbrev Silent : Reply → Type 0
Silent reply = reply ≢ failure 410 Code.err_invite_expired

reply-Silent :
    (lock_ok : Bool) (p : Push) (o : EnqueueOutcome) (r : Relay)
    → Unexpired o
    → Silent (push_reply lock_ok p (stored o) r).0
unfolding push_reply
reply-Silent lock_ok p accepted r h = ground arith
reply-Silent lock_ok p (overloaded d) r h = ground arith
reply-Silent lock_ok p (route_cap d) r h = ground arith
reply-Silent lock_ok p (slot_rejected SlotReject.expired) r h = absurd (h refl)
reply-Silent lock_ok p (slot_rejected SlotReject.revoked) r h = ground arith
reply-Silent lock_ok p (slot_rejected SlotReject.ticket_invalid) r h = ground arith

enqueue-Silent :
    (lock_ok : Bool) (f : Fault) (p : Push) (db : Db) (r : Relay)
    → AllLive p.now db.invites
    → Silent (push_reply lock_ok p (run_store (enqueue f p db).0) r).0
unfolding enqueue transact run_store push_reply
enqueue-Silent lock_ok healthy p db r h =
    reply-Silent lock_ok p (enqueue_tx p db).0 r (enqueue_tx-Unexpired p db h)
enqueue-Silent lock_ok lock_poisoned p db r h = ground arith
enqueue-Silent lock_ok (sql_error e) p db r h = ground arith

push_store-Silent :
    (w : Meets) (p : Push) (r : Relay) → AllLive p.now r.db.invites → Silent (push_store w p r).0
unfolding push_store
push_store-Silent w p r h = enqueue-Silent w.lock_ok w.second p r.db _ h

push_rate-Silent :
    (st : Settings) (w : Meets) (p : Push) (r : Relay)
    → AllLive p.now r.db.invites
    → Silent (push_rate st w p r).0
unfolding push_rate consume_push
push_rate-Silent st w p r h =
    ground (arith, push_store-Silent w p (consume_push st.controls w.mono_now p.route_key r).1 h)

pruned-AllLive :
    (lock_ok : Bool) (stats : SweepStats) (now : ℕ) (r : Relay)
    → AllLive now r.db.invites
    → AllLive now (log_and_prune_sweep lock_ok stats r).db.invites
unfolding log_and_prune_sweep
pruned-AllLive true stats now r h = h
pruned-AllLive false stats now r h = h

push_caps-Silent :
    (st : Settings) (w : Meets) (p : Push) (status : RouteStatus) (r : Relay)
    → AllLive p.now r.db.invites
    → Silent (push_caps st w p (stored status) r).0
unfolding push_caps
push_caps-Silent st w p status r h =
    let after = log_and_prune_sweep w.lock_ok status.sweep r in
    let rate = push_rate-Silent st w p after (pruned-AllLive w.lock_ok status.sweep p.now r h) in
    ground (arith, rate)

status-Silent :
    (st : Settings) (w : Meets) (p : Push) (f : Fault) (r : Relay)
    → p.now ≡ w.now
    → let result = route_status f st.store p.route_key w.now r.db in
      Silent (push_caps st w p (run_store result.0) (record r { db = result.1 })).0
unfolding route_status route_status_tx sweep_expired transact run_store push_caps
status-Silent st w p healthy r e =
    push_caps-Silent st w p (route_status_tx st.store p.route_key w.now r.db).0
      (record r { db = swept st.store.retention_ttl_secs w.now r.db })
      (subst (λ now. AllLive now (swept st.store.retention_ttl_secs w.now r.db).invites) (sym e)
        (swept-AllLive st.store.retention_ttl_secs w.now r.db))
status-Silent st w p lock_poisoned r e = ground arith
status-Silent st w p (sql_error m) r e = ground arith

push_body-Silent :
    (st : Settings) (deps : Deps) (w : Meets) (headers : HeaderMap) (body : List ℕ) (t : RouteToken)
    (r : Relay)
    → Silent (push_body st deps w headers body t r).0
unfolding push_body push_status push_of
push_body-Silent st deps w headers body (refused missing_route_token) r = ground arith
push_body-Silent st deps w headers body (refused bad_route_token) r = ground arith
push_body-Silent st deps w headers body (token channel) r =
    ground (arith, status-Silent st w (push_of st deps w headers body channel) w.first r refl)

-- A push that no other request interrupts never answers ERR_INVITE_EXPIRED, whatever the relay holds
-- and whatever faults the push meets: the sweep of its own status call deletes an expired slot before
-- `enqueue` looks for it.
pub push_message-never_expired :
    (st : Settings) (deps : Deps) (w : Meets) (headers : HeaderMap) (body : List ℕ) (r : Relay)
    → (push_message st deps w headers body r).0 ≢ failure 410 Code.err_invite_expired
unfolding push_message
push_message-never_expired st deps w headers body r =
    ground
      (arith, push_body-Silent st deps w headers body (resolve_route_token deps.to_str headers) r)
