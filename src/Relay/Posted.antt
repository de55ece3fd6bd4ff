-- ===== src/Relay/Posted.antt =====
-- What a push that gets the reply of status 200 left in the store.
use qsl_server.Base.{ℕ, Text, ◌≡◌, refl, subst, Bool, true, false, List, [], ◌∷◌, ◌++◌, arith}
use qsl_server.Base.Result.{Result, ok, err}
use qsl_server.Secrets.Headers.{HeaderMap, token, resolve_route_token}
use qsl_server.Store.Schema.{
  Db, RouteStatus, EnqueueOutcome, accepted, overloaded, route_cap, slot_rejected, SlotReject,
}
use qsl_server.Store.Transaction.{Fault, healthy, lock_poisoned, sql_error, transact}
use qsl_server.Store.Sweep.{swept, sweep_expired}
use qsl_server.Store.Status.{route_status, route_status_tx}
use qsl_server.Store.Enqueue.{Push, enqueue}
use qsl_server.Store.Queue.View.{queue}
use qsl_server.Store.Queue.Push.{enqueue-appends, new_message}
use qsl_server.Relay.State.{Settings, Relay, Deps, Meets, posted, stored, run_store}
use qsl_server.Relay.Buckets.{log_and_prune_sweep, consume_push}
use qsl_server.Relay.Push.{
  push_of, push_reply, push_store, push_rate, push_caps, push_status, push_body, push_message,
}

-- The identifier is the message's, and the queue of the push's route is that of `before` with the
-- message behind it.
abbrev Kept : Push → Text → Db → Db → Type 0
Kept p id before after =
    (id ≡ p.msg_id)
    × (queue p.route_key after ≡ queue p.route_key before ++ new_message p before ∷ [])

reply-Kept :
    (lock_ok : Bool) (p : Push) (before : Db) (result : Result EnqueueOutcome) (r : Relay)
    (id : Text)
    → (result ≡ ok accepted
        → queue p.route_key r.db ≡ queue p.route_key before ++ new_message p before ∷ [])
    → (push_reply lock_ok p (run_store result) r).0 ≡ posted id
    → Kept p id before (push_reply lock_ok p (run_store result) r).1.db
unfolding push_reply run_store
reply-Kept lock_ok p before (ok accepted) r id h e = (cc, h refl)
reply-Kept lock_ok p before (ok (overloaded d)) r id h e = cc
reply-Kept lock_ok p before (ok (route_cap d)) r id h e = cc
reply-Kept lock_ok p before (ok (slot_rejected SlotReject.expired)) r id h e = cc
reply-Kept lock_ok p before (ok (slot_rejected SlotReject.revoked)) r id h e = cc
reply-Kept lock_ok p before (ok (slot_rejected SlotReject.ticket_invalid)) r id h e = cc
reply-Kept lock_ok p before (err m) r id h e = cc

store-Kept :
    (w : Meets) (p : Push) (r : Relay) (id : Text)
    → (push_store w p r).0 ≡ posted id
    → Kept p id r.db (push_store w p r).1.db
unfolding push_store
store-Kept w p r id e =
    reply-Kept w.lock_ok p r.db (enqueue w.second p r.db).0
      (record r { db = (enqueue w.second p r.db).1 }) id
      (λ h. (enqueue-appends w.second p r.db h).0) e

rate-Kept :
    (st : Settings) (w : Meets) (p : Push) (r : Relay) (id : Text)
    → (push_rate st w p r).0 ≡ posted id
    → Kept p id r.db (push_rate st w p r).1.db
unfolding push_rate consume_push
rate-Kept st w p r id e =
    ground (arith, store-Kept w p (consume_push st.controls w.mono_now p.route_key r).1 id)

pub pruned_db :
    (lock_ok : Bool) (status : RouteStatus) (r : Relay)
    → (log_and_prune_sweep lock_ok status.sweep r).db ≡ r.db
unfolding log_and_prune_sweep
pruned_db true status r = refl
pruned_db false status r = refl

caps-Kept :
    (st : Settings) (w : Meets) (p : Push) (status : RouteStatus) (r : Relay) (id : Text)
    → (push_caps st w p (stored status) r).0 ≡ posted id
    → Kept p id r.db (push_caps st w p (stored status) r).1.db
unfolding push_caps
caps-Kept st w p status r id e =
    let after = log_and_prune_sweep w.lock_ok status.sweep r in
    let same = pruned_db w.lock_ok status r in
    subst (λ before. Kept p id before (push_caps st w p (stored status) r).1.db) same
      (ground (arith, rate-Kept st w p after id))

status-Kept :
    (st : Settings) (w : Meets) (p : Push) (f : Fault) (r : Relay) (id : Text)
    → let result = route_status f st.store p.route_key w.now r.db in
      (push_caps st w p (run_store result.0) (record r { db = result.1 })).0 ≡ posted id
      → Kept p id
          (swept st.store.retention_ttl_secs w.now r.db)
          (push_caps st w p (run_store result.0) (record r { db = result.1 })).1.db
unfolding route_status route_status_tx sweep_expired transact run_store push_caps
status-Kept st w p healthy r id e =
    caps-Kept st w p (route_status_tx st.store p.route_key w.now r.db).0
      (record r { db = swept st.store.retention_ttl_secs w.now r.db }) id e
status-Kept st w p lock_poisoned r id e = cc
status-Kept st w p (sql_error m) r id e = cc

body-Kept :
    (st : Settings) (deps : Deps) (w : Meets) (headers : HeaderMap) (body : List ℕ) (channel : Text)
    (r : Relay) (id : Text)
    → (push_body st deps w headers body (token channel) r).0 ≡ posted id
    → Kept
        (push_of st deps w headers body channel)
        id
        (swept st.store.retention_ttl_secs w.now r.db)
        (push_body st deps w headers body (token channel) r).1.db
unfolding push_body push_status
body-Kept st deps w headers body channel r id e =
    ground (arith, status-Kept st w (push_of st deps w headers body channel) w.first r id)

-- A push whose route token is `channel`, that no other request interrupts and that is answered with an
-- identifier, left its message with that identifier at the end of the queue of that token's route,
-- behind what the sweep of the same request kept.
pub push_message-kept :
    (st : Settings) (deps : Deps) (w : Meets) (headers : HeaderMap) (body : List ℕ) (r : Relay)
    (channel id : Text)
    → resolve_route_token deps.to_str headers ≡ token channel
    → (push_message st deps w headers body r).0 ≡ posted id
    → let p = push_of st deps w headers body channel in
      let before = swept st.store.retention_ttl_secs w.now r.db in
      (id ≡ p.msg_id)
      × (queue p.route_key (push_message st deps w headers body r).1.db
          ≡ queue p.route_key before ++ new_message p before ∷ [])
unfolding push_message
push_message-kept st deps w headers body r channel id t e =
    ground (arith, t, body-Kept st deps w headers body channel r id)
