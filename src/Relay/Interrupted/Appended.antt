-- ===== src/Relay/Interrupted/Appended.antt =====
-- What a push among other requests leaves.
use qsl_server.Base.{ℕ, suc, Text, text_eq, ◌≡◌, refl, Bool, false, List, [], ◌∷◌, ◌++◌, arith}
use qsl_server.Base.Result.{Result, ok, err}
use qsl_server.Secrets.Headers.{HeaderMap, token, resolve_route_token}
use qsl_server.Store.Schema.{
  Db, RouteStatus, EnqueueOutcome, accepted, overloaded, route_cap, slot_rejected, SlotReject,
}
use qsl_server.Store.Queue.View.{queue}
use qsl_server.Store.Queue.Push.{enqueue-appends, AppendsOnly, new_message}
use qsl_server.Store.Transaction.{Fault, healthy, lock_poisoned, sql_error, transact}
use qsl_server.Store.Sweep.{swept, sweep_stats, sweep_expired}
use qsl_server.Store.Status.{route_status, route_status_tx}
use qsl_server.Store.Enqueue.{Push, enqueue}
use qsl_server.Relay.State.{Settings, Relay, Deps, Meets, posted, stored, run_store}
use qsl_server.Relay.Buckets.{log_and_prune_sweep, consume_push}
use qsl_server.Relay.Push.{push_of, push_reply}
use qsl_server.Relay.Interrupted.{
  Others, store_among, rate_among, caps_among, status_among, body_among, push_among,
}

-- The relay as the push finds it when it stores its message: the request's sweep has deleted what had
-- expired and its buckets, a token of its own bucket is taken, and the others acted in between.
abbrev pub found_by : Settings → Others → Meets → Push → Relay → Relay
found_by st o w p r =
    let ttl = st.store.retention_ttl_secs in
    let left_by_status = o.after_status (record r { db = swept ttl w.now r.db }) in
    let left_by_prune =
      o.after_prune (log_and_prune_sweep w.lock_ok (sweep_stats ttl w.now r.db) left_by_status) in
    o.after_rate (consume_push st.controls w.mono_now p.route_key left_by_prune).1

-- The push's message stands at the end of its queue in `found`, no other queue changes, and that is
-- there when the others go on.
abbrev Appended : Others → Push → Text → Relay → Relay → Type 0
Appended o p id found final =
    (id ≡ p.msg_id)
    × (left : Db) × AppendsOnly p found.db left
    × (final ≡ o.after_store (record found { db = left }))

reply-Appended :
    (lock_ok : Bool) (p : Push) (result : Result EnqueueOutcome) (r : Relay) (id : Text)
    → (push_reply lock_ok p (run_store result) r).0 ≡ posted id
    → (id ≡ p.msg_id) × (result ≡ ok accepted) × ((push_reply lock_ok p (run_store result) r).1 ≡ r)
unfolding push_reply run_store
reply-Appended lock_ok p (ok accepted) r id e = (cc, refl, refl)
reply-Appended lock_ok p (ok (overloaded d)) r id e = cc
reply-Appended lock_ok p (ok (route_cap d)) r id e = cc
reply-Appended lock_ok p (ok (slot_rejected SlotReject.expired)) r id e = cc
reply-Appended lock_ok p (ok (slot_rejected SlotReject.revoked)) r id e = cc
reply-Appended lock_ok p (ok (slot_rejected SlotReject.ticket_invalid)) r id e = cc
reply-Appended lock_ok p (err m) r id e = cc

store-Appended :
    (o : Others) (w : Meets) (p : Push) (r : Relay) (id : Text)
    → (store_among o w p r).0 ≡ posted id
    → Appended o p id r (store_among o w p r).1
unfolding store_among
store-Appended o w p r id e =
    let result = enqueue w.second p r.db in
    let (named, taken, final) =
      reply-Appended w.lock_ok p result.0 (o.after_store (record r { db = result.1 })) id e in
    (named, result.1, enqueue-appends w.second p r.db taken, final)

rate-Appended :
    (st : Settings) (o : Others) (w : Meets) (p : Push) (r : Relay) (id : Text)
    → (rate_among st o w p r).0 ≡ posted id
    → Appended o p id
        (o.after_rate (consume_push st.controls w.mono_now p.route_key r).1)
        (rate_among st o w p r).1
unfolding rate_among
rate-Appended st o w p r id e =
    let taken = consume_push st.controls w.mono_now p.route_key r in
    ground (arith, store-Appended o w p (o.after_rate taken.1) id)

caps-Appended :
    (st : Settings) (o : Others) (w : Meets) (p : Push) (status : RouteStatus) (r : Relay)
    (id : Text)
    → (caps_among st o w p (stored status) r).0 ≡ posted id
    → let left_by_prune =
        o.after_prune (log_and_prune_sweep w.lock_ok status.sweep (o.after_status r)) in
      Appended o p id
        (o.after_rate (consume_push st.controls w.mono_now p.route_key left_by_prune).1)
        (caps_among st o w p (stored status) r).1
unfolding caps_among
caps-Appended st o w p status r id e = ground (
  arith,
  rate-Appended st o w p
      (o.after_prune (log_and_prune_sweep w.lock_ok status.sweep (o.after_status r))) id,
)

status-Appended :
    (st : Settings) (o : Others) (w : Meets) (p : Push) (f : Fault) (r : Relay) (id : Text)
    → let result = route_status f st.store p.route_key w.now r.db in
      let outcome = caps_among st o w p (run_store result.0) (record r { db = result.1 }) in
      outcome.0 ≡ posted id → Appended o p id (found_by st o w p r) outcome.1
unfolding route_status route_status_tx sweep_expired transact run_store caps_among
status-Appended st o w p healthy r id e =
    caps-Appended st o w p (route_status_tx st.store p.route_key w.now r.db).0
      (record r { db = swept st.store.retention_ttl_secs w.now r.db }) id e
status-Appended st o w p lock_poisoned r id e = cc
status-Appended st o w p (sql_error m) r id e = cc

body-Appended :
    (st : Settings) (o : Others) (deps : Deps) (w : Meets) (headers : HeaderMap) (body : List ℕ)
    (channel : Text) (r : Relay) (id : Text)
    → (body_among st o deps w headers body (token channel) r).0 ≡ posted id
    → let p = push_of st deps w headers body channel in
      Appended o p id
        (found_by st o w p r)
        (body_among st o deps w headers body (token channel) r).1
unfolding body_among status_among
body-Appended st o deps w headers body channel r id e =
    ground (arith, status-Appended st o w (push_of st deps w headers body channel) w.first r id)

all-Appended :
    (st : Settings) (o : Others) (deps : Deps) (w : Meets) (headers : HeaderMap) (body : List ℕ)
    (r : Relay) (channel id : Text)
    → resolve_route_token deps.to_str headers ≡ token channel
    → (push_among st o deps w headers body r).0 ≡ posted id
    → let p = push_of st deps w headers body channel in
      Appended o p id (found_by st o w p r) (push_among st o deps w headers body r).1
unfolding push_among
all-Appended st o deps w headers body r channel id t e =
    ground (arith, t, body-Appended st o deps w headers body channel r id)

-- A push among other requests appends. Whatever others do to the shared state between its accesses, a
-- push whose route token is `channel` and that is answered with an identifier, its message's, found the
-- relay as its own sweep, the token it took and the others' three turns before its store access leave
-- it (`found_by`). It put its message at the end of the queue of that token's route in that state,
-- changed the queue of no other route `k`, moved the counter on by one and changed nothing of the relay
-- but the store; behind that access the others alone change the state.
pub push_among-appends :
    (st : Settings) (o : Others) (deps : Deps) (w : Meets) (headers : HeaderMap) (body : List ℕ)
    (r : Relay) (channel id k : Text)
    → resolve_route_token deps.to_str headers ≡ token channel
    → (push_among st o deps w headers body r).0 ≡ posted id
    → text_eq (push_of st deps w headers body channel).route_key k ≡ false
    → let p = push_of st deps w headers body channel in
      let found = found_by st o w p r in
      (id ≡ p.msg_id)
      × (left : Db) × (queue p.route_key left
          ≡ queue p.route_key found.db ++ new_message p found.db ∷ [])
      × (queue k left ≡ queue k found.db)
      × (left.next_seq ≡ suc found.db.next_seq)
      × ((push_among st o deps w headers body r).1 ≡ o.after_store (record found { db = left }))
push_among-appends st o deps w headers body r channel id k t e other =
    let (named, left, appended, final) = all-Appended st o deps w headers body r channel id t e in
    let (own, unlike, counted) = appended in (named, left, own, unlike k other, counted, final)
