-- ===== src/Relay/Interrupted.antt =====
-- src/lib.rs: `push_message` among other requests. The handler gives up the locks of the store and of
-- the rate buckets between its steps, and what others do there is an argument.
pub mod Appended
pub mod Reached
use qsl_server.Base.{
  ℕ, Text, ◌≡◌, refl, ap, subst, ◌∙◌, Bool, true, false, not, ◌&&◌, List, [], ◌∷◌, ◌++◌, arith, leb,
  ltb, length, if◌then◌else◌,
}
use qsl_server.Base.Result.{Result, ok, err}
use qsl_server.Secrets.Trim.{is_empty}
use qsl_server.Secrets.Headers.{HeaderMap, RouteToken, token, refused, auth_ok, resolve_route_token}
use qsl_server.Store.Schema.{Db, RouteStatus, EnqueueOutcome, accepted}
use qsl_server.Store.Status.{route_status}
use qsl_server.Store.Enqueue.{Push, enqueue}
use qsl_server.Relay.State.{
  Settings, Relay, Deps, Meets, Code, Reply, failure, posted, Stored, stored, store_failed,
  run_store,
}
use qsl_server.Relay.Buckets.{log_and_prune_sweep, consume_push}
use qsl_server.Relay.Push.{
  token_code, push_of, push_reply, push_store, push_rate, push_caps, push_status, push_body,
  push_message,
}

-- What other requests do between the accesses of this one.
pub record Others : Type 0 where
  pub after_status : Relay → Relay
  pub after_prune : Relay → Relay
  pub after_rate : Relay → Relay
  pub after_store : Relay → Relay

abbrev pub nobody : Others
nobody = record {
  after_status = λ r. r;
  after_prune = λ r. r;
  after_rate = λ r. r;
  after_store = λ r. r;
}

unfoldable pub store_among : Others → Meets → Push → Relay → Reply × Relay
unfolding push_reply enqueue run_store
store_among o w p r =
    let (result, after) = enqueue w.second p r.db in
    push_reply w.lock_ok p (run_store result) (o.after_store (record r { db = after }))

unfoldable pub rate_among : Settings → Others → Meets → Push → Relay → Reply × Relay
unfolding store_among consume_push
rate_among st o w p r =
    if not w.lock_ok
    then (failure 500 Code.err_lock_poison, r)
    else (let (admitted, after) = consume_push st.controls w.mono_now p.route_key r in
        if not admitted
        then (failure 429 Code.err_rate_limited, after)
        else store_among o w p (o.after_rate after))

unfoldable pub caps_among :
    Settings → Others → Meets → Push → Stored RouteStatus → Relay → Reply × Relay
unfolding rate_among log_and_prune_sweep
caps_among st o w p store_failed r = (failure 500 Code.err_store, r)
caps_among st o w p (stored status) r =
    let after = log_and_prune_sweep w.lock_ok status.sweep (o.after_status r) in
    if status.route_exists && leb st.limits.max_queue_depth status.depth
    then (failure 429 Code.err_overloaded, after)
    else if not status.route_exists && leb st.controls.max_route_count status.live_routes
    then (failure 429 Code.err_route_cap, after)
    else rate_among st o w p (o.after_prune after)

unfoldable pub status_among : Settings → Others → Meets → Push → Relay → Reply × Relay
unfolding caps_among route_status run_store
status_among st o w p r =
    let (result, after) = route_status w.first st.store p.route_key w.now r.db in
    caps_among st o w p (run_store result) (record r { db = after })

unfoldable pub body_among :
    Settings → Others → Deps → Meets → HeaderMap → List ℕ → RouteToken → Relay → Reply × Relay
unfolding status_among push_of
body_among st o deps w headers body (refused e) r = (failure 400 (token_code e), r)
body_among st o deps w headers body (token channel) r =
    if is_empty body
    then (failure 400 Code.err_empty_body, r)
    else if ltb st.limits.max_body_bytes (length body)
    then (failure 413 Code.err_too_large, r)
    else status_among st o w (push_of st deps w headers body channel) r

unfoldable pub push_among :
    Settings → Others → Deps → Meets → HeaderMap → List ℕ → Relay → Reply × Relay
unfolding body_among auth_ok resolve_route_token
push_among st o deps w headers body r =
    if not (auth_ok deps.sha256 deps.to_str headers st.relay_token)
    then (failure 401 Code.err_unauthorized, r)
    else body_among st o deps w headers body (resolve_route_token deps.to_str headers) r

status-alone :
    (st : Settings) (w : Meets) (p : Push) (o : Stored RouteStatus) (r : Relay)
    → caps_among st nobody w p o r ≡ push_caps st w p o r
unfolding caps_among rate_among store_among push_caps push_rate push_store
status-alone st w p store_failed r = refl
status-alone st w p (stored status) r = refl

body-alone :
    (st : Settings) (deps : Deps) (w : Meets) (headers : HeaderMap) (body : List ℕ) (t : RouteToken)
    (r : Relay)
    → body_among st nobody deps w headers body t r ≡ push_body st deps w headers body t r
unfolding body_among push_body status_among push_status
body-alone st deps w headers body (refused e) r = refl
body-alone st deps w headers body (token channel) r = ground (
  arith,
  status-alone st w (push_of st deps w headers body channel)
      (run_store
        (route_status w.first st.store (push_of st deps w headers body channel).route_key w.now
          r.db).0)
      (record r {
        db =
            (route_status w.first st.store (push_of st deps w headers body channel).route_key w.now
              r.db).1;
      }),
)

-- A push that nobody interrupts is the push as one step.
pub push_among-nobody :
    (st : Settings) (deps : Deps) (w : Meets) (headers : HeaderMap) (body : List ℕ) (r : Relay)
    → push_among st nobody deps w headers body r ≡ push_message st deps w headers body r
unfolding push_among push_message
push_among-nobody st deps w headers body r =
    ground (arith, body-alone st deps w headers body (resolve_route_token deps.to_str headers) r)
