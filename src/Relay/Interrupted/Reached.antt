-- ===== src/Relay/Interrupted/Reached.antt =====
-- A push among other requests makes only accesses of Relay.Actions.
use qsl_server.Base.{ℕ, refl, List, arith}
use qsl_server.Secrets.Hex.{is_hex-route_key_for}
use qsl_server.Secrets.Headers.{HeaderMap, RouteToken, token, refused, resolve_route_token}
use qsl_server.Store.Schema.{RouteStatus}
use qsl_server.Store.Status.{route_status}
use qsl_server.Store.Enqueue.{Push, enqueue}
use qsl_server.Store.Calls.{statuses, pushes}
use qsl_server.Store.Transaction.{healthy}
use qsl_server.Relay.State.{Settings, Relay, Deps, Meets, Stored, stored, store_failed, run_store}
use qsl_server.Relay.Buckets.{log_and_prune_sweep, consume_push}
use qsl_server.Relay.Actions.{Action, transaction, take_push, act, Allowed}
use qsl_server.Relay.Push.{push_of}
use qsl_server.Relay.Steps.Pushing.{prune-keeps, push_reply-keeps}
use qsl_server.Relay.Reach.{Reaches, next}
use qsl_server.Relay.Interrupted.{
  Others, store_among, rate_among, caps_among, status_among, body_among, push_among,
}

-- The others keep a property.
pub record Keeps (P : Relay → Type 0) (o : Others) : Type 0 where
  pub after_status : (r : Relay) → P r → P (o.after_status r)
  pub after_prune : (r : Relay) → P r → P (o.after_prune r)
  pub after_rate : (r : Relay) → P r → P (o.after_rate r)
  pub after_store : (r : Relay) → P r → P (o.after_store r)

module _ (st : Settings) (P : Relay → Type 0)
    (keep : (a : Action) (r : Relay) → Allowed st a → P r → P (act st a r)) (o : Others)
    (others : Keeps P o) where
  store_among-keeps :
      (w : Meets) (p : Push) (r : Relay)
      → Allowed st (transaction healthy (pushes p))
      → P r
      → P (store_among o w p r).1
  unfolding store_among act
  store_among-keeps w p r u h =
      push_reply-keeps st P keep w.lock_ok p (run_store (enqueue w.second p r.db).0) _
        (others.after_store _ (keep (transaction w.second (pushes p)) r u h))

  rate_among-keeps :
      (w : Meets) (p : Push) (r : Relay)
      → Allowed st (transaction healthy (pushes p))
      → P r
      → P (rate_among st o w p r).1
  unfolding rate_among act
  rate_among-keeps w p r u h =
      let taken = keep (take_push w.mono_now p.route_key) r tt h in
      let after = (consume_push st.controls w.mono_now p.route_key r).1 in
      ground
        (arith, taken, store_among-keeps w p (o.after_rate after) u (others.after_rate after taken))

  caps_among-keeps :
      (w : Meets) (p : Push) (s : Stored RouteStatus) (r : Relay)
      → Allowed st (transaction healthy (pushes p))
      → P r
      → P (caps_among st o w p s r).1
  unfolding caps_among
  caps_among-keeps w p store_failed r u h = h
  caps_among-keeps w p (stored status) r u h =
      let after = log_and_prune_sweep w.lock_ok status.sweep (o.after_status r) in
      let pruned =
        prune-keeps st P keep w.lock_ok status.sweep (o.after_status r) (others.after_status r h) in
      ground (
        arith,
        pruned,
        rate_among-keeps w p (o.after_prune after) u (others.after_prune after pruned),
      )

  status_among-keeps :
      (w : Meets) (p : Push) (r : Relay)
      → Allowed st (transaction healthy (pushes p))
      → P r
      → P (status_among st o w p r).1
  unfolding status_among act
  status_among-keeps w p r u h =
      caps_among-keeps w p (run_store (route_status w.first st.store p.route_key w.now r.db).0) _ u
        (keep (transaction w.first (statuses p.route_key w.now)) r (tt, tt) h)

  body_among-keeps :
      (deps : Deps) (w : Meets) (headers : HeaderMap) (body : List ℕ) (t : RouteToken) (r : Relay)
      → P r
      → P (body_among st o deps w headers body t r).1
  unfolding body_among push_of
  body_among-keeps deps w headers body (refused e) r h = h
  body_among-keeps deps w headers body (token channel) r h = ground (
    arith,
    status_among-keeps w (push_of st deps w headers body channel) r
        ((refl, refl), is_hex-route_key_for deps.sha256 channel) h,
  )

  push_among-keeps :
      (deps : Deps) (w : Meets) (headers : HeaderMap) (body : List ℕ) (r : Relay)
      → P r
      → P (push_among st o deps w headers body r).1
  unfolding push_among
  push_among-keeps deps w headers body r h =
      ground
        (arith, body_among-keeps deps w headers body (resolve_route_token deps.to_str headers) r h)

-- A push among other requests reaches what accesses reach: if from every state that accesses of the four
-- kinds reach from `r` the others, between the accesses of a push, go to such a state, then so does the
-- push that they interrupt.
pub push_among-Reaches :
    (st : Settings) (o : Others) (deps : Deps) (w : Meets) (headers : HeaderMap) (body : List ℕ)
    (r s : Relay)
    → Keeps (Reaches st r) o
    → Reaches st r s
    → Reaches st r (push_among st o deps w headers body s).1
push_among-Reaches st o deps w headers body r s others h =
    push_among-keeps st (Reaches st r) (λ a t ok reached. next reached a ok refl) o others deps w
      headers body s h
