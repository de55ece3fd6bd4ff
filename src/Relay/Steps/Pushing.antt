-- ===== src/Relay/Steps/Pushing.antt =====
-- What `push_message` does to the shared state: accesses of Relay.Actions, and nothing else. Stated
-- for a property that every access keeps.
use qsl_server.Base.{ℕ, Text, refl, Bool, true, false, List, [], ◌∷◌, arith}
use qsl_server.Secrets.Headers.{HeaderMap, RouteToken, token, refused, resolve_route_token}
use qsl_server.Store.Schema.{
  EnqueueOutcome, RouteStatus, SweepStats, accepted, overloaded, route_cap, slot_rejected,
}
use qsl_server.Store.Status.{route_status}
use qsl_server.Store.Enqueue.{Push, enqueue}
use qsl_server.Store.Calls.{statuses, pushes}
use qsl_server.Secrets.Hex.{is_hex-route_key_for}
use qsl_server.Store.Transaction.{healthy}
use qsl_server.Relay.State.{Settings, Relay, Deps, Meets, Stored, stored, store_failed, run_store}
use qsl_server.Relay.Buckets.{log_and_prune_sweep, drop_rate_bucket, consume_push}
use qsl_server.Relay.Actions.{Action, transaction, forget, take_push, act, Allowed}
use qsl_server.Relay.Push.{
  push_of, push_reply, push_store, push_rate, push_caps, push_status, push_body, push_message,
}

module _ (st : Settings) (P : Relay → Type 0)
    (keep : (a : Action) (r : Relay) → Allowed st a → P r → P (act st a r)) where
  pub prune-keeps :
      (lock_ok : Bool) (stats : SweepStats) (r : Relay)
      → P r
      → P (log_and_prune_sweep lock_ok stats r)
  unfolding log_and_prune_sweep act
  prune-keeps true stats r h = keep (forget stats.removed_route_keys) r tt h
  prune-keeps false stats r h = h

  pub drop-keeps : (lock_ok : Bool) (k : Text) (r : Relay) → P r → P (drop_rate_bucket lock_ok k r)
  unfolding drop_rate_bucket act
  drop-keeps true k r h = keep (forget (k ∷ [])) r tt h
  drop-keeps false k r h = h

  pub push_reply-keeps :
      (lock_ok : Bool) (p : Push) (o : Stored EnqueueOutcome) (r : Relay)
      → P r
      → P (push_reply lock_ok p o r).1
  unfolding push_reply
  push_reply-keeps lock_ok p store_failed r h = h
  push_reply-keeps lock_ok p (stored accepted) r h = h
  push_reply-keeps lock_ok p (stored (overloaded d)) r h = h
  push_reply-keeps lock_ok p (stored (route_cap d)) r h = drop-keeps lock_ok p.route_key r h
  push_reply-keeps lock_ok p (stored (slot_rejected e)) r h = h

  push_store-keeps :
      (w : Meets) (p : Push) (r : Relay)
      → Allowed st (transaction healthy (pushes p))
      → P r
      → P (push_store w p r).1
  unfolding push_store act
  push_store-keeps w p r u h =
      push_reply-keeps w.lock_ok p (run_store (enqueue w.second p r.db).0) _
        (keep (transaction w.second (pushes p)) r u h)

  push_rate-keeps :
      (w : Meets) (p : Push) (r : Relay)
      → Allowed st (transaction healthy (pushes p))
      → P r
      → P (push_rate st w p r).1
  unfolding push_rate act
  push_rate-keeps w p r u h =
      let taken = keep (take_push w.mono_now p.route_key) r tt h in
      ground (
        arith,
        taken,
        push_store-keeps w p (consume_push st.controls w.mono_now p.route_key r).1 u taken,
      )

  push_caps-keeps :
      (w : Meets) (p : Push) (o : Stored RouteStatus) (r : Relay)
      → Allowed st (transaction healthy (pushes p))
      → P r
      → P (push_caps st w p o r).1
  unfolding push_caps
  push_caps-keeps w p store_failed r u h = h
  push_caps-keeps w p (stored status) r u h =
      let after = log_and_prune_sweep w.lock_ok status.sweep r in
      let pruned = prune-keeps w.lock_ok status.sweep r h in
      ground (arith, pruned, push_rate-keeps w p after u pruned)

  push_status-keeps :
      (w : Meets) (p : Push) (r : Relay)
      → Allowed st (transaction healthy (pushes p))
      → P r
      → P (push_status st w p r).1
  unfolding push_status act
  push_status-keeps w p r u h =
      push_caps-keeps w p (run_store (route_status w.first st.store p.route_key w.now r.db).0) _ u
        (keep (transaction w.first (statuses p.route_key w.now)) r (tt, tt) h)

  push_body-keeps :
      (deps : Deps) (w : Meets) (headers : HeaderMap) (body : List ℕ) (t : RouteToken) (r : Relay)
      → P r
      → P (push_body st deps w headers body t r).1
  unfolding push_body push_of
  push_body-keeps deps w headers body (refused e) r h = h
  push_body-keeps deps w headers body (token channel) r h = ground (
    arith,
    push_status-keeps w (push_of st deps w headers body channel) r
        ((refl, refl), is_hex-route_key_for deps.sha256 channel) h,
  )

  pub push_message-keeps :
      (deps : Deps) (w : Meets) (headers : HeaderMap) (body : List ℕ) (r : Relay)
      → P r
      → P (push_message st deps w headers body r).1
  unfolding push_message
  push_message-keeps deps w headers body r h =
      ground
        (arith, push_body-keeps deps w headers body (resolve_route_token deps.to_str headers) r h)
