-- ===== src/Relay/Steps/Queueing.antt =====
-- `pull_message`, `ack_messages` and `run_retention_sweep` as accesses to the shared state.
use qsl_server.Base.{ℕ, Text, Bool, true, false, max, min, Option, some, none, List, arith}
use qsl_server.Base.Result.{Result, ok, err}
use qsl_server.Secrets.Headers.{HeaderMap, RouteToken, token, refused, resolve_route_token}
use qsl_server.Secrets.Hex.{route_key_for}
use qsl_server.Store.Schema.{PullMode, PullOutcome, AckOutcome, SweepStats}
use qsl_server.Store.Sweep.{retention_sweep}
use qsl_server.Store.Transaction.{Fault}
use qsl_server.Store.Pull.{pull}
use qsl_server.Store.Ack.{ack}
use qsl_server.Store.Calls.{sweeps, pulls, acks}
use qsl_server.Relay.State.{Settings, Relay, Deps, Meets, Stored, stored, store_failed, run_store}
use qsl_server.Relay.Buckets.{pruned, run_retention_sweep}
use qsl_server.Relay.Actions.{Action, transaction, act, Allowed}
use qsl_server.Relay.Queues.{
  PullQuery, pull_budget_bytes, pull_mode, asked, settled, pull_reply, pull_mode_given, pull_token,
  pull_message, ack_reply, ack_ids, ack_token, ack_messages,
}
use qsl_server.Relay.Steps.Pushing.{prune-keeps, drop-keeps}

module _ (st : Settings) (P : Relay → Type 0)
    (keep : (a : Action) (r : Relay) → Allowed st a → P r → P (act st a r)) where
  settled-keeps :
      (lock_ok drained : Bool) (k : Text) (r : Relay) → P r → P (settled lock_ok drained k r)
  settled-keeps lock_ok true k r h = drop-keeps st P keep lock_ok k r h
  settled-keeps lock_ok false k r h = h

  pull_reply-keeps :
      (lock_ok : Bool) (k : Text) (o : Stored PullOutcome) (r : Relay)
      → P r
      → P (pull_reply lock_ok k o r).1
  unfolding pull_reply
  pull_reply-keeps lock_ok k store_failed r h = h
  pull_reply-keeps lock_ok k (stored out) r h =
      settled-keeps lock_ok out.route_drained k _ (prune-keeps st P keep lock_ok out.sweep r h)

  pull_mode_given-keeps :
      (w : Meets) (k : Text) (n : ℕ) (mode : Option PullMode) (r : Relay)
      → P r
      → P (pull_mode_given st w k n mode r).1
  unfolding pull_mode_given act
  pull_mode_given-keeps w k n none r h = h
  pull_mode_given-keeps w k n (some mode) r h =
      let budget = max pull_budget_bytes st.limits.max_body_bytes in
      pull_reply-keeps w.lock_ok k (run_store (pull w.first st.store k n budget w.now mode r.db).0)
        _ (keep (transaction w.first (pulls k n budget w.now mode)) r (tt, tt) h)

  pull_token-keeps :
      (deps : Deps) (w : Meets) (q : PullQuery) (t : RouteToken) (r : Relay)
      → P r
      → P (pull_token st deps w q t r).1
  unfolding pull_token
  pull_token-keeps deps w q (refused e) r h = h
  pull_token-keeps deps w q (token channel) r h = ground (
    arith,
    pull_mode_given-keeps w (route_key_for deps.sha256 channel)
        (min (asked q.max) st.limits.max_queue_depth) (pull_mode q.ack) r h,
  )

  pub pull_message-keeps :
      (deps : Deps) (w : Meets) (headers : HeaderMap) (q : PullQuery) (r : Relay)
      → P r
      → P (pull_message st deps w headers q r).1
  unfolding pull_message
  pull_message-keeps deps w headers q r h =
      ground (arith, pull_token-keeps deps w q (resolve_route_token deps.to_str headers) r h)

  ack_reply-keeps :
      (lock_ok : Bool) (k : Text) (o : Stored AckOutcome) (r : Relay)
      → P r
      → P (ack_reply lock_ok k o r).1
  unfolding ack_reply
  ack_reply-keeps lock_ok k store_failed r h = h
  ack_reply-keeps lock_ok k (stored out) r h =
      settled-keeps lock_ok out.route_drained k _ (prune-keeps st P keep lock_ok out.sweep r h)

  ack_ids-keeps :
      (w : Meets) (k : Text) (ids : Option (List Text)) (r : Relay)
      → P r
      → P (ack_ids st w k ids r).1
  unfolding ack_ids act
  ack_ids-keeps w k none r h = h
  ack_ids-keeps w k (some ids) r h =
      let after = keep (transaction w.first (acks k ids w.now)) r (tt, tt) h in
      ground (
        arith,
        after,
        ack_reply-keeps w.lock_ok k (run_store (ack w.first st.store k ids w.now r.db).0)
            (act st (transaction w.first (acks k ids w.now)) r) after,
      )

  ack_token-keeps :
      (deps : Deps) (w : Meets) (parse : List ℕ → Option (List Text)) (body : List ℕ)
      (t : RouteToken) (r : Relay)
      → P r
      → P (ack_token st deps w parse body t r).1
  unfolding ack_token
  ack_token-keeps deps w parse body (refused e) r h = h
  ack_token-keeps deps w parse body (token channel) r h =
      ground (arith, ack_ids-keeps w (route_key_for deps.sha256 channel) (parse body) r h)

  pub ack_messages-keeps :
      (deps : Deps) (w : Meets) (parse : List ℕ → Option (List Text)) (headers : HeaderMap)
      (body : List ℕ) (r : Relay)
      → P r
      → P (ack_messages st deps w parse headers body r).1
  unfolding ack_messages
  ack_messages-keeps deps w parse headers body r h =
      ground
        (arith, ack_token-keeps deps w parse body (resolve_route_token deps.to_str headers) r h)

  pruned-keeps :
      (lock_ok : Bool) (r : Relay) (result : Result SweepStats)
      → P r
      → P (pruned lock_ok r result).1
  pruned-keeps lock_ok r (ok stats) h = prune-keeps st P keep lock_ok stats r h
  pruned-keeps lock_ok r (err e) h = h

  pub run_retention_sweep-keeps :
      (f : Fault) (lock_ok : Bool) (now : ℕ) (r : Relay)
      → P r
      → P (run_retention_sweep st f lock_ok now r).1
  unfolding run_retention_sweep act
  run_retention_sweep-keeps f lock_ok now r h =
      pruned-keeps lock_ok _ (retention_sweep f st.store now r.db).0
        (keep (transaction f (sweeps now)) r (tt, tt) h)
