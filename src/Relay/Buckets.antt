-- ===== src/Relay/Buckets.antt =====
-- src/lib.rs: the map of rate buckets, `log_and_prune_sweep`, `drop_rate_bucket`,
-- and `run_retention_sweep`.
use qsl_server.Base.{ℕ, Text, text_eq, Bool, Option, some, none, List, [], ◌∷◌, if◌then◌else◌}
use qsl_server.Base.Result.{Result, ok, err}
use qsl_server.Config.Limits.{InviteLimits, ResourceControls, default_controls}
use qsl_server.Store.Schema.{SweepStats}
use qsl_server.Store.Transaction.{Fault}
use qsl_server.Store.Sweep.{retention_sweep}
use qsl_server.Rate.Bucket.{PushRateBucket, new_bucket, try_consume}
use qsl_server.Relay.State.{Settings, Relay}

-- HashMap::remove
unfoldable pub remove : Text → List (Text × PushRateBucket) → List (Text × PushRateBucket)
remove k [] = []
remove k (e ∷ es) = let rest = remove k es in if text_eq e.0 k then rest else e ∷ rest

-- HashMap::get
unfoldable pub get : Text → List (Text × PushRateBucket) → Option PushRateBucket
get k [] = none
get k (e ∷ es) = let rest = get k es in if text_eq e.0 k then some e.1 else rest

unfoldable pub remove_all : List Text → List (Text × PushRateBucket) → List (Text × PushRateBucket)
unfolding remove
remove_all [] es = es
remove_all (k ∷ ks) es = remove_all ks (remove k es)

-- A lock that cannot be taken leaves the buckets as they are.
unfoldable pub log_and_prune_sweep : Bool → SweepStats → Relay → Relay
unfolding remove_all
log_and_prune_sweep lock_ok stats r =
    if lock_ok
    then record r { push_rates = remove_all stats.removed_route_keys r.push_rates }
    else r

unfoldable pub drop_rate_bucket : Bool → Text → Relay → Relay
unfolding remove
drop_rate_bucket lock_ok k r =
    if lock_ok then record r { push_rates = remove k r.push_rates } else r

abbrev pub bucket_or_new : ResourceControls → ℕ → Option PushRateBucket → PushRateBucket
bucket_or_new controls now (some b) = b
bucket_or_new controls now none = new_bucket now controls

-- buckets.entry(..).or_insert_with(..), and its `try_consume`
unfoldable pub consume_push : ResourceControls → ℕ → Text → Relay → Bool × Relay
unfolding get remove try_consume new_bucket
consume_push controls now k r =
    let (admitted, after) =
      try_consume controls now (bucket_or_new controls now (get k r.push_rates)) in
    (admitted, record r { push_rates = (k, after) ∷ remove k r.push_rates })

abbrev no_stats : SweepStats
no_stats = record {
  expired_messages = 0;
  expired_routes = [];
  removed_route_keys = [];
  expired_invites = 0;
}

abbrev pub pruned : Bool → Relay → Result SweepStats → SweepStats × Relay
pruned lock_ok r (ok stats) = (stats, log_and_prune_sweep lock_ok stats r)
pruned lock_ok r (err e) = (no_stats, r)

unfoldable pub run_retention_sweep : Settings → Fault → Bool → ℕ → Relay → SweepStats × Relay
unfolding log_and_prune_sweep retention_sweep
run_retention_sweep st f lock_ok now r =
    let (result, after) = retention_sweep f st.store now r.db in
    pruned lock_ok (record r { db = after }) result

-- The controls of the bucket of invite creation.
abbrev pub invite_bucket_controls : InviteLimits → ResourceControls
invite_bucket_controls l = record default_controls {
  push_rate_burst = l.create_burst;
  push_rate_refill_per_sec = l.create_refill_per_sec;
}
