-- ===== src/Relay/Actions.antt =====
-- The accesses to the shared state of `AppState`, each under one lock: a transaction of the store, and
-- the uses of the two rate buckets.
use qsl_server.Base.{ℕ, Text, List}
use qsl_server.Store.Transaction.{Fault}
use qsl_server.Store.Calls.{Call, step}
use qsl_server.Store.Bounds.Within.{Caps, Uses}
use qsl_server.Store.Keyed.{Hashed}
use qsl_server.Rate.Bucket.{try_consume}
use qsl_server.Relay.State.{Settings, Relay}
use qsl_server.Relay.Buckets.{remove_all, consume_push, invite_bucket_controls}

-- The caps that the handlers pass to the store.
abbrev pub caps_of : Settings → Caps
caps_of st = record {
  max_queue_depth = st.limits.max_queue_depth;
  max_route_count = st.controls.max_route_count;
  max_slots = st.invite_limits.max_slots;
}

pub data Action : Type 0 where
  transaction : Fault → Call → Action
  forget : List Text → Action
  take_push : ℕ → Text → Action
  take_create : ℕ → Action

unfoldable pub act : Settings → Action → Relay → Relay
unfolding step remove_all consume_push try_consume
act st (transaction f c) r = record r { db = step st.store f c r.db }
act st (forget keys) r = record r { push_rates = remove_all keys r.push_rates }
act st (take_push now k) r = (consume_push st.controls now k r).1
act st (take_create now) r = record r {
  invite_create_rate =
      (try_consume (invite_bucket_controls st.invite_limits) now r.invite_create_rate).1;
}

-- The transactions are those with the configured caps, and with keys of hexadecimal digits.
abbrev pub Allowed : Settings → Action → Type 0
Allowed st (transaction f c) = Uses (caps_of st) c × Hashed c
Allowed st _ = Unit {0}
