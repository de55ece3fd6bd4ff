-- ===== src/Relay/StartTests.antt =====
-- The theorems on the environment, the start of the binary, the states that it reaches and its sweeps, at concrete
-- values.
use qsl_server.Base.{
  ℕ, ◌+◌, ◌*◌, ◌≤◌, ◌==◌, exists_where, Text, ◌≡◌, refl, true, false, Option, some, none, List, [],
  ◌∷◌, arith, ascii, if◌then◌else◌, text_eq,
}
use qsl_server.Base.Result.{ok}
use qsl_server.Config.Limits.{default_limits, default_controls, default_invite_limits}
use qsl_server.Config.Resolve.{EnvVals, Config, resolve_limits, resolve_controls, assemble}
use qsl_server.Config.Env.{Vars, env_usize, env_u16, from_env, limits_from_env, controls_from_env}
use qsl_server.Config.Agree.{no_cli, from_env-agrees}
use qsl_server.Config.Spelled.{env_usize-number_of}
use qsl_server.Config.Bounds.{LimitsInRange, ControlsInRange, InvitesInRange, Within}
use qsl_server.Store.Transaction.{healthy, lock_poisoned}
use qsl_server.Store.Enqueue.{enqueue}
use qsl_server.Store.Calls.{pushes, sweeps, run, step}
use qsl_server.Store.Valid.Steps.{run-IsValid}
use qsl_server.Store.Tests.{st, key_b, push_to, calls, busy}
use qsl_server.Relay.Sweeper.{sweep_time, message_outlived}
use qsl_server.Store.Schema.{fresh}
use qsl_server.Store.Open.{File, Setup}
use qsl_server.Store.Valid.Invariant.{IsValid, fresh-IsValid}
use qsl_server.Store.Bounds.Within.{IsWithin}
use qsl_server.Store.Bounds.Caps.{fresh-IsWithin}
use qsl_server.Store.Keyed.{IsKeyed, fresh-IsKeyed}
use qsl_server.Relay.State.{Settings, Relay, Meets}
use qsl_server.Relay.Actions.{caps_of}
use qsl_server.Secrets.Trim.{is_blank}
use qsl_server.Relay.Queues.{PullQuery}
use qsl_server.Relay.Requests.{Parsers, Event, request, tick, post_push, get_pull, handle_all}
use qsl_server.Relay.Reach.{Reaches, handle_all-Reaches}
use qsl_server.Relay.Sound.{IsSound, Reaches-IsSound}
use qsl_server.Relay.Main.{Net, configure, main}
use qsl_server.Relay.Lives.{blank, life, caps_in, main-InRange, Lives-IsValid}
use qsl_server.Relay.Tests.{deps, headers, settings, meets, relay}

-- Two variables, and the one that `other` gives.
unfoldable vars : Option Text → Vars
unfolding text_eq
vars other name =
    if text_eq (ascii name) (ascii "MAX_QUEUE_DEPTH")
    then some (ascii "+7")
    else if text_eq (ascii name) (ascii "PUSH_RATE_REFILL_PER_SEC")
    then some (ascii "99999")
    else if text_eq (ascii name) (ascii "STORE_PATH")
    then other
    else none

abbrev env : EnvVals
env = record {
  bind = none;
  port = none;
  max_body_bytes = none;
  max_queue_depth = some 7;
  max_route_count = none;
  push_rate_burst = none;
  push_rate_refill_per_sec = some 99999;
  route_idle_ttl_ms_present = false;
  store_path = none;
  retention_ttl_secs = none;
  pull_lease_secs = none;
  max_invite_slots = none;
  max_invite_bundle_bytes = none;
  max_invite_expiry_secs = none;
  invite_create_burst = none;
  invite_create_refill_per_sec = none;
}

from_env-agrees_example :
    (limits_from_env (vars none) ≡ resolve_limits no_cli env)
    × (controls_from_env (vars none) ≡ resolve_controls no_cli env)
unfolding from_env vars
from_env-agrees_example = from_env-agrees (vars none) env refl

env_usize-number_of_example :
    (env_usize (vars none) "MAX_QUEUE_DEPTH" ≡ ok (some 7))
    × (env_u16 (vars none) "MAX_QUEUE_DEPTH" ≡ ok (some 7))
unfolding vars is_blank
env_usize-number_of_example = env_usize-number_of (vars none) "MAX_QUEUE_DEPTH"

abbrev parsers : Parsers
parsers = record { ids = λ b. none; create = λ b. none; redeem = λ b. none; revoke = λ b. none }

abbrev later : Meets
later = record meets { now = 6; mono_now = 2000 }

abbrev query : PullQuery
query = record { max = some 5; ack = none }

-- Two pushes, a sweep, and a pull.
abbrev events : List Event
events =
    request meets (post_push headers (1 ∷ []))
    ∷ request later (post_push headers (2 ∷ []))
    ∷ tick later
    ∷ request later (get_pull headers query)
    ∷ []

handle_all-Reaches_example :
    Reaches (settings none) relay (handle_all (settings none) deps parsers events relay)
handle_all-Reaches_example = handle_all-Reaches (settings none) deps parsers events relay

relay-IsSound : IsSound (settings none) relay
relay-IsSound = record {
  valid = fresh-IsValid;
  within = fresh-IsWithin (caps_of (settings none));
  keyed = fresh-IsKeyed;
  pushes = tt;
  creates = omega arith;
}

Reaches-IsSound_example :
    IsSound (settings none) (handle_all (settings none) deps parsers events relay)
Reaches-IsSound_example =
    Reaches-IsSound (omega arith) relay-IsSound
      (handle_all-Reaches (settings none) deps parsers events relay)

abbrev net : Net
net = record { address = λ host port. some host; listen = λ address. some address }

abbrev works : Setup
works = record { opened = true; prepare = none; write = none }

abbrev blank_file : File
blank_file = record {
  wal = false;
  meta = none;
  routes = none;
  messages = none;
  invites = none;
  idx_messages_route_seq = false;
  idx_messages_enqueued = false;
  idx_invites_expiry = false;
  next_seq = 1;
}

abbrev config : Config
config =
    assemble no_cli (record env { store_path = some (ascii "q.db") }) (ascii "q.db") 604800 60
      default_invite_limits (record default_limits { max_queue_depth = 7 })
      (record default_controls { push_rate_refill_per_sec = 4096 })

abbrev started : Settings
started = record {
  limits = config.limits;
  controls = config.controls;
  relay_token = none;
  retention_ttl_secs = 604800;
  server_info = record { name = none; attachments_service_url = none; min_client_version = none };
  invite_limits = default_invite_limits;
  store = record { retention_ttl_secs = 604800; pull_lease_secs = 60 };
}

abbrev at_start : Relay
at_start = record {
  db = fresh;
  push_rates = [];
  invite_create_rate = record { tokens = 32; last_refill = 9 };
}

starts : main (vars (some (ascii "q.db"))) no_cli net 9 works blank_file ≡ ok (started, at_start)
unfolding main vars
starts = refl

main-InRange_example :
    LimitsInRange started.limits
    × ControlsInRange started.controls
    × InvitesInRange started.invite_limits
    × Within 2592000 604800
    × Within 3600 60
    × (started.retention_ttl_secs ≡ started.store.retention_ttl_secs)
main-InRange_example =
    main-InRange (vars (some (ascii "q.db"))) no_cli net 9 works blank_file started at_start starts

configures : configure (vars (some (ascii "q.db"))) no_cli ≡ ok config
unfolding configure vars
configures = refl

Lives-IsValid_example :
    let after = (handle_all started deps parsers events at_start).db in
    IsValid after × IsWithin (caps_in config) after × IsKeyed after
Lives-IsValid_example = Lives-IsValid config configures (
    life blank_file net 9 works started at_start (handle_all started deps parsers events at_start)
      blank starts (handle_all-Reaches started deps parsers events at_start))

-- A timer that starts at 3.
abbrev timer : ℕ → ℕ → ℕ
timer period n = 3 + n * period

message_outlived_example :
    (i : ℕ) × (7 + 100 ≤ sweep_time timer i)
    × (sweep_time timer i ≤ 7 + 100 + 60)
    × (exists_where
          (λ m. m.seq == busy.next_seq)
          (run st ((healthy, pushes (push_to key_b 9)) ∷ []) (
            step st healthy (sweeps (sweep_time timer i)) (
              run st
                ((lock_poisoned, sweeps 63) ∷ [])
                (enqueue healthy (push_to key_b 7) busy).1))).messages
        ≡ false)
unfolding run enqueue text_eq
message_outlived_example =
    message_outlived st healthy (push_to key_b 7) busy timer 3 ((lock_poisoned, sweeps 63) ∷ [])
      ((healthy, pushes (push_to key_b 9)) ∷ []) (run-IsValid st calls) refl (λ n. refl)
      (omega arith)
