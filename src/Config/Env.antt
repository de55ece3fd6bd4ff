-- ===== src/Config/Env.antt =====
-- The environment: `EnvVals::from_env` of src/main.rs with `env_opt`, `env_u16` and `env_usize`, and the
-- constructors of src/lib.rs that read variables. `Vars` stands for `std::env::var(name).ok()`.
use Prim.Native.String.{String, ◌++◌}
use mathlib.Core.Option
use qsl_server.Base.{ℕ, ◌^◌, Text, Bool, true, false, Option, some, none, if◌then◌else◌}
use qsl_server.Base.Number.{parse_unsigned}
use qsl_server.Base.Result.{Result, ok, ◌>>=◌}
use qsl_server.Secrets.Trim.{is_blank, is_empty}
use qsl_server.Config.Limits.{
  max_body_bytes_ceiling, max_queue_depth_ceiling, max_route_count_ceiling,
  max_push_rate_burst_ceiling, push_rate_refill_or_cap, Limits, new_limits, ResourceControls,
  new_controls,
}
use qsl_server.Config.Resolve.{EnvVals, is_some, ok_or}

abbrev pub Vars : Type 0
Vars = String → Option Text

-- Option::filter
abbrev keep_if : (Text → Bool) → Option Text → Option Text
keep_if p none = none
keep_if p (some v) = if p v then some v else none

abbrev not_blank : Text → Bool
not_blank v = if is_blank v then false else true

unfoldable pub env_opt : Vars → String → Option Text
unfolding is_blank
env_opt vars name = keep_if not_blank (vars name)

-- `parse` at an unsigned type with values below `bound`, for a variable that is there.
unfoldable pub read_some : ℕ → String → Option Text → Result (Option ℕ)
unfolding parse_unsigned
read_some bound code none = ok none
read_some bound code (some v) = do n ← ok_or (parse_unsigned bound v) code; ok (some n)

unfoldable pub env_u16 : Vars → String → Result (Option ℕ)
unfolding read_some env_opt
env_u16 vars name = read_some (2 ^ 16) ("ERR_INVALID_ENV_" ++ name) (env_opt vars name)

unfoldable pub env_usize : Vars → String → Result (Option ℕ)
unfolding read_some env_opt
env_usize vars name = read_some (2 ^ 64) ("ERR_INVALID_CONFIG_" ++ name) (env_opt vars name)

-- EnvVals::from_env
unfoldable pub from_env : Vars → Result EnvVals
unfolding env_u16 env_usize
from_env vars = do
  port ← env_u16 vars "PORT"
  max_body_bytes ← env_usize vars "MAX_BODY_BYTES"
  max_queue_depth ← env_usize vars "MAX_QUEUE_DEPTH"
  max_route_count ← env_usize vars "MAX_ROUTE_COUNT"
  push_rate_burst ← env_usize vars "PUSH_RATE_BURST"
  push_rate_refill_per_sec ← env_usize vars "PUSH_RATE_REFILL_PER_SEC"
  retention_ttl_secs ← env_usize vars "RETENTION_TTL_SECS"
  pull_lease_secs ← env_usize vars "PULL_LEASE_SECS"
  max_invite_slots ← env_usize vars "MAX_INVITE_SLOTS"
  max_invite_bundle_bytes ← env_usize vars "MAX_INVITE_BUNDLE_BYTES"
  max_invite_expiry_secs ← env_usize vars "MAX_INVITE_EXPIRY_SECS"
  invite_create_burst ← env_usize vars "INVITE_CREATE_BURST"
  invite_create_refill_per_sec ← env_usize vars "INVITE_CREATE_REFILL_PER_SEC"
  ok (record {
    bind = env_opt vars "BIND_ADDR";
    port = port;
    max_body_bytes = max_body_bytes;
    max_queue_depth = max_queue_depth;
    max_route_count = max_route_count;
    push_rate_burst = push_rate_burst;
    push_rate_refill_per_sec = push_rate_refill_per_sec;
    route_idle_ttl_ms_present = is_some (env_opt vars "ROUTE_IDLE_TTL_MS");
    store_path = env_opt vars "STORE_PATH";
    retention_ttl_secs = retention_ttl_secs;
    pull_lease_secs = pull_lease_secs;
    max_invite_slots = max_invite_slots;
    max_invite_bundle_bytes = max_invite_bundle_bytes;
    max_invite_expiry_secs = max_invite_expiry_secs;
    invite_create_burst = invite_create_burst;
    invite_create_refill_per_sec = invite_create_refill_per_sec;
  })

unfoldable pub read_or : String → ℕ → Option Text → Result ℕ
unfolding parse_unsigned
read_or code default none = ok default
read_or code default (some v) = ok_or (parse_unsigned (2 ^ 64) v) code

unfoldable pub env_limit_or_default : Vars → String → ℕ → Result ℕ
unfolding env_opt read_or
env_limit_or_default vars name default =
    read_or ("ERR_INVALID_CONFIG_" ++ name) default (env_opt vars name)

unfoldable pub read_refill_or : String → ℕ → Option Text → Result ℕ
unfolding parse_unsigned push_rate_refill_or_cap
read_refill_or code default none = ok default
read_refill_or code default (some v) =
    ok_or (Option.map push_rate_refill_or_cap (parse_unsigned (2 ^ 64) v)) code

unfoldable pub env_refill_or_default : Vars → String → ℕ → Result ℕ
unfolding env_opt read_refill_or
env_refill_or_default vars name default =
    read_refill_or ("ERR_INVALID_CONFIG_" ++ name) default (env_opt vars name)

-- Limits::from_env
unfoldable pub limits_from_env : Vars → Result Limits
unfolding env_limit_or_default new_limits
limits_from_env vars = do
  max_body_bytes ← env_limit_or_default vars "MAX_BODY_BYTES" max_body_bytes_ceiling
  max_queue_depth ← env_limit_or_default vars "MAX_QUEUE_DEPTH" max_queue_depth_ceiling
  new_limits max_body_bytes max_queue_depth

-- ResourceControls::from_env
unfoldable pub controls_from_env : Vars → Result ResourceControls
unfolding env_limit_or_default env_refill_or_default new_controls
controls_from_env vars = do
  max_route_count ← env_limit_or_default vars "MAX_ROUTE_COUNT" max_route_count_ceiling
  push_rate_burst ← env_limit_or_default vars "PUSH_RATE_BURST" max_push_rate_burst_ceiling
  push_rate_refill_per_sec ←
      env_refill_or_default vars "PUSH_RATE_REFILL_PER_SEC" max_push_rate_burst_ceiling
  new_controls max_route_count push_rate_burst push_rate_refill_per_sec

-- RELAY_TOKEN, which counts when it is not empty.
unfoldable pub relay_token_from_env : Vars → Option Text
relay_token_from_env vars = keep_if (λ v. if is_empty v then false else true) (vars "RELAY_TOKEN")
