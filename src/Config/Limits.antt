-- ===== src/Config/Limits.antt =====
-- src/lib.rs: `Limits`, `InviteLimits`, `ResourceControls` and the functions that check one
-- value; src/store.rs: `StoreConfig` and its two durations. A `Duration` is its milliseconds.
use Prim.Native.String.{String, ◌++◌}
use qsl_server.Base.{ℕ, Text, ascii, ◌==◌, min, if◌then◌else◌}
use qsl_server.Base.Result.{Result, ok, err, ◌>>=◌}

abbrev pub max_invite_slots_default : ℕ
max_invite_slots_default = 256

abbrev pub max_invite_slots_ceiling : ℕ
max_invite_slots_ceiling = 4096

abbrev pub max_invite_bundle_bytes_default : ℕ
max_invite_bundle_bytes_default = 16384

abbrev pub max_invite_bundle_bytes_ceiling : ℕ
max_invite_bundle_bytes_ceiling = 65536

abbrev pub max_invite_expiry_secs_default : ℕ
max_invite_expiry_secs_default = 259200

abbrev pub max_invite_expiry_secs_ceiling : ℕ
max_invite_expiry_secs_ceiling = 2592000

abbrev pub invite_create_burst_default : ℕ
invite_create_burst_default = 32

abbrev pub invite_create_burst_ceiling : ℕ
invite_create_burst_ceiling = 4096

abbrev pub invite_create_refill_per_sec_default : ℕ
invite_create_refill_per_sec_default = 1

abbrev pub max_body_bytes_ceiling : ℕ
max_body_bytes_ceiling = 1048576

abbrev pub max_queue_depth_ceiling : ℕ
max_queue_depth_ceiling = 257

abbrev pub max_route_count_ceiling : ℕ
max_route_count_ceiling = 256

abbrev pub max_push_rate_burst_ceiling : ℕ
max_push_rate_burst_ceiling = 257

abbrev pub max_push_rate_refill_per_sec_ceiling : ℕ
max_push_rate_refill_per_sec_ceiling = 4096

abbrev pub route_idle_ttl_ms_default : ℕ
route_idle_ttl_ms_default = 300000

abbrev pub max_route_idle_ttl_ms_ceiling : ℕ
max_route_idle_ttl_ms_ceiling = 86400000

abbrev pub retention_ttl_secs_default : ℕ
retention_ttl_secs_default = 604800

abbrev pub max_retention_ttl_secs_ceiling : ℕ
max_retention_ttl_secs_ceiling = 2592000

abbrev pub pull_lease_secs_default : ℕ
pull_lease_secs_default = 60

abbrev pub max_pull_lease_secs_ceiling : ℕ
max_pull_lease_secs_ceiling = 3600

unfoldable pub limit_or_error : String → ℕ → ℕ → Result ℕ
limit_or_error name value ceiling =
    if value == 0 then err ("ERR_INVALID_CONFIG_" ++ name) else ok (min value ceiling)

unfoldable pub push_rate_refill_or_cap : ℕ → ℕ
push_rate_refill_or_cap value = min value max_push_rate_refill_per_sec_ceiling

unfoldable pub retention_ttl_or_error : ℕ → Result ℕ
retention_ttl_or_error value =
    if value == 0
    then err "ERR_INVALID_CONFIG_RETENTION_TTL_SECS"
    else ok (min value max_retention_ttl_secs_ceiling)

unfoldable pub pull_lease_or_error : ℕ → Result ℕ
pull_lease_or_error value =
    if value == 0
    then err "ERR_INVALID_CONFIG_PULL_LEASE_SECS"
    else ok (min value max_pull_lease_secs_ceiling)

pub record Limits : Type 0 where
  pub max_body_bytes : ℕ
  pub max_queue_depth : ℕ

-- Limits::default
abbrev pub default_limits : Limits
default_limits = record {
  max_body_bytes = max_body_bytes_ceiling;
  max_queue_depth = max_queue_depth_ceiling;
}

unfoldable pub new_limits : ℕ → ℕ → Result Limits
unfolding limit_or_error
new_limits max_body_bytes max_queue_depth = do
  body ← limit_or_error "MAX_BODY_BYTES" max_body_bytes max_body_bytes_ceiling
  depth ← limit_or_error "MAX_QUEUE_DEPTH" max_queue_depth max_queue_depth_ceiling
  ok (record { max_body_bytes = body; max_queue_depth = depth })

pub record InviteLimits : Type 0 where
  pub max_slots : ℕ
  pub max_bundle_bytes : ℕ
  pub max_expiry_secs : ℕ
  pub create_burst : ℕ
  pub create_refill_per_sec : ℕ

-- InviteLimits::default
abbrev pub default_invite_limits : InviteLimits
default_invite_limits = record {
  max_slots = max_invite_slots_default;
  max_bundle_bytes = max_invite_bundle_bytes_default;
  max_expiry_secs = max_invite_expiry_secs_default;
  create_burst = invite_create_burst_default;
  create_refill_per_sec = invite_create_refill_per_sec_default;
}

unfoldable pub new_invite_limits : ℕ → ℕ → ℕ → ℕ → ℕ → Result InviteLimits
unfolding limit_or_error
new_invite_limits max_slots max_bundle_bytes max_expiry_secs create_burst create_refill_per_sec = do
  slots ← limit_or_error "MAX_INVITE_SLOTS" max_slots max_invite_slots_ceiling
  bundle ← limit_or_error "MAX_INVITE_BUNDLE_BYTES" max_bundle_bytes max_invite_bundle_bytes_ceiling
  expiry ← limit_or_error "MAX_INVITE_EXPIRY_SECS" max_expiry_secs max_invite_expiry_secs_ceiling
  burst ← limit_or_error "INVITE_CREATE_BURST" create_burst invite_create_burst_ceiling
  ok (record {
    max_slots = slots;
    max_bundle_bytes = bundle;
    max_expiry_secs = expiry;
    create_burst = burst;
    create_refill_per_sec = min create_refill_per_sec max_push_rate_refill_per_sec_ceiling;
  })

pub record ResourceControls : Type 0 where
  pub max_route_count : ℕ
  pub push_rate_burst : ℕ
  pub push_rate_refill_per_sec : ℕ
  pub route_idle_ttl : ℕ

-- ResourceControls::default
abbrev pub default_controls : ResourceControls
default_controls = record {
  max_route_count = max_route_count_ceiling;
  push_rate_burst = max_push_rate_burst_ceiling;
  push_rate_refill_per_sec = max_push_rate_burst_ceiling;
  route_idle_ttl = route_idle_ttl_ms_default;
}

unfoldable pub new_with_route_idle_ttl_ms : ℕ → ℕ → ℕ → ℕ → Result ResourceControls
unfolding limit_or_error push_rate_refill_or_cap
new_with_route_idle_ttl_ms max_route_count push_rate_burst push_rate_refill_per_sec
      route_idle_ttl_ms =
    do
      routes ← limit_or_error "MAX_ROUTE_COUNT" max_route_count max_route_count_ceiling
      burst ← limit_or_error "PUSH_RATE_BURST" push_rate_burst max_push_rate_burst_ceiling
      idle ← limit_or_error "ROUTE_IDLE_TTL_MS" route_idle_ttl_ms max_route_idle_ttl_ms_ceiling
      ok (record {
        max_route_count = routes;
        push_rate_burst = burst;
        push_rate_refill_per_sec = push_rate_refill_or_cap push_rate_refill_per_sec;
        route_idle_ttl = idle;
      })

unfoldable pub new_controls : ℕ → ℕ → ℕ → Result ResourceControls
unfolding new_with_route_idle_ttl_ms
new_controls max_route_count push_rate_burst push_rate_refill_per_sec =
    new_with_route_idle_ttl_ms max_route_count push_rate_burst push_rate_refill_per_sec
      route_idle_ttl_ms_default

-- `path` is a file, or `:memory:`.
pub record StoreConfig : Type 0 where
  pub path : Text
  pub retention_ttl_secs : ℕ
  pub pull_lease_secs : ℕ

-- StoreConfig::default
abbrev pub default_store_config : StoreConfig
default_store_config = record {
  path = ascii ":memory:";
  retention_ttl_secs = retention_ttl_secs_default;
  pull_lease_secs = pull_lease_secs_default;
}
