-- ===== src/Config/Resolve.antt =====
-- src/main.rs: `Cli`, `EnvVals`, `Config` and `resolve_config`. `EnvVals` is what
-- `EnvVals::from_env` read and parsed.
use qsl_server.Base.{ℕ, String, Text, ascii, Bool, true, false, ◌||◌, Option, some, none}
use qsl_server.Base.Result.{Result, ok, err, ◌>>=◌}
use qsl_server.Config.Limits.{
  max_invite_slots_default, max_invite_bundle_bytes_default, max_invite_expiry_secs_default,
  invite_create_burst_default, invite_create_refill_per_sec_default, max_body_bytes_ceiling,
  max_queue_depth_ceiling, max_route_count_ceiling, max_push_rate_burst_ceiling,
  retention_ttl_secs_default, pull_lease_secs_default, retention_ttl_or_error, pull_lease_or_error,
  Limits, new_limits, InviteLimits, new_invite_limits, ResourceControls, new_controls, StoreConfig,
}

-- Option::or, Option::unwrap_or, Option::is_some and Option::ok_or_else
abbrev pub or_else {ℓ} : {A : Type ℓ} → Option A → Option A → Option A
or_else (some a) o = some a
or_else none o = o

abbrev pub unwrap_or {ℓ} : {A : Type ℓ} → Option A → A → A
unwrap_or (some a) d = a
unwrap_or none d = d

abbrev pub is_some {ℓ} : {A : Type ℓ} → Option A → Bool
is_some (some a) = true
is_some none = false

abbrev pub ok_or {ℓ} : {A : Type ℓ} → Option A → String → Result A
ok_or (some a) e = ok a
ok_or none e = err e

pub record Cli : Type 0 where
  pub bind : Option Text
  pub port : Option ℕ
  pub max_body_bytes : Option ℕ
  pub max_queue_depth : Option ℕ
  pub max_route_count : Option ℕ
  pub push_rate_burst : Option ℕ
  pub push_rate_refill_per_sec : Option ℕ
  pub route_idle_ttl_ms : Option ℕ
  pub store_path : Option Text
  pub retention_ttl_secs : Option ℕ
  pub pull_lease_secs : Option ℕ
  pub max_invite_slots : Option ℕ
  pub max_invite_bundle_bytes : Option ℕ
  pub max_invite_expiry_secs : Option ℕ
  pub invite_create_burst : Option ℕ
  pub invite_create_refill_per_sec : Option ℕ

pub record EnvVals : Type 0 where
  pub bind : Option Text
  pub port : Option ℕ
  pub max_body_bytes : Option ℕ
  pub max_queue_depth : Option ℕ
  pub max_route_count : Option ℕ
  pub push_rate_burst : Option ℕ
  pub push_rate_refill_per_sec : Option ℕ
  pub route_idle_ttl_ms_present : Bool
  pub store_path : Option Text
  pub retention_ttl_secs : Option ℕ
  pub pull_lease_secs : Option ℕ
  pub max_invite_slots : Option ℕ
  pub max_invite_bundle_bytes : Option ℕ
  pub max_invite_expiry_secs : Option ℕ
  pub invite_create_burst : Option ℕ
  pub invite_create_refill_per_sec : Option ℕ

pub record Config : Type 0 where
  pub bind : Text
  pub port : ℕ
  pub limits : Limits
  pub controls : ResourceControls
  pub store : StoreConfig
  pub invites : InviteLimits
  pub deprecated_route_idle_ttl : Bool

-- The command line, or else the environment, or else the default.
abbrev pub setting {ℓ} : {A : Type ℓ} → Option A → Option A → A → A
setting cli env d = unwrap_or (or_else cli env) d

unfoldable pub resolve_invites : Cli → EnvVals → Result InviteLimits
unfolding new_invite_limits
resolve_invites cli env =
    new_invite_limits (setting cli.max_invite_slots env.max_invite_slots max_invite_slots_default)
      (setting cli.max_invite_bundle_bytes env.max_invite_bundle_bytes
        max_invite_bundle_bytes_default)
      (setting cli.max_invite_expiry_secs env.max_invite_expiry_secs max_invite_expiry_secs_default)
      (setting cli.invite_create_burst env.invite_create_burst invite_create_burst_default)
      (setting cli.invite_create_refill_per_sec env.invite_create_refill_per_sec
        invite_create_refill_per_sec_default)

unfoldable pub resolve_limits : Cli → EnvVals → Result Limits
unfolding new_limits
resolve_limits cli env =
    new_limits (setting cli.max_body_bytes env.max_body_bytes max_body_bytes_ceiling)
      (setting cli.max_queue_depth env.max_queue_depth max_queue_depth_ceiling)

unfoldable pub resolve_controls : Cli → EnvVals → Result ResourceControls
unfolding new_controls
resolve_controls cli env =
    new_controls (setting cli.max_route_count env.max_route_count max_route_count_ceiling)
      (setting cli.push_rate_burst env.push_rate_burst max_push_rate_burst_ceiling)
      (setting cli.push_rate_refill_per_sec env.push_rate_refill_per_sec
        max_push_rate_burst_ceiling)

-- The struct that `resolve_config` builds at its end.
abbrev pub assemble :
    Cli → EnvVals → Text → ℕ → ℕ → InviteLimits → Limits → ResourceControls → Config
assemble cli env path retention lease invites limits controls = record {
  bind = setting cli.bind env.bind (ascii "127.0.0.1");
  port = setting cli.port env.port 8080;
  limits = limits;
  controls = controls;
  store = record { path = path; retention_ttl_secs = retention; pull_lease_secs = lease };
  invites = invites;
  deprecated_route_idle_ttl = is_some cli.route_idle_ttl_ms || env.route_idle_ttl_ms_present;
}

unfoldable pub resolve_config : Cli → EnvVals → Result Config
unfolding resolve_invites resolve_limits resolve_controls retention_ttl_or_error pull_lease_or_error
resolve_config cli env = do
  path ← ok_or (or_else cli.store_path env.store_path) "ERR_INVALID_CONFIG_STORE_PATH"
  retention ←
      retention_ttl_or_error
        (setting cli.retention_ttl_secs env.retention_ttl_secs retention_ttl_secs_default)
  lease ←
      pull_lease_or_error (setting cli.pull_lease_secs env.pull_lease_secs pull_lease_secs_default)
  invites ← resolve_invites cli env
  limits ← resolve_limits cli env
  controls ← resolve_controls cli env
  ok (assemble cli env path retention lease invites limits controls)
