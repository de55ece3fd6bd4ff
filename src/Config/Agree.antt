-- ===== src/Config/Agree.antt =====
-- The two ways to read the environment: of the library and of the binary.
use mathlib.Core.Option
use Prim.Native.String.{String, ◌++◌}
use qsl_server.Base.{ℕ, ◌^◌, Text, ◌≡◌, refl, ap, ◌∙◌, Option, some, none, arith}
use qsl_server.Base.Number.{parse_unsigned}
use qsl_server.Base.Result.{ok, ok-inj, then-ok}
use qsl_server.Config.Limits.{
  max_body_bytes_ceiling, max_queue_depth_ceiling, max_route_count_ceiling,
  max_push_rate_burst_ceiling, push_rate_refill_or_cap, new_controls, new_with_route_idle_ttl_ms,
}
use qsl_server.Config.Resolve.{Cli, ok_or, EnvVals, resolve_limits, resolve_controls, unwrap_or}
use qsl_server.Config.Env.{
  Vars, env_opt, read_some, read_or, read_refill_or, env_u16, env_usize, from_env,
  env_limit_or_default, env_refill_or_default, limits_from_env, controls_from_env,
}

-- A command line that says nothing.
abbrev pub no_cli : Cli
no_cli = record {
  bind = none;
  port = none;
  max_body_bytes = none;
  max_queue_depth = none;
  max_route_count = none;
  push_rate_burst = none;
  push_rate_refill_per_sec = none;
  route_idle_ttl_ms = none;
  store_path = none;
  retention_ttl_secs = none;
  pull_lease_secs = none;
  max_invite_slots = none;
  max_invite_bundle_bytes = none;
  max_invite_expiry_secs = none;
  invite_create_burst = none;
  invite_create_refill_per_sec = none;
}

abbrev Reads : Vars → EnvVals → Type 0
Reads vars env =
    (env_usize vars "MAX_BODY_BYTES" ≡ ok env.max_body_bytes)
    × (env_usize vars "MAX_QUEUE_DEPTH" ≡ ok env.max_queue_depth)
    × (env_usize vars "MAX_ROUTE_COUNT" ≡ ok env.max_route_count)
    × (env_usize vars "PUSH_RATE_BURST" ≡ ok env.push_rate_burst)
    × (env_usize vars "PUSH_RATE_REFILL_PER_SEC" ≡ ok env.push_rate_refill_per_sec)

from_env-Reads : (vars : Vars) (env : EnvVals) → from_env vars ≡ ok env → Reads vars env
unfolding from_env
from_env-Reads vars env h = then-ok (env_u16 vars "PORT") _ h (λ port e h.
    then-ok (env_usize vars "MAX_BODY_BYTES") _ h (λ body e_body h.
      then-ok (env_usize vars "MAX_QUEUE_DEPTH") _ h (λ depth e_depth h.
        then-ok (env_usize vars "MAX_ROUTE_COUNT") _ h (λ routes e_routes h.
          then-ok (env_usize vars "PUSH_RATE_BURST") _ h (λ burst e_burst h.
            then-ok (env_usize vars "PUSH_RATE_REFILL_PER_SEC") _ h (λ refill e_refill h.
              then-ok (env_usize vars "RETENTION_TTL_SECS") _ h (λ ttl e h.
                then-ok (env_usize vars "PULL_LEASE_SECS") _ h (λ lease e h.
                  then-ok (env_usize vars "MAX_INVITE_SLOTS") _ h (λ slots e h.
                    then-ok (env_usize vars "MAX_INVITE_BUNDLE_BYTES") _ h (λ bundle e h.
                      then-ok (env_usize vars "MAX_INVITE_EXPIRY_SECS") _ h (λ expiry e h.
                        then-ok (env_usize vars "INVITE_CREATE_BURST") _ h (λ create e h.
                          then-ok (env_usize vars "INVITE_CREATE_REFILL_PER_SEC") _ h
                            (λ create_refill e h.
                              let same = ok-inj h in
                              (
                                e_body ∙ ap (λ v. ok v.max_body_bytes) same,
                                e_depth ∙ ap (λ v. ok v.max_queue_depth) same,
                                e_routes ∙ ap (λ v. ok v.max_route_count) same,
                                e_burst ∙ ap (λ v. ok v.push_rate_burst) same,
                                e_refill ∙ ap (λ v. ok v.push_rate_refill_per_sec) same,
                              ))))))))))))))

ok_or-map :
    (f : ℕ → ℕ) (p : Option ℕ) (n : ℕ) (code : String)
    → ok_or p code ≡ ok n
    → ok_or (Option.map f p) code ≡ ok (f n)
ok_or-map f none n code e = ground arith
ok_or-map f (some m) n code e = ap (λ v. ok (f v)) (ok-inj e)

module _ (code : String) (default : ℕ) where
  read_or-agrees :
      (x : Option Text) (o : Option ℕ)
      → read_some (2 ^ 64) code x ≡ ok o
      → read_or code default x ≡ ok (unwrap_or o default)
  unfolding read_some read_or
  read_or-agrees none o h = ap (λ v. ok (unwrap_or v default)) (ok-inj h)
  read_or-agrees (some v) o h =
      then-ok (ok_or (parse_unsigned (2 ^ 64) v) code) _ h
        (λ n e k. e ∙ ap (λ v. ok (unwrap_or v default)) (ok-inj k))

  read_refill_or-agrees :
      (x : Option Text) (o : Option ℕ)
      → read_some (2 ^ 64) code x ≡ ok o
      → read_refill_or code default x
        ≡ ok (unwrap_or (Option.map push_rate_refill_or_cap o) default)
  unfolding read_some read_refill_or
  read_refill_or-agrees none o h =
      ap (λ v. ok (unwrap_or (Option.map push_rate_refill_or_cap v) default)) (ok-inj h)
  read_refill_or-agrees (some v) o h =
      then-ok (ok_or (parse_unsigned (2 ^ 64) v) code) _ h (λ n e k.
        ok_or-map push_rate_refill_or_cap (parse_unsigned (2 ^ 64) v) n code e
        ∙ ap (λ v. ok (unwrap_or (Option.map push_rate_refill_or_cap v) default)) (ok-inj k))

module _ (vars : Vars) (name : String) (default : ℕ) (o : Option ℕ)
    (h : env_usize vars name ≡ ok o) where
  limit-agrees : env_limit_or_default vars name default ≡ ok (unwrap_or o default)
  unfolding env_limit_or_default env_usize
  limit-agrees = read_or-agrees ("ERR_INVALID_CONFIG_" ++ name) default (env_opt vars name) o h

  refill-agrees :
      env_refill_or_default vars name default
      ≡ ok (unwrap_or (Option.map push_rate_refill_or_cap o) default)
  unfolding env_refill_or_default env_usize
  refill-agrees =
      read_refill_or-agrees ("ERR_INVALID_CONFIG_" ++ name) default (env_opt vars name) o h

capped_twice :
    (o : Option ℕ) (d : ℕ)
    → push_rate_refill_or_cap (unwrap_or (Option.map push_rate_refill_or_cap o) d)
      ≡ push_rate_refill_or_cap (unwrap_or o d)
unfolding push_rate_refill_or_cap
capped_twice none d = refl
capped_twice (some n) d = omega arith

limits-agree :
    (vars : Vars) (env : EnvVals)
    → from_env vars ≡ ok env
    → limits_from_env vars ≡ resolve_limits no_cli env
unfolding limits_from_env resolve_limits
limits-agree vars env h =
    let (body, depth, routes, burst, refill) = from_env-Reads vars env h in
    rw (
      limit-agrees vars "MAX_BODY_BYTES" max_body_bytes_ceiling env.max_body_bytes body,
      limit-agrees vars "MAX_QUEUE_DEPTH" max_queue_depth_ceiling env.max_queue_depth depth,
    )

controls-agree :
    (vars : Vars) (env : EnvVals)
    → from_env vars ≡ ok env
    → controls_from_env vars ≡ resolve_controls no_cli env
unfolding controls_from_env resolve_controls new_controls new_with_route_idle_ttl_ms
controls-agree vars env h =
    let (body, depth, routes, burst, refill) = from_env-Reads vars env h in
    rw (
      limit-agrees vars "MAX_ROUTE_COUNT" max_route_count_ceiling env.max_route_count routes,
      limit-agrees vars "PUSH_RATE_BURST" max_push_rate_burst_ceiling env.push_rate_burst burst,
      refill-agrees vars "PUSH_RATE_REFILL_PER_SEC" max_push_rate_burst_ceiling
          env.push_rate_refill_per_sec refill,
      capped_twice env.push_rate_refill_per_sec max_push_rate_burst_ceiling,
    )

-- Where the binary accepts the environment and the command line says nothing, the constructors of the
-- library and the resolution of the binary give the same limits and the same resource controls, or
-- refuse them with the same code.
pub from_env-agrees :
    (vars : Vars) (env : EnvVals)
    → from_env vars ≡ ok env
    → (limits_from_env vars ≡ resolve_limits no_cli env)
      × (controls_from_env vars ≡ resolve_controls no_cli env)
from_env-agrees vars env h = (limits-agree vars env h, controls-agree vars env h)
