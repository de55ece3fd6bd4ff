-- ===== src/Config/Bounds.antt =====
-- What a configuration that `resolve_config` accepts allows.
use qsl_server.Base.{ℕ, String, Text, ◌≤◌, ◌<◌, ◌≡◌, refl, arith, subst}
use qsl_server.Base.Result.{Result, ok, err, ◌>>=◌, ok-inj}
use qsl_server.Config.Limits.{
  Limits, InviteLimits, ResourceControls, limit_or_error, new_limits, new_invite_limits,
  new_controls, new_with_route_idle_ttl_ms, retention_ttl_or_error, pull_lease_or_error,
  push_rate_refill_or_cap, retention_ttl_secs_default, pull_lease_secs_default,
  max_body_bytes_ceiling, max_queue_depth_ceiling, max_route_count_ceiling,
  max_push_rate_burst_ceiling, max_invite_slots_default, max_invite_bundle_bytes_default,
  max_invite_expiry_secs_default, invite_create_burst_default, invite_create_refill_per_sec_default,
}
use qsl_server.Config.Resolve.{
  Cli, EnvVals, Config, resolve_config, resolve_invites, resolve_limits, resolve_controls, ok_or,
  or_else, setting, assemble,
}

-- Positive, and at most a ceiling.
abbrev pub Within : ℕ → ℕ → Type 0
Within ceiling n = (0 < n) × (n ≤ ceiling)

abbrev pub LimitsInRange : Limits → Type 0
LimitsInRange l = Within 1048576 l.max_body_bytes × Within 257 l.max_queue_depth

abbrev pub InvitesInRange : InviteLimits → Type 0
InvitesInRange i =
    Within 4096 i.max_slots
    × Within 65536 i.max_bundle_bytes
    × Within 2592000 i.max_expiry_secs
    × Within 4096 i.create_burst
    × (i.create_refill_per_sec ≤ 4096)

abbrev pub ControlsInRange : ResourceControls → Type 0
ControlsInRange c =
    Within 256 c.max_route_count
    × Within 257 c.push_rate_burst
    × (c.push_rate_refill_per_sec ≤ 4096)

abbrev pub InRange : Config → Type 0
InRange c =
    LimitsInRange c.limits
    × ControlsInRange c.controls
    × InvitesInRange c.invites
    × Within 2592000 c.store.retention_ttl_secs
    × Within 3600 c.store.pull_lease_secs

pub limit_or_error-Within :
    (name : String) (v c n : ℕ) → 0 < c → limit_or_error name v c ≡ ok n → Within c n
unfolding limit_or_error
limit_or_error-Within name v c n p e = ground arith

pub new_limits-InRange : (b d : ℕ) (l : Limits) → new_limits b d ≡ ok l → LimitsInRange l
unfolding new_limits limit_or_error
new_limits-InRange b d l e = ground arith

pub new_invite_limits-InRange :
    (s b x c r : ℕ) (l : InviteLimits) → new_invite_limits s b x c r ≡ ok l → InvitesInRange l
unfolding new_invite_limits limit_or_error
new_invite_limits-InRange s b x c r l e = ground arith

pub new_controls-InRange :
    (m b r : ℕ) (l : ResourceControls) → new_controls m b r ≡ ok l → ControlsInRange l
unfolding new_controls new_with_route_idle_ttl_ms limit_or_error push_rate_refill_or_cap
new_controls-InRange m b r l e = ground arith

pub retention-Within : (v n : ℕ) → retention_ttl_or_error v ≡ ok n → Within 2592000 n
unfolding retention_ttl_or_error
retention-Within v n e = ground arith

pub lease-Within : (v n : ℕ) → pull_lease_or_error v ≡ ok n → Within 3600 n
unfolding pull_lease_or_error
lease-Within v n e = ground arith

-- The chain of `resolve_config`, for any results of its steps.
abbrev Assemble : Type 0
Assemble = Text → ℕ → ℕ → InviteLimits → Limits → ResourceControls → Config

abbrev chain :
    Result Text
    → Result ℕ
    → Result ℕ
    → Result InviteLimits
    → Result Limits
    → Result ResourceControls
    → Assemble
    → Result Config
chain p r l i m k f = do
  path ← p
  retention ← r
  lease ← l
  invites ← i
  limits ← m
  controls ← k
  ok (f path retention lease invites limits controls)

chain-ok :
    (p : Result Text) (r l : Result ℕ) (i : Result InviteLimits) (m : Result Limits)
    (k : Result ResourceControls) (f : Assemble) (Q : Config → Type 0) (c : Config)
    → chain p r l i m k f ≡ ok c
    → ((path : Text) (retention lease : ℕ) (invites : InviteLimits) (limits : Limits)
          (controls : ResourceControls)
        → r ≡ ok retention
        → l ≡ ok lease
        → i ≡ ok invites
        → m ≡ ok limits
        → k ≡ ok controls
        → Q (f path retention lease invites limits controls))
    → Q c
chain-ok (ok p) (ok r) (ok l) (ok i) (ok m) (ok k) f Q c e h =
    subst Q (ok-inj e) (h p r l i m k refl refl refl refl refl)
chain-ok (err s) r l i m k f Q c e h = ground arith
chain-ok (ok p) (err s) l i m k f Q c e h = ground arith
chain-ok (ok p) (ok r) (err s) i m k f Q c e h = ground arith
chain-ok (ok p) (ok r) (ok l) (err s) m k f Q c e h = ground arith
chain-ok (ok p) (ok r) (ok l) (ok i) (err s) k f Q c e h = ground arith
chain-ok (ok p) (ok r) (ok l) (ok i) (ok m) (err s) f Q c e h = ground arith

-- Every configuration that `resolve_config` accepts has positive limits, at most the ceilings of the
-- source: whatever the command line and the environment say.
pub resolve_config-InRange :
    (cli : Cli) (env : EnvVals) (c : Config) → resolve_config cli env ≡ ok c → InRange c
unfolding resolve_config resolve_invites resolve_limits resolve_controls
resolve_config-InRange cli env c e =
    chain-ok (ok_or (or_else cli.store_path env.store_path) "ERR_INVALID_CONFIG_STORE_PATH")
      (retention_ttl_or_error
        (setting cli.retention_ttl_secs env.retention_ttl_secs retention_ttl_secs_default))
      (pull_lease_or_error
        (setting cli.pull_lease_secs env.pull_lease_secs pull_lease_secs_default))
      (resolve_invites cli env) (resolve_limits cli env) (resolve_controls cli env)
      (assemble cli env) InRange c e
      (λ path retention lease invites limits controls r l i m k. (
        new_limits-InRange (setting cli.max_body_bytes env.max_body_bytes max_body_bytes_ceiling)
            (setting cli.max_queue_depth env.max_queue_depth max_queue_depth_ceiling) limits m,
        new_controls-InRange
            (setting cli.max_route_count env.max_route_count max_route_count_ceiling)
            (setting cli.push_rate_burst env.push_rate_burst max_push_rate_burst_ceiling)
            (setting cli.push_rate_refill_per_sec env.push_rate_refill_per_sec
              max_push_rate_burst_ceiling)
            controls k,
        new_invite_limits-InRange
            (setting cli.max_invite_slots env.max_invite_slots max_invite_slots_default)
            (setting cli.max_invite_bundle_bytes env.max_invite_bundle_bytes
              max_invite_bundle_bytes_default)
            (setting cli.max_invite_expiry_secs env.max_invite_expiry_secs
              max_invite_expiry_secs_default)
            (setting cli.invite_create_burst env.invite_create_burst invite_create_burst_default)
            (setting cli.invite_create_refill_per_sec env.invite_create_refill_per_sec
              invite_create_refill_per_sec_default)
            invites i,
        retention-Within
            (setting cli.retention_ttl_secs env.retention_ttl_secs retention_ttl_secs_default)
            retention r,
        lease-Within (setting cli.pull_lease_secs env.pull_lease_secs pull_lease_secs_default) lease
            l,
      ))
