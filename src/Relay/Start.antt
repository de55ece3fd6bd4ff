-- ===== src/Relay/Start.antt =====
-- src/lib.rs: `AppState::new_full` and the constructors over it, with `ServerInfoCfg::from_env`.
use qsl_server.Base.{ℕ, Text, Option, []}
use qsl_server.Base.Result.{Result, ok, ◌>>=◌}
use qsl_server.Config.Limits.{
  default_controls, default_invite_limits, default_store_config, Limits, InviteLimits,
  ResourceControls, StoreConfig, retention_ttl_or_error,
}
use qsl_server.Config.Env.{Vars, env_opt, relay_token_from_env}
use qsl_server.Rate.Bucket.{new_bucket}
use qsl_server.Store.Open.{File, Setup, tables, open_store}
use qsl_server.Relay.State.{Settings, Relay, ServerInfoCfg}
use qsl_server.Relay.Buckets.{invite_bucket_controls}

-- A relay with no push bucket, a full bucket of invite creation, and the tables of the file.
unfoldable pub new_full :
    Limits
    → ResourceControls
    → Option Text
    → StoreConfig
    → ServerInfoCfg
    → InviteLimits
    → ℕ
    → Setup
    → File
    → Result (Settings × Relay)
unfolding retention_ttl_or_error open_store new_bucket
new_full limits controls relay_token cfg info invite_limits mono_now w file = do
  ttl ← retention_ttl_or_error cfg.retention_ttl_secs
  store ← (open_store cfg w file).0
  ok (
    record {
      limits = limits;
      controls = controls;
      relay_token = relay_token;
      retention_ttl_secs = ttl;
      server_info = info;
      invite_limits = invite_limits;
      store = store;
    },
    record {
      db = tables (open_store cfg w file).1;
      push_rates = [];
      invite_create_rate = new_bucket mono_now (invite_bucket_controls invite_limits);
    },
  )

unfoldable pub server_info_from_env : Vars → ServerInfoCfg
unfolding env_opt
server_info_from_env vars = record {
  name = env_opt vars "RELAY_NAME";
  attachments_service_url = env_opt vars "RELAY_ATTACHMENTS_SERVICE_URL";
  min_client_version = env_opt vars "RELAY_MIN_CLIENT_VERSION";
}

-- The constructors of the library, on a monotonic clock and what the open of the file meets. Where one
-- panics it is an error here.
module _ (mono_now : ℕ) (w : Setup) (file : File) where
  unfoldable pub new_with_auth_controls_store_and_info :
      Limits
      → ResourceControls
      → Option Text
      → StoreConfig
      → ServerInfoCfg
      → Result (Settings × Relay)
  unfolding new_full
  new_with_auth_controls_store_and_info limits controls relay_token cfg info =
      new_full limits controls relay_token cfg info default_invite_limits mono_now w file

  unfoldable pub new_with_auth_controls_and_store :
      Vars → Limits → ResourceControls → Option Text → StoreConfig → Result (Settings × Relay)
  unfolding new_with_auth_controls_store_and_info server_info_from_env
  new_with_auth_controls_and_store vars limits controls relay_token cfg =
      new_with_auth_controls_store_and_info limits controls relay_token cfg
        (server_info_from_env vars)

  unfoldable pub new_with_controls_and_store :
      Vars → Limits → ResourceControls → StoreConfig → Result (Settings × Relay)
  unfolding new_with_auth_controls_and_store relay_token_from_env
  new_with_controls_and_store vars limits controls cfg =
      new_with_auth_controls_and_store vars limits controls (relay_token_from_env vars) cfg

  unfoldable pub new_with_auth_and_controls :
      Vars → Limits → ResourceControls → Option Text → Result (Settings × Relay)
  unfolding new_with_auth_controls_and_store
  new_with_auth_and_controls vars limits controls relay_token =
      new_with_auth_controls_and_store vars limits controls relay_token default_store_config

  unfoldable pub new_with_controls : Vars → Limits → ResourceControls → Result (Settings × Relay)
  unfolding new_with_auth_and_controls relay_token_from_env
  new_with_controls vars limits controls =
      new_with_auth_and_controls vars limits controls (relay_token_from_env vars)

  unfoldable pub new_with_auth : Vars → Limits → Option Text → Result (Settings × Relay)
  unfolding new_with_auth_and_controls
  new_with_auth vars limits relay_token =
      new_with_auth_and_controls vars limits default_controls relay_token

  unfoldable pub new : Vars → Limits → Result (Settings × Relay)
  unfolding new_with_auth relay_token_from_env
  new vars limits = new_with_auth vars limits (relay_token_from_env vars)
