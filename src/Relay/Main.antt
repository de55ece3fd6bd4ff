-- ===== src/Relay/Main.antt =====
-- src/main.rs: `main` up to the state that it serves. The command line is what clap parsed.
use qsl_server.Base.{ℕ, Text, Option}
use qsl_server.Base.Result.{Result, ◌>>=◌}
use qsl_server.Config.Resolve.{Cli, Config, resolve_config, ok_or}
use qsl_server.Config.Env.{Vars, from_env, relay_token_from_env}
use qsl_server.Store.Open.{File, Setup}
use qsl_server.Relay.State.{Settings, Relay}
use qsl_server.Relay.Start.{new_full, server_info_from_env}

-- The network: `SocketAddr::from_str` on a host and a port, and binding a listener to an address with
-- `local_addr` of it.
pub record Net : Type 0 where
  pub address : Text → ℕ → Option Text
  pub listen : Text → Option Text

unfoldable pub configure : Vars → Cli → Result Config
unfolding from_env resolve_config
configure vars cli = do env ← from_env vars; resolve_config cli env

unfoldable pub boot : Vars → Config → Net → ℕ → Setup → File → Result (Settings × Relay)
unfolding new_full server_info_from_env relay_token_from_env
boot vars cfg net mono_now w file = do
  address ← ok_or (net.address cfg.bind cfg.port) "ERR_BIND_PARSE"
  local ← ok_or (net.listen address) "ERR_BIND_LISTEN"
  new_full cfg.limits cfg.controls (relay_token_from_env vars) cfg.store (server_info_from_env vars)
      cfg.invites mono_now w file

-- An error is logged and ends the process with status 1.
unfoldable pub main : Vars → Cli → Net → ℕ → Setup → File → Result (Settings × Relay)
unfolding configure boot
main vars cli net mono_now w file = do cfg ← configure vars cli; boot vars cfg net mono_now w file
