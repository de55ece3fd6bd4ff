-- ===== src/Relay/Started.antt =====
-- What a start of the binary gives.
use qsl_server.Base.{ℕ, ◌≡◌, refl, sym, subst, ap, ◌∙◌, []}
use qsl_server.Base.Result.{ok, then-ok, ok-inj}
use qsl_server.Config.Resolve.{Cli, Config, ok_or}
use qsl_server.Config.Bounds.{
  Within, InRange, resolve_config-InRange, retention-Within, lease-Within,
}
use qsl_server.Config.Limits.{StoreConfig, retention_ttl_or_error, pull_lease_or_error}
use qsl_server.Config.Env.{Vars, from_env}
use qsl_server.Rate.Bucket.{new_bucket}
use qsl_server.Store.Schema.{Db}
use qsl_server.Store.Open.{File, Setup, tables, open_store, durations}
use qsl_server.Store.Reopen.{open_store-tables, open_store-durations}
use qsl_server.Relay.State.{Settings, Relay}
use qsl_server.Relay.Start.{new_full}
use qsl_server.Relay.Main.{Net, configure, boot, main}

-- What a start gives: the settings of the configuration, one lifetime for reports and for the store,
-- the tables of the file, and full buckets.
pub record Started (cfg : Config) (db : Db) (st : Settings) (r : Relay) : Type 0 where
  pub limits : st.limits ≡ cfg.limits
  pub controls : st.controls ≡ cfg.controls
  pub invites : st.invite_limits ≡ cfg.invites
  pub lifetime : retention_ttl_or_error cfg.store.retention_ttl_secs ≡ ok st.retention_ttl_secs
  pub lives : durations cfg.store ≡ ok st.store
  pub tables : r.db ≡ db
  pub pushes : r.push_rates ≡ []
  pub creates : r.invite_create_rate.tokens ≡ cfg.invites.create_burst

pub boot-Started :
    (vars : Vars) (cfg : Config) (net : Net) (mono_now : ℕ) (w : Setup) (file : File)
    (st : Settings) (r : Relay)
    → boot vars cfg net mono_now w file ≡ ok (st, r)
    → Started cfg (tables file) st r
unfolding boot new_full new_bucket
boot-Started vars cfg net mono_now w file st r h =
    then-ok (ok_or (net.address cfg.bind cfg.port) "ERR_BIND_PARSE") _ h (λ address e h.
      then-ok (ok_or (net.listen address) "ERR_BIND_LISTEN") _ h (λ local e h.
        then-ok (retention_ttl_or_error cfg.store.retention_ttl_secs) _ h (λ ttl e_ttl h.
          then-ok (open_store cfg.store w file).0 _ h (λ store e_store h.
            subst (λ x. Started cfg (tables file) x.0 x.1) (ok-inj h)
              (record {
                limits = refl;
                controls = refl;
                invites = refl;
                lifetime = e_ttl;
                lives = open_store-durations cfg.store w file store e_store;
                tables = open_store-tables cfg.store w file;
                pushes = refl;
                creates = refl;
              })))))

-- A start of the binary: its configuration, and a start of the relay with it.
pub main-boot {ℓ} :
    {P : Type ℓ} (vars : Vars) (cli : Cli) (net : Net) (mono_now : ℕ) (w : Setup) (file : File)
    (st : Settings) (r : Relay)
    → main vars cli net mono_now w file ≡ ok (st, r)
    → ((cfg : Config)
        → configure vars cli ≡ ok cfg
        → InRange cfg
        → Started cfg (tables file) st r
        → P)
    → P
unfolding main configure
main-boot vars cli net mono_now w file st r h k = then-ok (configure vars cli) _ h (λ cfg e h.
    then-ok (from_env vars) _ e (λ env e_env resolved.
      k cfg e (resolve_config-InRange cli env cfg resolved)
        (boot-Started vars cfg net mono_now w file st r h)))

-- The durations that `Store::open` accepts, and the lifetime that is reported.
pub durations-Within :
    (cfg : StoreConfig) (st : Settings)
    → retention_ttl_or_error cfg.retention_ttl_secs ≡ ok st.retention_ttl_secs
    → durations cfg ≡ ok st.store
    → Within 2592000 st.store.retention_ttl_secs
      × Within 3600 st.store.pull_lease_secs
      × (st.retention_ttl_secs ≡ st.store.retention_ttl_secs)
unfolding durations
durations-Within cfg st reported d =
    then-ok (retention_ttl_or_error cfg.retention_ttl_secs) _ d (λ ttl e_ttl d.
      then-ok (pull_lease_or_error cfg.pull_lease_secs) _ d (λ lease e_lease d.
        let same = ok-inj d in
        (
          subst (λ s. Within 2592000 s.retention_ttl_secs) same
              (retention-Within cfg.retention_ttl_secs ttl e_ttl),
          subst (λ s. Within 3600 s.pull_lease_secs) same
              (lease-Within cfg.pull_lease_secs lease e_lease),
          ok-inj (sym reported ∙ e_ttl) ∙ ap (λ s. s.retention_ttl_secs) same,
        )))
