-- ===== src/Relay/Lives.antt =====
-- The relay from one start to the next.
use qsl_server.Base.{ℕ, ◌≡◌, sym, subst, arith, ◌∙◌}
use qsl_server.Base.Result.{ok, ok-inj}
use qsl_server.Config.Resolve.{Cli, Config}
use qsl_server.Config.Bounds.{Within, LimitsInRange, InvitesInRange, ControlsInRange, InRange}
use qsl_server.Config.Env.{Vars}
use qsl_server.Store.Schema.{fresh, Db}
use qsl_server.Store.Open.{File, Setup, tables}
use qsl_server.Store.Valid.Invariant.{IsValid, fresh-IsValid}
use qsl_server.Store.Bounds.Within.{Caps, IsWithin}
use qsl_server.Store.Bounds.Caps.{fresh-IsWithin}
use qsl_server.Store.Keyed.{IsKeyed, fresh-IsKeyed}
use qsl_server.Relay.State.{Settings, Relay}
use qsl_server.Relay.Main.{Net, configure, main}
use qsl_server.Relay.Started.{Started, main-boot, durations-Within}
use qsl_server.Relay.Actions.{caps_of}
use qsl_server.Relay.Reach.{Reaches}
use qsl_server.Relay.Sound.{IsSound, Reaches-IsSound}

-- When the binary starts, whatever its command line, its environment and its file, the relay runs with
-- positive limits at most the ceilings of the source, and the lifetime that it reports is the one that
-- its store applies.
pub main-InRange :
    (vars : Vars) (cli : Cli) (net : Net) (mono_now : ℕ) (w : Setup) (file : File) (st : Settings)
    (r : Relay)
    → main vars cli net mono_now w file ≡ ok (st, r)
    → LimitsInRange st.limits
      × ControlsInRange st.controls
      × InvitesInRange st.invite_limits
      × Within 2592000 st.store.retention_ttl_secs
      × Within 3600 st.store.pull_lease_secs
      × (st.retention_ttl_secs ≡ st.store.retention_ttl_secs)
main-InRange vars cli net mono_now w file st r h =
    main-boot vars cli net mono_now w file st r h (λ cfg e (l, c, i, t, p) s.
      let (ttl, lease, reported) = durations-Within cfg.store st s.lifetime s.lives in
      (
        subst LimitsInRange (sym s.limits) l,
        subst ControlsInRange (sym s.controls) c,
        subst InvitesInRange (sym s.invites) i,
        ttl,
        lease,
        reported,
      ))

-- The caps of a configuration.
abbrev pub caps_in : Config → Caps
caps_in cfg = record {
  max_queue_depth = cfg.limits.max_queue_depth;
  max_route_count = cfg.controls.max_route_count;
  max_slots = cfg.invites.max_slots;
}

Started-caps :
    {cfg : Config} {db : Db} {st : Settings} {r : Relay}
    → Started cfg db st r
    → caps_of st ≡ caps_in cfg
Started-caps s = rw (s.limits, s.controls, s.invites)

Started-IsSound :
    (cfg : Config) (db : Db) (st : Settings) (r : Relay)
    → Started cfg db st r
    → IsValid db
    → IsWithin (caps_in cfg) db
    → IsKeyed db
    → IsSound st r
Started-IsSound cfg db st r s v i keys = record {
  keyed = subst IsKeyed (sym s.tables) keys;
  valid = subst IsValid (sym s.tables) v;
  within = rw (Started-caps s, s.tables) i;
  pushes = rw s.pushes tt;
  creates = rw (s.creates, s.invites) (omega arith);
}

-- The tables that the file has when no process runs: those of a new file, or those of a state that a
-- process reached which was started with these variables and this command line, on any network, at any
-- time and with any schema marker in the file. A process ends at any access.
pub data Lives (vars : Vars) (cli : Cli) : Db → Type 0 where
  blank : Lives vars cli fresh
  life :
      (file : File) (net : Net) (mono_now : ℕ) (w : Setup) (st : Settings) (r s : Relay)
      → Lives vars cli (tables file)
      → main vars cli net mono_now w file ≡ ok (st, r)
      → Reaches st r s
      → Lives vars cli s.db

Reaches-Started :
    {cfg : Config} {db : Db} {st : Settings} {r s : Relay}
    → Started cfg db st r
    → InRange cfg
    → IsValid db
    → IsWithin (caps_in cfg) db
    → IsKeyed db
    → Reaches st r s
    → IsValid s.db × IsWithin (caps_in cfg) s.db × IsKeyed s.db
Reaches-Started {cfg} {db} {st} {r} {s} b c v i keys run =
    let sound =
      Reaches-IsSound (rw b.limits c.0.1.0) (Started-IsSound cfg db st r b v i keys) run in
    (sound.valid, subst (λ k. IsWithin k s.db) (Started-caps b) sound.within, sound.keyed)

-- Over any number of starts and ends of the binary with one environment and one command line, from a
-- new file and with each process ended at any point of any interleaving of its requests and sweeps: the
-- tables of the file are well formed and within the configured caps, and every key of a message and of
-- an invite slot is a text of hexadecimal digits.
pub Lives-IsValid :
    {vars : Vars} {cli : Cli} {db : Db} (cfg : Config)
    → configure vars cli ≡ ok cfg
    → Lives vars cli db
    → IsValid db × IsWithin (caps_in cfg) db × IsKeyed db
Lives-IsValid cfg e blank = (fresh-IsValid, fresh-IsWithin (caps_in cfg), fresh-IsKeyed)
Lives-IsValid {vars} {cli} cfg e (life file net mono_now w st r s before h run) =
    main-boot vars cli net mono_now w file st r h (λ c e_c range started.
      let same = ok-inj (sym e_c ∙ e) in
      let (v, i, keys) = Lives-IsValid cfg e before in
      Reaches-Started (subst (λ x. Started x (tables file) st r) same started)
        (subst InRange same range) v i keys run)
