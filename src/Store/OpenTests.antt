-- ===== src/Store/OpenTests.antt =====
-- The theorems on opening a store, at concrete values.
use qsl_server.Base.{◌≡◌, refl, true, false, none, some, [], ascii}
use qsl_server.Base.Result.{ok, err}
use qsl_server.Config.Limits.{default_store_config}
use qsl_server.Store.Schema.{Store}
use qsl_server.Store.Open.{File, Setup, marker, tables, open_store}
use qsl_server.Store.Prepared.{Spared}
use qsl_server.Store.Reopen.{open_store-spared, open_store-is_supported, open_store-again}

abbrev works : Setup
works = record { opened = true; prepare = none; write = none }

abbrev stuck : Setup
stuck = record { opened = true; prepare = none; write = some "disk full" }

-- A file of an earlier build, without the table of invites.
abbrev older : File
older = record {
  wal = false;
  meta = some (some (ascii "1"));
  routes = some [];
  messages = some [];
  invites = none;
  idx_messages_route_seq = true;
  idx_messages_enqueued = true;
  idx_invites_expiry = false;
  next_seq = 1;
}

abbrev newer : File
newer = record older { meta = some (some (ascii "3")) }

abbrev store : Store
store = record { retention_ttl_secs = 604800; pull_lease_secs = 60 }

-- The table of invites is there afterwards.
open_store-spared_example :
    let g = (open_store default_store_config stuck older).1 in
    (tables g ≡ tables older) × (marker g ≡ marker older) × Spared older g
unfolding open_store
open_store-spared_example =
    open_store-spared default_store_config stuck older "ERR_STORE disk full" refl

open_store-is_supported_example :
    (open_store default_store_config works newer).0 ≡ err "ERR_STORE_VERSION"
unfolding open_store
open_store-is_supported_example =
    open_store-is_supported default_store_config works newer store refl refl refl refl

open_store-again_example :
    open_store default_store_config works (open_store default_store_config works older).1
    ≡ (ok store, (open_store default_store_config works older).1)
unfolding open_store
open_store-again_example =
    open_store-again default_store_config works works older store refl refl refl
