-- ===== src/Store/Status.antt =====
-- src/store.rs: `route_status`.
use qsl_server.Base.{ℕ, Text, some, length, count_where, exists_where}
use qsl_server.Base.Result.{Result}
use qsl_server.Store.Schema.{Db, Store, RouteStatus, route_is, message_on}
use qsl_server.Store.Transaction.{Fault, Tx, transact}
use qsl_server.Store.Sweep.{sweep_expired}

unfoldable pub route_status_tx : Store → Text → ℕ → Tx RouteStatus
unfolding sweep_expired
route_status_tx st route_key now db =
    let (sweep, after) = sweep_expired st.retention_ttl_secs now db in
    (
      record {
        route_exists = exists_where (route_is route_key) after.routes;
        depth = count_where (message_on route_key) after.messages;
        live_routes = length after.routes;
        sweep = sweep;
      },
      some after,
    )

unfoldable pub route_status : Fault → Store → Text → ℕ → Db → Result RouteStatus × Db
unfolding route_status_tx transact
route_status f st route_key now = transact f (route_status_tx st route_key now)
