-- ===== src/Store/Sweep.antt =====
-- src/store.rs: `sweep_expired` and `retention_sweep`.
use qsl_server.Base.{
  ℕ, ◌+◌, Text, Bool, not, ◌&&◌, some, List, [], ◌∷◌, map, leb, ◌==◌, if◌then◌else◌, select,
  delete_where, count_where, exists_where,
}
use qsl_server.Base.Result.{Result}
use qsl_server.Store.Schema.{
  Db, Route, Message, Invite, Store, SweepStats, message_on, delete_routes,
}
use qsl_server.Store.Transaction.{Fault, Tx, transact}

-- enqueued_at <= now - ttl, over the integers.
abbrev pub is_expired : ℕ → ℕ → Message → Bool
is_expired ttl now m = leb (m.enqueued_at + ttl) now

-- SWEEP_COUNT_EXPIRED_SQL: a group for each route with an expired message.
unfoldable pub expired_by_route : ℕ → ℕ → List Message → List Route → List (Text × ℕ)
expired_by_route ttl now ms [] = []
expired_by_route ttl now ms (r ∷ rs) =
    let n = count_where (λ m. is_expired ttl now m && message_on r.route_key m) ms in
    let rest = expired_by_route ttl now ms rs in if n == 0 then rest else (r.log_id, n) ∷ rest

-- NOT EXISTS (SELECT 1 FROM messages m WHERE m.route_key = r.route_key)
abbrev pub is_empty_route : List Message → Route → Bool
is_empty_route ms r = not (exists_where (message_on r.route_key) ms)

unfoldable pub delete_empty_routes : Db → Db
unfolding delete_routes
delete_empty_routes db = delete_routes (is_empty_route db.messages) db

-- The database after the DELETE of SWEEP_DELETE_EXPIRED_SQL.
unfoldable pub delete_expired : ℕ → ℕ → Db → Db
delete_expired ttl now db = record db { messages = delete_where (is_expired ttl now) db.messages }

abbrev pub invite_expired : ℕ → Invite → Bool
invite_expired now i = leb i.expiry now

unfoldable pub delete_expired_invites : ℕ → Db → Db
delete_expired_invites now db = record db { invites = delete_where (invite_expired now) db.invites }

-- The messages that go, and then the routes that have none left. The second DELETE runs only if
-- the first deleted a row.
unfoldable pub collect : ℕ → ℕ → Db → Db
unfolding delete_expired delete_empty_routes
collect ttl now db =
    let after = delete_expired ttl now db in
    if count_where (is_expired ttl now) db.messages == 0 then after else delete_empty_routes after

-- The database that the sweep leaves.
unfoldable pub swept : ℕ → ℕ → Db → Db
unfolding collect delete_expired_invites
swept ttl now db = delete_expired_invites now (collect ttl now db)

unfoldable pub sweep_stats : ℕ → ℕ → Db → SweepStats
unfolding expired_by_route delete_expired
sweep_stats ttl now db =
    let n = count_where (is_expired ttl now) db.messages in
    let after = delete_expired ttl now db in
    record {
      expired_messages = n;
      expired_routes = expired_by_route ttl now db.messages db.routes;
      removed_route_keys =
          if n == 0
          then []
          else map (λ r. r.route_key) (select (is_empty_route after.messages) after.routes);
      expired_invites = count_where (invite_expired now) db.invites;
    }

unfoldable pub sweep_expired : ℕ → ℕ → Db → SweepStats × Db
unfolding swept sweep_stats
sweep_expired ttl now db = (sweep_stats ttl now db, swept ttl now db)

unfoldable pub retention_sweep_tx : Store → ℕ → Tx SweepStats
unfolding sweep_expired
retention_sweep_tx st now db =
    let (stats, after) = sweep_expired st.retention_ttl_secs now db in (stats, some after)

unfoldable pub retention_sweep : Fault → Store → ℕ → Db → Result SweepStats × Db
unfolding retention_sweep_tx transact
retention_sweep f st now = transact f (retention_sweep_tx st now)
