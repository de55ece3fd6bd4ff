-- ===== src/Store/Transaction.antt =====
-- src/store.rs: the shape that every operation of `Store` shares. It locks the connection, opens a
-- transaction, and either commits, or returns early and drops the transaction, which rolls it back.
-- A poisoned lock and an error of any statement return before the commit.
use qsl_server.Base.{Option, none, some, String}
use Prim.Native.String.{◌++◌}
use qsl_server.Base.Result.{Result, ok, err}
use qsl_server.Store.Schema.{Db}

-- What the lock and SQLite do during the call; `sql_error` carries SQLite's message.
pub data Fault : Type 0 where
  healthy lock_poisoned : Fault
  sql_error : String → Fault

-- The body of a transaction: its value, and the database that it commits, if it commits.
abbrev pub Tx : Type 0 → Type 0
Tx A = Db → A × Option Db

abbrev pub committed : Option Db → Db → Db
committed none db = db
committed (some after) db = after

unfoldable pub map_err : String → String
map_err e = "ERR_STORE " ++ e

unfoldable pub transact : {A : Type 0} → Fault → Tx A → Db → Result A × Db
transact healthy body db = (ok (body db).0, committed (body db).1 db)
transact lock_poisoned body db = (err "ERR_LOCK_POISON", db)
transact (sql_error e) body db = (err (map_err e), db)
