-- ===== src/Store/Ack.antt =====
-- src/store.rs: `ack`.
use qsl_server.Base.{
  ℕ, Text, text_eq, Bool, true, false, ◌&&◌, ◌||◌, Option, none, some, List, [], ◌∷◌, ltb, ◌==◌,
  if◌then◌else◌, delete_where, count_where,
}
use qsl_server.Base.Result.{Result}
use qsl_server.Store.Schema.{Db, Message, Store, AckOutcome, route_is, message_on, delete_routes}
use qsl_server.Store.Transaction.{Fault, Tx, transact}
use qsl_server.Store.Sweep.{sweep_expired}

-- leased_until IS NOT NULL
abbrev pub is_leased : Option ℕ → Bool
is_leased none = false
is_leased (some until) = true

-- msg_id IN (..)
unfoldable pub listed : List Text → Text → Bool
listed [] id = false
listed (x ∷ xs) id = text_eq x id || listed xs id

-- route_key = ?1 AND leased_until IS NOT NULL AND msg_id IN (..)
unfoldable pub is_acked : Text → List Text → Message → Bool
unfolding listed
is_acked k ids m = message_on k m && is_leased m.leased_until && listed ids m.msg_id

unfoldable pub delete_acked : Text → List Text → Db → Db
unfolding is_acked
delete_acked k ids db = record db { messages = delete_where (is_acked k ids) db.messages }

-- The route goes with its last message. `true` says that a route row was removed.
unfoldable pub drain : Text → Db → Bool × Db
unfolding delete_routes
drain k db =
    if count_where (message_on k) db.messages == 0
    then (ltb 0 (count_where (route_is k) db.routes), delete_routes (route_is k) db)
    else (false, db)

unfoldable pub ack_tx : Store → Text → List Text → ℕ → Tx AckOutcome
unfolding delete_acked drain sweep_expired
ack_tx st k ids now db =
    let (sweep, after) = sweep_expired st.retention_ttl_secs now db in
    let acked = count_where (is_acked k ids) after.messages in
    let (drained, final) =
      (if acked == 0
        then (false, delete_acked k ids after)
        else drain k (delete_acked k ids after)) in
    (record { acked = acked; route_drained = drained; sweep = sweep }, some final)

unfoldable pub ack : Fault → Store → Text → List Text → ℕ → Db → Result AckOutcome × Db
unfolding ack_tx transact
ack f st k ids now = transact f (ack_tx st k ids now)
