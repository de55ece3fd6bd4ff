-- ===== src/Store/Pull.antt =====
-- src/store.rs: `pull`.
use qsl_server.Base.{
  ℕ, ◌+◌, ◌^◌, ◌-◌, min, Text, Bool, true, false, ◌&&◌, ◌||◌, Option, none, some, List, [], ◌∷◌,
  map, take, length, leb, ltb, ◌==◌, if◌then◌else◌, select, delete_where, update_where, count_where,
}
use qsl_server.Base.Result.{Result}
use qsl_server.Store.Schema.{
  Db, Message, Store, StoredMsg, PullMode, legacy, lease, PullOutcome, route_is, message_on, touch,
  delete_routes,
}
use qsl_server.Store.Transaction.{Fault, Tx, transact}
use qsl_server.Store.Sweep.{sweep_expired}

-- leased_until IS NULL OR leased_until <= now
abbrev pub is_free : ℕ → Option ℕ → Bool
is_free now none = true
is_free now (some until) = leb until now

abbrev pub is_visible : Text → ℕ → Message → Bool
is_visible k now m = message_on k m && is_free now m.leased_until

-- `usize::saturating_add`
unfoldable pub saturating_add : ℕ → ℕ → ℕ
saturating_add a b = min (a + b) (2 ^ 64 - 1)

-- The loop over the rows: `started` says that `items` is not empty.
unfoldable pub take_budget : ℕ → ℕ → Bool → List Message → List Message
unfolding saturating_add
take_budget max_bytes total started [] = []
take_budget max_bytes total started (m ∷ ms) =
    let next = saturating_add total (length m.body) in
    let rest = take_budget max_bytes next true ms in
    if started && ltb max_bytes next then [] else m ∷ rest

-- seq IN (..)
abbrev pub among : List ℕ → ℕ → Bool
among [] s = false
among (x ∷ xs) s = (x == s) || among xs s

abbrev pub stored_msg : Message → StoredMsg
stored_msg m = record { msg_id = m.msg_id; body = m.body }

-- The rows that the pull delivers.
unfoldable pub deliver : Text → ℕ → ℕ → ℕ → Db → List Message
unfolding take_budget
deliver k max max_bytes now db =
    take_budget max_bytes 0 false (take max (select (is_visible k now) db.messages))

unfoldable pub remove_delivered : List ℕ → Db → Db
remove_delivered seqs db = record db { messages = delete_where (λ m. among seqs m.seq) db.messages }

unfoldable pub lease_delivered : List ℕ → ℕ → Db → Db
lease_delivered seqs deadline db = record db {
  messages =
      update_where (λ m. among seqs m.seq) (λ m. record m { leased_until = some deadline })
        db.messages;
}

-- After a delete-on-deliver pull: an empty route goes, another is touched. `true` says that a
-- route row was removed.
unfoldable pub settle : Text → ℕ → Db → Bool × Db
unfolding touch delete_routes
settle k now db =
    if count_where (message_on k) db.messages == 0
    then (ltb 0 (count_where (route_is k) db.routes), delete_routes (route_is k) db)
    else (false, touch k now db)

-- What each mode does with the rows; without rows no statement names them.
unfoldable pub hand_out : Store → Text → ℕ → PullMode → List ℕ → Db → Bool × Db
unfolding remove_delivered lease_delivered settle touch
hand_out st k now legacy [] db = settle k now db
hand_out st k now legacy (s ∷ seqs) db = settle k now (remove_delivered (s ∷ seqs) db)
hand_out st k now lease [] db = (false, db)
hand_out st k now lease (s ∷ seqs) db =
    (false, touch k now (lease_delivered (s ∷ seqs) (now + st.pull_lease_secs) db))

unfoldable pub pull_tx : Store → Text → ℕ → ℕ → ℕ → PullMode → Tx PullOutcome
unfolding deliver hand_out sweep_expired
pull_tx st k max max_bytes now mode db =
    let (sweep, after) = sweep_expired st.retention_ttl_secs now db in
    let rows = deliver k max max_bytes now after in
    let (drained, final) = hand_out st k now mode (map (λ m. m.seq) rows) after in
    (record { items = map stored_msg rows; route_drained = drained; sweep = sweep }, some final)

unfoldable pub pull : Fault → Store → Text → ℕ → ℕ → ℕ → PullMode → Db → Result PullOutcome × Db
unfolding pull_tx transact
pull f st k max max_bytes now mode = transact f (pull_tx st k max max_bytes now mode)
