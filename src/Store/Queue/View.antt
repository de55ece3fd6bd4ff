-- ===== src/Store/Queue/View.antt =====
-- The queue of a route, and the statements that leave it alone.
use qsl_server.Base.{
  ℕ, Text, ◌≡◌, refl, Bool, true, false, List, arith, select, ◌==◌, Bool-cases, inl, inr,
  count_where, count_where-zero, not, delete_where,
}
use qsl_server.Store.Schema.{Db, Message, message_on, touch}
use qsl_server.Store.Pull.{settle}
use qsl_server.Store.Ack.{drain}
use qsl_server.Store.Sweep.{is_expired, swept, collect, delete_expired, delete_expired_invites}
use qsl_server.Store.Valid.Cascade.{messages-delete_route, messages-delete_empty_routes}

abbrev pub queue : Text → Db → List Message
queue k db = select (message_on k) db.messages

empty_if_zero : (b n : Bool) → n ≡ not b → n ≡ true → b ≡ false
empty_if_zero b n e h = ground arith

-- The clean-up of a pull deletes no message.
pub messages-settle : (k : Text) (now : ℕ) (db : Db) → (settle k now db).1.messages ≡ db.messages
unfolding settle
messages-settle k now db = elim (Bool-cases (count_where (message_on k) db.messages == 0)) [
  | inl nothing ↦ rw nothing (
      messages-delete_route k db
        (empty_if_zero _ _ (count_where-zero (message_on k) db.messages) nothing))
  | inr left ↦ rw left (unfold touch in refl)
]

-- Nor does that of an ack.
pub messages-drain : (k : Text) (db : Db) → (drain k db).1.messages ≡ db.messages
unfolding drain
messages-drain k db = elim (Bool-cases (count_where (message_on k) db.messages == 0)) [
  | inl nothing ↦ rw nothing (
      messages-delete_route k db
        (empty_if_zero _ _ (count_where-zero (message_on k) db.messages) nothing))
  | inr left ↦ rw left
]

pub messages-swept :
    (ttl now : ℕ) (db : Db)
    → (swept ttl now db).messages ≡ delete_where (is_expired ttl now) db.messages
unfolding swept collect delete_expired delete_expired_invites
messages-swept ttl now db = elim (Bool-cases (count_where (is_expired ttl now) db.messages == 0)) [
  | inl nothing ↦ rw nothing
  | inr some_gone ↦ rw some_gone (
      messages-delete_empty_routes
        (record db { messages = delete_where (is_expired ttl now) db.messages }))
]
