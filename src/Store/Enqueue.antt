-- ===== src/Store/Enqueue.antt =====
-- src/store.rs: `enqueue`.
use qsl_server.Base.{
  ℕ, suc, Text, Bool, false, Option, none, some, List, [], ◌∷◌, ◌++◌, length, leb, ◌==◌,
  if◌then◌else◌, exists_where, find_where, update_where, count_where,
}
use qsl_server.Base.Result.{Result}
use qsl_server.Store.Schema.{
  Db, Invite, SlotReject, EnqueueOutcome, invite_is, route_is, message_on, touch, invite_revoked,
}
use qsl_server.Store.Transaction.{Fault, Tx, transact}

-- One push: the arguments of `enqueue`.
pub record Push : Type 0 where
  pub route_key : Text
  pub log_id : Text
  pub msg_id : Text
  pub body : List ℕ
  pub now : ℕ
  pub max_queue_depth : ℕ
  pub max_route_count : ℕ
  pub ticket : Option (Text → Bool)

abbrev pub ticket_admits : Option Text → Option (Text → Bool) → Bool
ticket_admits none t = false
ticket_admits (some stored) none = false
ticket_admits (some stored) (some verify) = verify stored

-- UPDATE invites SET ticket_hash = NULL WHERE slot_key = ?1
unfoldable pub burn_ticket : Text → Db → Db
burn_ticket k db = record db {
  invites = update_where (invite_is k) (λ i. record i { ticket_hash = none }) db.invites;
}

-- Why the slot refuses the push, if it does.
unfoldable pub slot_refusal : Push → Invite → Option SlotReject
slot_refusal p i =
    if i.state == invite_revoked
    then some SlotReject.revoked
    else if leb i.expiry p.now
    then some SlotReject.expired
    else if ticket_admits i.ticket_hash p.ticket
    then none
    else some SlotReject.ticket_invalid

-- INSERT INTO routes
unfoldable pub insert_route : Push → Db → Db
insert_route p db = record db {
  routes =
      db.routes
      ++ record {
        route_key = p.route_key;
        log_id = p.log_id;
        created_at = p.now;
        last_touched = p.now;
      }
        ∷ [];
}

-- INSERT INTO messages
unfoldable pub insert_message : Push → Db → Db
insert_message p db = record db {
  messages =
      db.messages
      ++ record {
        seq = db.next_seq;
        msg_id = p.msg_id;
        route_key = p.route_key;
        body = p.body;
        enqueued_at = p.now;
        leased_until = none;
      }
        ∷ [];
  next_seq = suc db.next_seq;
}

-- The INSERT of the message and the UPDATE of its route, before the commit.
unfoldable pub store_message : Push → Db → Db
unfolding insert_message touch
store_message p db = touch p.route_key p.now (insert_message p db)

-- The second half of `enqueue`: the two caps, the route and the message.
unfoldable pub place : Push → Tx EnqueueOutcome
unfolding insert_route store_message
place p db =
    if exists_where (route_is p.route_key) db.routes
    then (if leb p.max_queue_depth (count_where (message_on p.route_key) db.messages)
        then (EnqueueOutcome.overloaded (count_where (message_on p.route_key) db.messages), none)
        else (EnqueueOutcome.accepted, some (store_message p db)))
    else if leb p.max_route_count (length db.routes)
    then (EnqueueOutcome.route_cap (length db.routes), none)
    else (EnqueueOutcome.accepted, some (store_message p (insert_route p db)))

unfoldable pub admit : Push → Db → Option SlotReject → EnqueueOutcome × Option Db
unfolding place burn_ticket
admit p db (some reason) = (EnqueueOutcome.slot_rejected reason, none)
admit p db none = place p (burn_ticket p.route_key db)

-- A push to a route that no invite created takes the first clause.
unfoldable pub enqueue_slot : Push → Db → Option Invite → EnqueueOutcome × Option Db
unfolding admit place slot_refusal
enqueue_slot p db none = place p db
enqueue_slot p db (some i) = admit p db (slot_refusal p i)

unfoldable pub enqueue_tx : Push → Tx EnqueueOutcome
unfolding enqueue_slot
enqueue_tx p db = enqueue_slot p db (find_where (invite_is p.route_key) db.invites)

unfoldable pub enqueue : Fault → Push → Db → Result EnqueueOutcome × Db
unfolding enqueue_tx transact
enqueue f p = transact f (enqueue_tx p)
