-- ===== src/Store/Bounds/Shrink.antt =====
-- All but `enqueue` and `invite_create` add no row to a table.
use qsl_server.Base.{
  ℕ, ◌+◌, ◌≤◌, Text, refl, Bool, Option, none, some, List, [], ◌∷◌, arith, length, Bool-cases, inl,
  inr, ◌==◌, select, count_where, update_where, count_where-select, count_where-update_where,
  length-select-le, length-update_where,
}
use qsl_server.Store.Schema.{
  Db, Route, Message, Invite, Store, PullMode, legacy, lease, route_is, message_on, invite_is,
  touch, delete_routes,
}
use qsl_server.Store.Transaction.{committed}
use qsl_server.Store.Sweep.{
  swept, collect, delete_expired, delete_empty_routes, delete_expired_invites, is_expired,
}
use qsl_server.Store.Invites.{redeem_row, revoke_row, consume, revoke, is_active_slot}
use qsl_server.Store.Pull.{
  among, remove_delivered, lease_delivered, settle, hand_out, pull_tx, deliver,
}
use qsl_server.Store.Ack.{ack_tx, delete_acked, drain, is_acked}
use qsl_server.Store.Delivery.Chosen.{seqs, set_lease}

pub record Shrinks (db after : Db) : Type 0 where
  pub routes : length after.routes ≤ length db.routes
  pub depth :
      (k : Text)
      → count_where (message_on k) after.messages ≤ count_where (message_on k) db.messages
  pub slots : length after.invites ≤ length db.invites

pub Shrinks-refl : (db : Db) → Shrinks db db
Shrinks-refl db = record { routes = omega arith; depth = λ k. omega arith; slots = omega arith }

pub Shrinks-trans : (a b c : Db) → Shrinks a b → Shrinks b c → Shrinks a c
Shrinks-trans a b c h g = record {
  routes = omega (arith, h.routes, g.routes);
  depth = λ k. omega (arith, h.depth k, g.depth k);
  slots = omega (arith, h.slots, g.slots);
}

delete_messages-Shrinks :
    (p : Message → Bool) (db : Db) → Shrinks db (record db { messages = select p db.messages })
delete_messages-Shrinks p db = record {
  routes = omega arith;
  depth = λ k. count_where-select (message_on k) p db.messages;
  slots = omega arith;
}

delete_routes-Shrinks : (p : Route → Bool) (db : Db) → Shrinks db (delete_routes p db)
unfolding delete_routes
delete_routes-Shrinks p db = record {
  routes = length-select-le _ db.routes;
  depth = λ k. count_where-select (message_on k) _ db.messages;
  slots = omega arith;
}

collect-Shrinks : (ttl now : ℕ) (db : Db) → Shrinks db (collect ttl now db)
collect-Shrinks ttl now db = elim (Bool-cases (count_where (is_expired ttl now) db.messages == 0)) [
  | inl nothing ↦ unfold collect in rw nothing expired
  | inr gone ↦
      unfold collect in
      rw gone (
        Shrinks-trans db (delete_expired ttl now db) _ expired
          (unfold delete_empty_routes in delete_routes-Shrinks _ (delete_expired ttl now db)))
]
  where
    expired : Shrinks db (delete_expired ttl now db)
    expired = unfold delete_expired in delete_messages-Shrinks _ db

pub swept-Shrinks : (ttl now : ℕ) (db : Db) → Shrinks db (swept ttl now db)
unfolding swept delete_expired_invites
swept-Shrinks ttl now db =
    Shrinks-trans db (collect ttl now db) _ (collect-Shrinks ttl now db) (record {
      routes = omega arith;
      depth = λ k. omega arith;
      slots = length-select-le _ (collect ttl now db).invites;
    })

touch-Shrinks : (k : Text) (now : ℕ) (db : Db) → Shrinks db (touch k now db)
unfolding touch
touch-Shrinks k now db = record {
  routes = omega (arith, length-update_where (route_is k) _ db.routes);
  depth = λ j. omega arith;
  slots = omega arith;
}

settle-Shrinks : (k : Text) (now : ℕ) (db : Db) → Shrinks db (settle k now db).1
unfolding settle
settle-Shrinks k now db =
    ground (arith, delete_routes-Shrinks (route_is k) db, touch-Shrinks k now db)

hand_out-Shrinks :
    (st : Store) (k : Text) (now : ℕ) (mode : PullMode) (ss : List ℕ) (db : Db)
    → Shrinks db (hand_out st k now mode ss db).1
unfolding hand_out
hand_out-Shrinks st k now legacy [] db = settle-Shrinks k now db
hand_out-Shrinks st k now legacy (s ∷ ss) db =
    Shrinks-trans db (remove_delivered (s ∷ ss) db) _
      (unfold remove_delivered in delete_messages-Shrinks _ db) (settle-Shrinks k now _)
hand_out-Shrinks st k now lease [] db = Shrinks-refl db
hand_out-Shrinks st k now lease (s ∷ ss) db =
    Shrinks-trans db (lease_delivered (s ∷ ss) (now + st.pull_lease_secs) db) _ leased
      (touch-Shrinks k now _)
  where
    leased : Shrinks db (lease_delivered (s ∷ ss) (now + st.pull_lease_secs) db)
    leased =
        unfold lease_delivered in
        record {
          routes = omega arith;
          depth = λ j. omega (
            arith,
            count_where-update_where (message_on j) (λ m. among (s ∷ ss) m.seq)
                (set_lease (now + st.pull_lease_secs)) db.messages (λ m. refl),
          );
          slots = omega arith;
        }

pub pull_tx-Shrinks :
    (st : Store) (k : Text) (max max_bytes now : ℕ) (mode : PullMode) (db : Db)
    → Shrinks db (committed (pull_tx st k max max_bytes now mode db).1 db)
unfolding pull_tx
pull_tx-Shrinks st k max mb now mode db =
    let after = swept st.retention_ttl_secs now db in
    Shrinks-trans db after _ (swept-Shrinks st.retention_ttl_secs now db)
      (hand_out-Shrinks st k now mode (seqs (deliver k max mb now after)) after)

drain-Shrinks : (k : Text) (db : Db) → Shrinks db (drain k db).1
unfolding drain
drain-Shrinks k db = ground (arith, delete_routes-Shrinks (route_is k) db, Shrinks-refl db)

pub ack_tx-Shrinks :
    (st : Store) (k : Text) (ids : List Text) (now : ℕ) (db : Db)
    → Shrinks db (committed (ack_tx st k ids now db).1 db)
ack_tx-Shrinks st k ids now db =
    Shrinks-trans db after _ (swept-Shrinks st.retention_ttl_secs now db)
      (elim (Bool-cases (count_where (is_acked k ids) after.messages == 0)) [
        | inl nothing ↦ unfold ack_tx in rw nothing deleted
        | inr some_acked ↦
            unfold ack_tx in
            rw some_acked
              (Shrinks-trans after (delete_acked k ids after) _ deleted (drain-Shrinks k _))
      ])
  where
    after : Db
    after = swept st.retention_ttl_secs now db

    deleted : Shrinks after (delete_acked k ids after)
    deleted = unfold delete_acked in delete_messages-Shrinks _ after

update_invites-Shrinks :
    (p : Invite → Bool) (f : Invite → Invite) (db : Db)
    → Shrinks db (record db { invites = update_where p f db.invites })
update_invites-Shrinks p f db = record {
  routes = omega arith;
  depth = λ k. omega arith;
  slots = omega (arith, length-update_where p f db.invites);
}

pub redeem_row-Shrinks :
    (k : Text) (now : ℕ) (ticket_hash : Text) (verify : Text → Bool) (db : Db) (row : Option Invite)
    → Shrinks db (committed (redeem_row k now ticket_hash verify db row).1 db)
unfolding redeem_row
redeem_row-Shrinks k now th verify db none = Shrinks-refl db
redeem_row-Shrinks k now th verify db (some i) =
    ground (arith, Shrinks-refl db, update_invites-Shrinks (is_active_slot k) (consume now th) db)

pub revoke_row-Shrinks :
    (k : Text) (verify : Text → Bool) (db : Db) (row : Option Invite)
    → Shrinks db (committed (revoke_row k verify db row).1 db)
unfolding revoke_row
revoke_row-Shrinks k verify db none = Shrinks-refl db
revoke_row-Shrinks k verify db (some i) =
    ground (arith, Shrinks-refl db, update_invites-Shrinks (invite_is k) revoke db)
