-- ===== src/Store/Valid/Steps.antt =====
-- The invariant over a sequence of transactions.
use qsl_server.Base.{
  ℕ, Text, ◌≡◌, refl, subst, inl, inr, Bool, Option, none, some, List, [], ◌∷◌, arith, leb, length,
  Bool-cases, exists_where, find_where, count_where,
}
use qsl_server.Store.Schema.{Db, Store, Invite, SlotReject, fresh, has_route, message_on, invite_is}
use qsl_server.Store.Transaction.{Fault, healthy, lock_poisoned, sql_error, committed, transact}
use qsl_server.Store.Sweep.{swept}
use qsl_server.Store.Invites.{NewInvite, invite_create_tx, redeem_row, revoke_row}
use qsl_server.Store.Enqueue.{Push, enqueue_slot, admit, place, slot_refusal, burn_ticket}
use qsl_server.Store.Calls.{
  Call, sweeps, statuses, pushes, pulls, acks, creates, redeems, revokes, step, run,
}
use qsl_server.Store.Valid.Invariant.{IsValid, fresh-IsValid}
use qsl_server.Store.Valid.Slots.{
  insert_invite-IsValid, consume_slot-IsValid, revoke_slot-IsValid, burn_ticket-IsValid,
}
use qsl_server.Store.Valid.Sweeping.{swept-IsValid}
use qsl_server.Store.Valid.Pushing.{store_message-IsValid, store_message-insert_route-IsValid}
use qsl_server.Store.Valid.Pulling.{pull_tx-IsValid}
use qsl_server.Store.Valid.Acking.{ack_tx-IsValid}

-- What a transaction may leave: what it found, or what it commits.
pub transact_ind {ℓ} :
    (P : Db → Type ℓ) {A : Type 0} (f : Fault) (body : Db → A × Option Db) (db : Db)
    → P db
    → P (committed (body db).1 db)
    → P (transact f body db).1
unfolding transact
transact_ind P healthy body db h k = k
transact_ind P lock_poisoned body db h k = h
transact_ind P (sql_error e) body db h k = h

place-IsValid : (p : Push) (db : Db) → IsValid db → IsValid (committed (place p db).1 db)
unfolding place
place-IsValid p db v = elim (Bool-cases (has_route p.route_key db)) [
  | inl there ↦
      elim (Bool-cases (leb p.max_queue_depth (count_where (message_on p.route_key) db.messages))) [
        | inl full ↦ rw (there, full) v
        | inr room ↦ rw (there, room) (store_message-IsValid p db there v)
      ]
  | inr absent ↦ elim (Bool-cases (leb p.max_route_count (length db.routes))) [
    | inl full ↦ rw (absent, full) v
    | inr room ↦ rw (absent, room) (store_message-insert_route-IsValid p db absent v)
  ]
]

-- A refusal after the ticket was burned rolls back to the database before it.
place_burned-IsValid :
    (p : Push) (db : Db)
    → IsValid db
    → IsValid (committed (place p (burn_ticket p.route_key db)).1 db)
place_burned-IsValid p db v = go (place p (burn_ticket p.route_key db)).1 refl
  where
    go : (w : Option Db) → (place p (burn_ticket p.route_key db)).1 ≡ w → IsValid (committed w db)
    go none e = v
    go (some after) e =
        subst (λ w. IsValid (committed w (burn_ticket p.route_key db))) e
          (place-IsValid p (burn_ticket p.route_key db) (burn_ticket-IsValid p.route_key db v))

enqueue_slot-IsValid :
    (p : Push) (db : Db) (slot : Option Invite)
    → IsValid db
    → IsValid (committed (enqueue_slot p db slot).1 db)
unfolding enqueue_slot
enqueue_slot-IsValid p db none v = place-IsValid p db v
enqueue_slot-IsValid p db (some i) v = go (slot_refusal p i)
  where
    go : (r : Option SlotReject) → IsValid (committed (admit p db r).1 db)
    go none = unfold admit in place_burned-IsValid p db v
    go (some reason) = unfold admit in v

invite_create_tx-IsValid :
    (st : Store) (n : NewInvite) (now max_slots : ℕ) (db : Db)
    → IsValid db
    → IsValid (committed (invite_create_tx st n now max_slots db).1 db)
unfolding invite_create_tx
invite_create_tx-IsValid st n now max_slots db v =
    let after = swept st.retention_ttl_secs now db in
    elim (Bool-cases (exists_where (invite_is n.slot_key) after.invites)) [
      | inl there ↦ rw there v
      | inr absent ↦ elim (Bool-cases (leb max_slots (length after.invites))) [
        | inl full ↦ rw (absent, full) v
        | inr room ↦
            rw (absent, room)
              (insert_invite-IsValid n now after absent
                (swept-IsValid st.retention_ttl_secs now db v))
      ]
    ]

redeem_row-IsValid :
    (k : Text) (now : ℕ) (ticket_hash : Text) (verify : Text → Bool) (db : Db) (row : Option Invite)
    → IsValid db
    → IsValid (committed (redeem_row k now ticket_hash verify db row).1 db)
unfolding redeem_row
redeem_row-IsValid k now th verify db none v = v
redeem_row-IsValid k now th verify db (some i) v =
    ground (arith, consume_slot-IsValid k now th db v)

revoke_row-IsValid :
    (k : Text) (verify : Text → Bool) (db : Db) (row : Option Invite)
    → IsValid db
    → IsValid (committed (revoke_row k verify db row).1 db)
unfolding revoke_row
revoke_row-IsValid k verify db none v = v
revoke_row-IsValid k verify db (some i) v = ground (arith, revoke_slot-IsValid k db v)

-- Every transaction, with every fault, keeps the invariant.
pub step-IsValid :
    (st : Store) (f : Fault) (c : Call) (db : Db) → IsValid db → IsValid (step st f c db)
unfolding step
step-IsValid st f (sweeps now) db v =
    transact_ind IsValid f _ db v (swept-IsValid st.retention_ttl_secs now db v)
step-IsValid st f (statuses k now) db v =
    transact_ind IsValid f _ db v (swept-IsValid st.retention_ttl_secs now db v)
step-IsValid st f (pushes p) db v =
    transact_ind IsValid f _ db v
      (enqueue_slot-IsValid p db (find_where (invite_is p.route_key) db.invites) v)
step-IsValid st f (pulls k max max_bytes now mode) db v =
    transact_ind IsValid f _ db v (pull_tx-IsValid st k max max_bytes now mode db v)
step-IsValid st f (acks k ids now) db v =
    transact_ind IsValid f _ db v (ack_tx-IsValid st k ids now db v)
step-IsValid st f (creates n now max_slots) db v =
    transact_ind IsValid f _ db v (invite_create_tx-IsValid st n now max_slots db v)
step-IsValid st f (redeems k now ticket_hash verify) db v =
    transact_ind IsValid f _ db v
      (redeem_row-IsValid k now ticket_hash verify db (find_where (invite_is k) db.invites) v)
step-IsValid st f (revokes k verify) db v =
    transact_ind IsValid f _ db v
      (revoke_row-IsValid k verify db (find_where (invite_is k) db.invites) v)

run_from-IsValid :
    (st : Store) (cs : List (Fault × Call)) (db : Db) → IsValid db → IsValid (run st cs db)
unfolding run
run_from-IsValid st [] db v = v
run_from-IsValid st ((f, c) ∷ cs) db v =
    run_from-IsValid st cs (step st f c db) (step-IsValid st f c db v)

-- From the tables as they are created, after any sequence of transactions with any faults: a key
-- has a route exactly while it has a message, route keys and slot keys are unique, the messages
-- stand in the order of `seq` and below its counter, only an active slot has a bundle and a
-- signature, and only a consumed slot has a ticket.
pub run-IsValid : (st : Store) (cs : List (Fault × Call)) → IsValid (run st cs fresh)
run-IsValid st cs = run_from-IsValid st cs fresh fresh-IsValid
