-- ===== src/Store/Queue/Counter.antt =====
-- The counter of AUTOINCREMENT never goes back.
use qsl_server.Base.{
  ℕ, ◌≤◌, Text, ◌≡◌, refl, Bool, Option, none, some, List, [], ◌∷◌, arith, find_where,
}
use qsl_server.Store.Schema.{
  Db, Store, Invite, PullMode, legacy, lease, invite_is, touch, delete_routes,
}
use qsl_server.Store.Transaction.{Fault, committed}
use qsl_server.Store.Sweep.{
  swept, collect, delete_expired, delete_empty_routes, delete_expired_invites,
}
use qsl_server.Store.Invites.{
  NewInvite, invite_create_tx, insert_invite, redeem_row, revoke_row, consume_slot, revoke_slot,
}
use qsl_server.Store.Enqueue.{Push, enqueue_slot}
use qsl_server.Store.Pull.{hand_out, pull_tx, settle, deliver, lease_delivered, remove_delivered}
use qsl_server.Store.Ack.{ack_tx, drain, delete_acked}
use qsl_server.Store.Calls.{
  Call, sweeps, statuses, pushes, pulls, acks, creates, redeems, revokes, step,
}
use qsl_server.Store.Delivery.Chosen.{seqs}
use qsl_server.Store.Valid.Steps.{transact_ind}
use qsl_server.Store.Queue.Push.{Appends, slot-Appends}

pub next_seq-swept : (ttl now : ℕ) (db : Db) → (swept ttl now db).next_seq ≡ db.next_seq
unfolding swept delete_expired_invites collect delete_expired delete_empty_routes delete_routes
next_seq-swept ttl now db = ground arith

next_seq-settle : (k : Text) (now : ℕ) (db : Db) → (settle k now db).1.next_seq ≡ db.next_seq
unfolding settle delete_routes touch
next_seq-settle k now db = ground arith

pub next_seq-hand_out :
    (st : Store) (k : Text) (now : ℕ) (mode : PullMode) (ss : List ℕ) (db : Db)
    → (hand_out st k now mode ss db).1.next_seq ≡ db.next_seq
unfolding hand_out
next_seq-hand_out st k now legacy [] db = next_seq-settle k now db
next_seq-hand_out st k now legacy (s ∷ ss) db =
    unfold remove_delivered in next_seq-settle k now (remove_delivered (s ∷ ss) db)
next_seq-hand_out st k now lease [] db = refl
next_seq-hand_out st k now lease (s ∷ ss) db = unfold touch lease_delivered in refl

pub next_seq-ack_tx :
    (st : Store) (k : Text) (ids : List Text) (now : ℕ) (db : Db)
    → (committed (ack_tx st k ids now db).1 db).next_seq ≡ db.next_seq
unfolding ack_tx delete_acked drain delete_routes
next_seq-ack_tx st k ids now db = ground (arith, next_seq-swept st.retention_ttl_secs now db)

next_seq-invite_create_tx :
    (st : Store) (n : NewInvite) (now max_slots : ℕ) (db : Db)
    → (committed (invite_create_tx st n now max_slots db).1 db).next_seq ≡ db.next_seq
unfolding invite_create_tx insert_invite
next_seq-invite_create_tx st n now max_slots db =
    ground (arith, next_seq-swept st.retention_ttl_secs now db)

next_seq-redeem_row :
    (k : Text) (now : ℕ) (th : Text) (verify : Text → Bool) (db : Db) (row : Option Invite)
    → (committed (redeem_row k now th verify db row).1 db).next_seq ≡ db.next_seq
unfolding redeem_row consume_slot
next_seq-redeem_row k now th verify db none = refl
next_seq-redeem_row k now th verify db (some i) = ground arith

next_seq-revoke_row :
    (k : Text) (verify : Text → Bool) (db : Db) (row : Option Invite)
    → (committed (revoke_row k verify db row).1 db).next_seq ≡ db.next_seq
unfolding revoke_row revoke_slot
next_seq-revoke_row k verify db none = refl
next_seq-revoke_row k verify db (some i) = ground arith

enqueue_slot-Counts :
    (q : Push) (db : Db) (slot : Option Invite)
    → db.next_seq ≤ (committed (enqueue_slot q db slot).1 db).next_seq
enqueue_slot-Counts q db slot = go (enqueue_slot q db slot).1 (slot-Appends q db slot).0
  where
    go : (w : Option Db) → Appends q db w → db.next_seq ≤ (committed w db).next_seq
    go none a = omega arith
    go (some after) a = omega arith

unmoved : (n n' : ℕ) → n' ≡ n → n ≤ n'
unmoved n n' e = omega arith

abbrev Counted : Db → Db → Type 0
Counted db after = db.next_seq ≤ after.next_seq

counted : (db : Db) → Counted db db
counted db = omega arith

pub step-Counts :
    (st : Store) (f : Fault) (c : Call) (db : Db) → db.next_seq ≤ (step st f c db).next_seq
unfolding step
step-Counts st f (sweeps now) db =
    transact_ind (Counted db) f _ db (counted db)
      (unmoved db.next_seq _ (next_seq-swept st.retention_ttl_secs now db))
step-Counts st f (statuses k now) db =
    transact_ind (Counted db) f _ db (counted db)
      (unmoved db.next_seq _ (next_seq-swept st.retention_ttl_secs now db))
step-Counts st f (pushes q) db =
    transact_ind (Counted db) f _ db (counted db)
      (enqueue_slot-Counts q db (find_where (invite_is q.route_key) db.invites))
step-Counts st f (pulls k max max_bytes now mode) db =
    let after = swept st.retention_ttl_secs now db in
    transact_ind (Counted db) f _ db (counted db) (
      unfold pull_tx in
      let handed =
        next_seq-hand_out st k now mode (seqs (deliver k max max_bytes now after)) after in
      let same = next_seq-swept st.retention_ttl_secs now db in omega arith)
step-Counts st f (acks k ids now) db =
    transact_ind (Counted db) f _ db (counted db)
      (unmoved db.next_seq _ (next_seq-ack_tx st k ids now db))
step-Counts st f (creates n now max_slots) db =
    transact_ind (Counted db) f _ db (counted db)
      (unmoved db.next_seq _ (next_seq-invite_create_tx st n now max_slots db))
step-Counts st f (redeems k now th verify) db = transact_ind (Counted db) f _ db (counted db) (
    unmoved db.next_seq _
      (next_seq-redeem_row k now th verify db (find_where (invite_is k) db.invites)))
step-Counts st f (revokes k verify) db =
    transact_ind (Counted db) f _ db (counted db) (
      unmoved db.next_seq _ (next_seq-revoke_row k verify db (find_where (invite_is k) db.invites)))
