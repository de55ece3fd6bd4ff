-- ===== src/Store/Queue/Absent.antt =====
-- A kind of message that no row is of, and that no push brings.
use qsl_server.Base.{
  ℕ, ◌+◌, Text, ◌≡◌, ap, ◌∙◌, Bool, false, Option, none, some, List, [], ◌∷◌, arith, exists_where,
  exists_where-select-false, exists_where-update_where-false, exists_where-snoc, find_where,
}
use qsl_server.Store.Schema.{Db, Store, Message, Invite, PullMode, legacy, lease, invite_is, touch}
use qsl_server.Store.Transaction.{Fault, healthy, committed}
use qsl_server.Store.Sweep.{swept}
use qsl_server.Store.Invites.{
  NewInvite, invite_create_tx, insert_invite, redeem_row, revoke_row, consume_slot, revoke_slot,
}
use qsl_server.Store.Enqueue.{Push, enqueue_slot}
use qsl_server.Store.Pull.{pull_tx, hand_out, among, deliver, remove_delivered, lease_delivered}
use qsl_server.Store.Ack.{ack, ack_tx}
use qsl_server.Store.Calls.{
  Call, sweeps, statuses, pushes, pulls, acks, creates, redeems, revokes, step,
}
use qsl_server.Store.Delivery.Chosen.{seqs, set_lease}
use qsl_server.Store.Valid.Steps.{transact_ind}
use qsl_server.Store.Queue.View.{messages-swept, messages-settle}
use qsl_server.Store.Queue.Push.{new_message, Appends, slot-Appends}
use qsl_server.Store.Queue.Acked.{messages-ack}

module _ (p : Message → Bool) where
  abbrev pub Absent : Db → Type 0
  Absent db = exists_where p db.messages ≡ false

  -- The call brings no message of the kind.
  abbrev pub Foreign : Call → Db → Type 0
  Foreign (pushes q) db = p (new_message q db) ≡ false
  Foreign _ db = Unit

  pub swept-Absent : (ttl now : ℕ) (db : Db) → Absent db → Absent (swept ttl now db)
  swept-Absent ttl now db h =
      ap (exists_where p) (messages-swept ttl now db) ∙ exists_where-select-false p _ db.messages h

  enqueue_slot-Absent :
      (q : Push) (db : Db) (slot : Option Invite)
      → p (new_message q db) ≡ false
      → Absent db
      → Absent (committed (enqueue_slot q db slot).1 db)
  enqueue_slot-Absent q db slot foreign h = go (enqueue_slot q db slot).1 (slot-Appends q db slot).0
    where
      go : (w : Option Db) → Appends q db w → Absent (committed w db)
      go none a = h
      go (some after) a =
          ap (exists_where p) a.0
          ∙ exists_where-snoc p db.messages (new_message q db)
          ∙ rw (h, foreign)

  ack_tx-Absent :
      (st : Store) (k : Text) (ids : List Text) (now : ℕ) (db : Db)
      → Absent db
      → Absent (committed (ack_tx st k ids now db).1 db)
  ack_tx-Absent st k ids now db h =
      let after = swept st.retention_ttl_secs now db in
      let deleted : Absent (ack healthy st k ids now db).1 =
        ap (exists_where p) (messages-ack st k ids now db)
        ∙ exists_where-select-false p _ after.messages
            (swept-Absent st.retention_ttl_secs now db h) in
      unfold ack in deleted

  invite_create_tx-Absent :
      (st : Store) (n : NewInvite) (now max_slots : ℕ) (db : Db)
      → Absent db
      → Absent (committed (invite_create_tx st n now max_slots db).1 db)
  unfolding invite_create_tx insert_invite
  invite_create_tx-Absent st n now max_slots db h =
      ground (arith, swept-Absent st.retention_ttl_secs now db h)

  redeem_row-Absent :
      (k : Text) (now : ℕ) (th : Text) (verify : Text → Bool) (db : Db) (row : Option Invite)
      → Absent db
      → Absent (committed (redeem_row k now th verify db row).1 db)
  unfolding redeem_row consume_slot
  redeem_row-Absent k now th verify db none h = h
  redeem_row-Absent k now th verify db (some i) h = ground arith

  revoke_row-Absent :
      (k : Text) (verify : Text → Bool) (db : Db) (row : Option Invite)
      → Absent db
      → Absent (committed (revoke_row k verify db row).1 db)
  unfolding revoke_row revoke_slot
  revoke_row-Absent k verify db none h = h
  revoke_row-Absent k verify db (some i) h = ground arith

  -- The kind does not depend on the lease.
  module _
      (leased : (deadline : ℕ) (m : Message) → p m ≡ false → p (set_lease deadline m) ≡ false) where
    hand_out-Absent :
        (st : Store) (k : Text) (now : ℕ) (mode : PullMode) (ss : List ℕ) (db : Db)
        → Absent db
        → Absent (hand_out st k now mode ss db).1
    unfolding hand_out
    hand_out-Absent st k now legacy [] db h = ap (exists_where p) (messages-settle k now db) ∙ h
    hand_out-Absent st k now legacy (s ∷ ss) db h =
        ap (exists_where p) (messages-settle k now (remove_delivered (s ∷ ss) db))
        ∙ (unfold remove_delivered in exists_where-select-false p _ db.messages h)
    hand_out-Absent st k now lease [] db h = h
    hand_out-Absent st k now lease (s ∷ ss) db h =
        let deadline = now + st.pull_lease_secs in
        unfold touch lease_delivered in
        exists_where-update_where-false p (λ m. among (s ∷ ss) m.seq) (set_lease deadline)
          db.messages (λ m hit absent. leased deadline m absent) h

    pub step-Absent :
        (st : Store) (f : Fault) (c : Call) (db : Db)
        → Foreign c db
        → Absent db
        → Absent (step st f c db)
    unfolding step
    step-Absent st f (sweeps now) db foreign h =
        transact_ind Absent f _ db h (swept-Absent st.retention_ttl_secs now db h)
    step-Absent st f (statuses k now) db foreign h =
        transact_ind Absent f _ db h (swept-Absent st.retention_ttl_secs now db h)
    step-Absent st f (pushes q) db foreign h =
        transact_ind Absent f _ db h
          (enqueue_slot-Absent q db (find_where (invite_is q.route_key) db.invites) foreign h)
    step-Absent st f (pulls k max max_bytes now mode) db foreign h =
        let after = swept st.retention_ttl_secs now db in
        transact_ind Absent f _ db h (
          unfold pull_tx in
          hand_out-Absent st k now mode (seqs (deliver k max max_bytes now after)) after
            (swept-Absent st.retention_ttl_secs now db h))
    step-Absent st f (acks k ids now) db foreign h =
        transact_ind Absent f _ db h (ack_tx-Absent st k ids now db h)
    step-Absent st f (creates n now max_slots) db foreign h =
        transact_ind Absent f _ db h (invite_create_tx-Absent st n now max_slots db h)
    step-Absent st f (redeems k now th verify) db foreign h =
        transact_ind Absent f _ db h
          (redeem_row-Absent k now th verify db (find_where (invite_is k) db.invites) h)
    step-Absent st f (revokes k verify) db foreign h =
        transact_ind Absent f _ db h
          (revoke_row-Absent k verify db (find_where (invite_is k) db.invites) h)
