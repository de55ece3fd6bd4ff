-- ===== src/Store/Queue/Lasting.antt =====
-- A pushed message over a run of transactions.
use qsl_server.Base.{
  text_eq_refl, ◌≡◌, ap, ◌∙◌, inl, inr, true, List, [], ◌∷◌, arith, All, Bool-cases, exists_where,
  exists_where-snoc, exists_where-select-false, find_where,
}
use qsl_server.Base.Result.{ok}
use qsl_server.Store.Schema.{
  Db, Store, Message, invite_is, EnqueueOutcome, legacy, lease, message_on,
}
use qsl_server.Store.Transaction.{Fault}
use qsl_server.Store.Enqueue.{Push, enqueue}
use qsl_server.Store.Calls.{
  Call, sweeps, statuses, pushes, pulls, acks, creates, redeems, revokes, step, run,
}
use qsl_server.Store.Valid.Invariant.{IsValid}
use qsl_server.Store.Valid.Steps.{transact_ind, step-IsValid}
use qsl_server.Store.Queue.View.{queue}
use qsl_server.Store.Queue.Push.{new_message, enqueue-appends}
use qsl_server.Store.Queue.Kept.{
  copy_of, Stores, Spares, swept-Stores, enqueue_slot-Stores, invite_create_tx-Stores,
  redeem_row-Stores, revoke_row-Stores, pull_legacy-Stores, pull_lease-Stores, ack-Stores,
}

module _ (m : Message) where
  step-Stores :
      (st : Store) (f : Fault) (c : Call) (db : Db)
      → IsValid db
      → Spares st.retention_ttl_secs m c
      → Stores m db
      → Stores m (step st f c db)
  unfolding step
  step-Stores st f (sweeps now) db v s h =
      transact_ind (Stores m) f _ db h (swept-Stores m st.retention_ttl_secs now db s h)
  step-Stores st f (statuses k now) db v s h =
      transact_ind (Stores m) f _ db h (swept-Stores m st.retention_ttl_secs now db s h)
  step-Stores st f (pushes p) db v s h =
      transact_ind (Stores m) f _ db h
        (enqueue_slot-Stores m p db (find_where (invite_is p.route_key) db.invites) h)
  step-Stores st f (pulls k max max_bytes now legacy) db v s h =
      transact_ind (Stores m) f _ db h (pull_legacy-Stores m st k max max_bytes now db v s.0 s.1 h)
  step-Stores st f (pulls k max max_bytes now lease) db v s h =
      transact_ind (Stores m) f _ db h (pull_lease-Stores m st k max max_bytes now db v s h)
  step-Stores st f (acks k ids now) db v s h =
      transact_ind (Stores m) f _ db h (ack-Stores m st k ids now db s.0 s.1 h)
  step-Stores st f (creates n now max_slots) db v s h =
      transact_ind (Stores m) f _ db h (invite_create_tx-Stores m st n now max_slots db s h)
  step-Stores st f (redeems k now th verify) db v s h =
      transact_ind (Stores m) f _ db h
        (redeem_row-Stores m k now th verify db (find_where (invite_is k) db.invites) h)
  step-Stores st f (revokes k verify) db v s h =
      transact_ind (Stores m) f _ db h
        (revoke_row-Stores m k verify db (find_where (invite_is k) db.invites) h)

  run-Stores :
      (st : Store) (cs : List (Fault × Call)) (db : Db)
      → IsValid db
      → All (λ x. Spares st.retention_ttl_secs m x.1) cs
      → Stores m db
      → Stores m (run st cs db)
  unfolding run
  run-Stores st [] db v s h = h
  run-Stores st ((f, c) ∷ cs) db v s h =
      run-Stores st cs (step st f c db) (step-IsValid st f c db v) s.1
        (step-Stores st f c db v s.0 h)

copy_of_self : (m : Message) → copy_of m m ≡ true
copy_of_self m =
    ground (arith, text_eq_refl m.msg_id, text_eq_refl m.route_key, text_eq_refl m.body)

pushed-Stores :
    (f : Fault) (p : Push) (db : Db)
    → (enqueue f p db).0 ≡ ok EnqueueOutcome.accepted
    → Stores (new_message p db) (enqueue f p db).1
pushed-Stores f p db h =
    let m = new_message p db in
    let after = (enqueue f p db).1 in
    let shown : exists_where (copy_of m) (queue p.route_key after) ≡ true =
      ap (exists_where (copy_of m)) (enqueue-appends f p db h).0
      ∙ exists_where-snoc (copy_of m) (queue p.route_key db) m
      ∙ ground (arith, copy_of_self m) in
    elim (Bool-cases (exists_where (copy_of m) after.messages)) [
      | inl there ↦ there
      | inr gone ↦
          let hidden =
            exists_where-select-false (copy_of m) (message_on p.route_key) after.messages gone in
          absurd (ground arith)
    ]

-- A pushed message lasts. In a valid store, once a push is accepted, its message is stored under its
-- number, with its body and its identifier, after every sequence of transactions, with any faults, that
-- spare it: those that come before it expires and are no delete-on-deliver pull of its route and no ack
-- of its route that lists its identifier. Leasing pulls and all that is about invites may be among them.
pub accepted-Stores :
    (st : Store) (f : Fault) (p : Push) (db : Db) (cs : List (Fault × Call))
    → IsValid db
    → (enqueue f p db).0 ≡ ok EnqueueOutcome.accepted
    → All (λ x. Spares st.retention_ttl_secs (new_message p db) x.1) cs
    → Stores (new_message p db) (run st cs (enqueue f p db).1)
accepted-Stores st f p db cs v h s =
    let m = new_message p db in
    let valid : IsValid (enqueue f p db).1 = unfold step in step-IsValid st f (pushes p) db v in
    run-Stores m st cs (enqueue f p db).1 valid s (pushed-Stores f p db h)
