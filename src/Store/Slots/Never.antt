-- ===== src/Store/Slots/Never.antt =====
-- A kind of row that no slot is of, and that no harmless transaction makes.
use qsl_server.Base.{
  ℕ, Text, ◌≡◌, refl, sym, ap, ◌∙◌, Bool, true, false, Option, none, some, List, [], ◌∷◌, arith,
  All, exists_where, exists_where-select-false, exists_where-snoc, exists_where-update_where-false,
  find_where,
}
use qsl_server.Store.Schema.{
  Db, Store, Invite, SlotReject, PullMode, legacy, lease, invite_is, touch, delete_routes,
}
use qsl_server.Store.Transaction.{Fault, committed}
use qsl_server.Store.Sweep.{
  swept, collect, delete_expired, delete_empty_routes, delete_expired_invites,
}
use qsl_server.Store.Invites.{
  NewInvite, new_invite, insert_invite, invite_create_tx, redeem_row, revoke_row, consume_slot,
  revoke_slot, consume, revoke, is_active_slot,
}
use qsl_server.Store.Enqueue.{
  Push, enqueue_slot, admit, place, slot_refusal, store_message, insert_route, insert_message,
  burn_ticket,
}
use qsl_server.Store.Pull.{hand_out, pull_tx, settle, deliver, lease_delivered}
use qsl_server.Store.Ack.{ack_tx, drain, delete_acked}
use qsl_server.Store.Calls.{
  Call, sweeps, statuses, pushes, pulls, acks, creates, redeems, revokes, step, run,
}
use qsl_server.Store.Delivery.Chosen.{seqs}
use qsl_server.Store.Valid.Steps.{transact_ind}

pub invites-collect : (ttl now : ℕ) (db : Db) → (collect ttl now db).invites ≡ db.invites
unfolding collect delete_expired delete_empty_routes
invites-collect ttl now db = ground arith

pub invites-settle : (k : Text) (now : ℕ) (db : Db) → (settle k now db).1.invites ≡ db.invites
unfolding settle delete_routes touch
invites-settle k now db = ground arith

pub invites-hand_out :
    (st : Store) (k : Text) (now : ℕ) (mode : PullMode) (ss : List ℕ) (db : Db)
    → (hand_out st k now mode ss db).1.invites ≡ db.invites
unfolding hand_out
invites-hand_out st k now legacy [] db = invites-settle k now db
invites-hand_out st k now legacy (s ∷ ss) db = invites-settle k now _
invites-hand_out st k now lease [] db = refl
invites-hand_out st k now lease (s ∷ ss) db = unfold touch lease_delivered in refl

pub invites-ack_tx :
    (st : Store) (k : Text) (ids : List Text) (now : ℕ) (db : Db)
    → (committed (ack_tx st k ids now db).1 db).invites
      ≡ (swept st.retention_ttl_secs now db).invites
unfolding ack_tx delete_acked drain delete_routes
invites-ack_tx st k ids now db = ground arith

pub invites-place : (p : Push) (db : Db) → (committed (place p db).1 db).invites ≡ db.invites
unfolding place store_message insert_route insert_message touch
invites-place p db = ground arith

module _ (p : Invite → Bool) where
  abbrev pub Never : Db → Type 0
  Never db = exists_where p db.invites ≡ false

  -- The call makes no row of the kind.
  abbrev pub Harmless : Call → Type 0
  Harmless (creates n now max_slots) = p (new_invite n now) ≡ false
  Harmless (redeems k now ticket_hash verify) =
      (i : Invite) → is_active_slot k i ≡ true → p i ≡ false → p (consume now ticket_hash i) ≡ false
  Harmless _ = Unit

  swept-Never : (ttl now : ℕ) (db : Db) → Never db → Never (swept ttl now db)
  unfolding swept delete_expired_invites
  swept-Never ttl now db h =
      exists_where-select-false p _ (collect ttl now db).invites
        (ap (exists_where p) (invites-collect ttl now db) ∙ h)

  invite_create_tx-Never :
      (st : Store) (n : NewInvite) (now max_slots : ℕ) (db : Db)
      → p (new_invite n now) ≡ false
      → Never db
      → Never (committed (invite_create_tx st n now max_slots db).1 db)
  unfolding invite_create_tx insert_invite
  invite_create_tx-Never st n now max_slots db fine h =
      let after = swept st.retention_ttl_secs now db in
      ground (
        arith,
        swept-Never st.retention_ttl_secs now db h,
        exists_where-snoc p after.invites (new_invite n now),
      )

  redeem_row-Never :
      (k : Text) (now : ℕ) (th : Text) (verify : Text → Bool) (db : Db) (row : Option Invite)
      → Harmless (redeems k now th verify)
      → Never db
      → Never (committed (redeem_row k now th verify db row).1 db)
  unfolding redeem_row consume_slot
  redeem_row-Never k now th verify db none fine h = h
  redeem_row-Never k now th verify db (some i) fine h = ground (
    arith,
    exists_where-update_where-false p (is_active_slot k) (consume now th) db.invites fine h,
  )

  module _ (burnt : (i : Invite) → p i ≡ false → p (record i { ticket_hash = none }) ≡ false)
      (revoked : (i : Invite) → p i ≡ false → p (revoke i) ≡ false) where
    revoke_row-Never :
        (k : Text) (verify : Text → Bool) (db : Db) (row : Option Invite)
        → Never db
        → Never (committed (revoke_row k verify db row).1 db)
    unfolding revoke_row revoke_slot
    revoke_row-Never k verify db none h = h
    revoke_row-Never k verify db (some i) h = ground (
      arith,
      exists_where-update_where-false p (invite_is k) revoke db.invites (λ i _. revoked i) h,
    )

    enqueue_slot-Never :
        (push : Push) (db : Db) (slot : Option Invite)
        → Never db
        → Never (committed (enqueue_slot push db slot).1 db)
    unfolding enqueue_slot
    enqueue_slot-Never push db none h = ap (exists_where p) (invites-place push db) ∙ h
    enqueue_slot-Never push db (some i) h = go (slot_refusal push i)
      where
        burned : Db
        burned = burn_ticket push.route_key db

        burned-Never : Never burned
        burned-Never =
            unfold burn_ticket in
            exists_where-update_where-false p (invite_is push.route_key)
              (λ i. record i { ticket_hash = none }) db.invites (λ i _. burnt i) h

        placed : (w : Option Db) → (place push burned).1 ≡ w → Never (committed w db)
        placed none e = h
        placed (some after) e =
            ap (λ x. exists_where p (committed x burned).invites) (sym e)
            ∙ ap (exists_where p) (invites-place push burned)
            ∙ burned-Never

        go : (r : Option SlotReject) → Never (committed (admit push db r).1 db)
        go none = unfold admit in placed (place push burned).1 refl
        go (some reason) = unfold admit in h

    pub step-Never :
        (st : Store) (f : Fault) (c : Call) (db : Db)
        → Harmless c
        → Never db
        → Never (step st f c db)
    unfolding step
    step-Never st f (sweeps now) db fine h =
        transact_ind Never f _ db h (swept-Never st.retention_ttl_secs now db h)
    step-Never st f (statuses k now) db fine h =
        transact_ind Never f _ db h (swept-Never st.retention_ttl_secs now db h)
    step-Never st f (pushes push) db fine h =
        transact_ind Never f _ db h
          (enqueue_slot-Never push db (find_where (invite_is push.route_key) db.invites) h)
    step-Never st f (pulls k max max_bytes now mode) db fine h =
        let after = swept st.retention_ttl_secs now db in
        transact_ind Never f _ db h (
          unfold pull_tx in
          ap (exists_where p)
            (invites-hand_out st k now mode (seqs (deliver k max max_bytes now after)) after)
          ∙ swept-Never st.retention_ttl_secs now db h)
    step-Never st f (acks k ids now) db fine h = transact_ind Never f _ db h (
        ap (exists_where p) (invites-ack_tx st k ids now db)
        ∙ swept-Never st.retention_ttl_secs now db h)
    step-Never st f (creates n now max_slots) db fine h =
        transact_ind Never f _ db h (invite_create_tx-Never st n now max_slots db fine h)
    step-Never st f (redeems k now th verify) db fine h =
        transact_ind Never f _ db h
          (redeem_row-Never k now th verify db (find_where (invite_is k) db.invites) fine h)
    step-Never st f (revokes k verify) db fine h =
        transact_ind Never f _ db h
          (revoke_row-Never k verify db (find_where (invite_is k) db.invites) h)

    pub run-Never :
        (st : Store) (cs : List (Fault × Call)) (db : Db)
        → All (λ x. Harmless x.1) cs
        → Never db
        → Never (run st cs db)
    unfolding run
    run-Never st [] db fine h = h
    run-Never st ((f, c) ∷ cs) db fine h =
        run-Never st cs (step st f c db) fine.1 (step-Never st f c db fine.0 h)
