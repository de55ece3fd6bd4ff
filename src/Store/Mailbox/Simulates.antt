-- ===== src/Store/Mailbox/Simulates.antt =====
-- The store keeps the promises of its mailboxes.
use qsl_server.Base.{
  ℕ, Text, text_eq, text_eq_iff, ◌≡◌, refl, ap, subst, ◌∙◌, ◌⊎◌, inl, inr, Bool, Option, none, some,
  List, [], ◌∷◌, ◌++◌, map, length, arith, Bool-cases, leb, exists_where, find_where, select,
}
use qsl_server.Store.Schema.{Db, Store, StoredMsg, legacy, lease, Invite, message_on, invite_is}
use qsl_server.Store.Transaction.{Fault, healthy, committed, transact}
use qsl_server.Store.Sweep.{swept}
use qsl_server.Store.Invites.{
  NewInvite, invite_create_tx, insert_invite, redeem_row, revoke_row, consume_slot, revoke_slot,
}
use qsl_server.Store.Enqueue.{Push, enqueue_slot}
use qsl_server.Store.Pull.{pull}
use qsl_server.Store.Ack.{ack}
use qsl_server.Store.Calls.{
  Call, sweeps, statuses, pushes, pulls, acks, creates, redeems, revokes, step,
}
use qsl_server.Store.Valid.Invariant.{IsValid}
use qsl_server.Store.Queue.View.{queue}
use qsl_server.Store.Queue.Push.{new_message, Appends, slot-Appends, appended-AppendsOnly}
use qsl_server.Store.Mailbox.Promises.{Unmoved, Cleaned, Posted, Promises, Asks, letter_of}
use qsl_server.Store.Mailbox.Boxed.{letter, boxes, boxes-swept, map-snoc}
use qsl_server.Store.Mailbox.Handed.{
  items_of, legacy-OnlyAt, lease-OnlyAt, ack-OnlyAt, pull-Granted,
}

unfoldable pub delivered : Store → Fault → Call → Db → List StoredMsg
unfolding pull
delivered st f (pulls k max max_bytes now mode) db =
    items_of (pull f st k max max_bytes now mode db).0
delivered st f _ db = []

unfoldable pub deliveries : Store → List (Fault × Call) → Db → List (List StoredMsg)
unfolding delivered step
deliveries st [] db = []
deliveries st ((f, c) ∷ cs) db = delivered st f c db ∷ deliveries st cs (step st f c db)

appended-Posted :
    (p : Push) (db after : Db) → Appends p db (some after) → Posted p (boxes db) (boxes after)
appended-Posted p db after a k =
    let (own, others, counted) = appended-AppendsOnly p db after a.0 a.1 in
    elim (Bool-cases (text_eq p.route_key k)) [
      | inl same ↦ rw same (
          subst (λ i. map letter (queue i after) ≡ map letter (queue i db) ++ letter_of p ∷ [])
            ((text_eq_iff p.route_key k).0 same)
            (ap (map letter) own ∙ map-snoc (queue p.route_key db) (new_message p db)))
      | inr other ↦ rw other (ap (map letter) (others k other))
    ]

enqueue_slot-Posted :
    (p : Push) (db : Db) (slot : Option Invite)
    → Unmoved (boxes db) (boxes (committed (enqueue_slot p db slot).1 db))
      ⊎ Posted p (boxes db) (boxes (committed (enqueue_slot p db slot).1 db))
enqueue_slot-Posted p db slot = go (enqueue_slot p db slot).1 (slot-Appends p db slot).0
  where
    go :
        (w : Option Db)
        → Appends p db w
        → Unmoved (boxes db) (boxes (committed w db)) ⊎ Posted p (boxes db) (boxes (committed w db))
    go none a = inl (λ k. refl)
    go (some after) a = inr (appended-Posted p db after a)

invite_create_tx-Cleaned :
    (st : Store) (n : NewInvite) (now max_slots : ℕ) (db : Db)
    → let after = committed (invite_create_tx st n now max_slots db).1 db in
      Unmoved (boxes db) (boxes after) ⊎ Cleaned st.retention_ttl_secs now (boxes db) (boxes after)
unfolding invite_create_tx insert_invite
invite_create_tx-Cleaned st n now max_slots db =
    let after = swept st.retention_ttl_secs now db in
    elim (Bool-cases (exists_where (invite_is n.slot_key) after.invites)) [
      | inl there ↦ rw there (inl (λ k. refl))
      | inr absent ↦ elim (Bool-cases (leb max_slots (length after.invites))) [
        | inl full ↦ rw (absent, full) (inl (λ k. refl))
        | inr room ↦ rw (absent, room) (inr (boxes-swept st.retention_ttl_secs now db))
      ]
    ]

messages-redeem_row :
    (k : Text) (now : ℕ) (th : Text) (verify : Text → Bool) (db : Db) (row : Option Invite)
    → (committed (redeem_row k now th verify db row).1 db).messages ≡ db.messages
unfolding redeem_row consume_slot
messages-redeem_row k now th verify db none = refl
messages-redeem_row k now th verify db (some i) = ground arith

messages-revoke_row :
    (k : Text) (verify : Text → Bool) (db : Db) (row : Option Invite)
    → (committed (revoke_row k verify db row).1 db).messages ≡ db.messages
unfolding revoke_row revoke_slot
messages-revoke_row k verify db none = refl
messages-revoke_row k verify db (some i) = ground arith

redeem_row-Unmoved :
    (k : Text) (now : ℕ) (th : Text) (verify : Text → Bool) (db : Db) (row : Option Invite)
    → Unmoved (boxes db) (boxes (committed (redeem_row k now th verify db row).1 db))
redeem_row-Unmoved k now th verify db row j =
    ap (λ ms. map letter (select (message_on j) ms)) (messages-redeem_row k now th verify db row)

revoke_row-Unmoved :
    (k : Text) (verify : Text → Bool) (db : Db) (row : Option Invite)
    → Unmoved (boxes db) (boxes (committed (revoke_row k verify db row).1 db))
revoke_row-Unmoved k verify db row j =
    ap (λ ms. map letter (select (message_on j) ms)) (messages-revoke_row k verify db row)

pub healthy-Promises :
    (st : Store) (c : Call) (db : Db)
    → Asks c
    → IsValid db
    → Promises st healthy c (boxes db) (delivered st healthy c db) (boxes (step st healthy c db))
unfolding step delivered transact
healthy-Promises st (sweeps now) db asks v = (refl, boxes-swept st.retention_ttl_secs now db)
healthy-Promises st (statuses k now) db asks v = (refl, boxes-swept st.retention_ttl_secs now db)
healthy-Promises st (pushes p) db asks v =
    (refl, enqueue_slot-Posted p db (find_where (invite_is p.route_key) db.invites))
healthy-Promises st (pulls k max max_bytes now legacy) db asks v =
    let (grant, items) = pull-Granted st k max max_bytes now legacy db asks.0 asks.1 in
    let only = legacy-OnlyAt st k max max_bytes now db v in unfold pull in (_, grant, items, only)
healthy-Promises st (pulls k max max_bytes now lease) db asks v =
    let (grant, items) = pull-Granted st k max max_bytes now lease db asks.0 asks.1 in
    let only = lease-OnlyAt st k max max_bytes now db v in unfold pull in (_, grant, items, only)
healthy-Promises st (acks k ids now) db asks v =
    let only = ack-OnlyAt st k ids now db in unfold ack in (refl, only)
healthy-Promises st (creates n now max_slots) db asks v =
    (refl, invite_create_tx-Cleaned st n now max_slots db)
healthy-Promises st (redeems k now th verify) db asks v =
    (refl, redeem_row-Unmoved k now th verify db (find_where (invite_is k) db.invites))
healthy-Promises st (revokes k verify) db asks v =
    (refl, revoke_row-Unmoved k verify db (find_where (invite_is k) db.invites))
