-- ===== src/Store/Queue/Kept.antt =====
-- A message that no transaction of a run may delete.
use qsl_server.Base.{
  ℕ, suc, zero, ◌<◌, ◌+◌, Text, text_eq, text_eq_iff, ◌≡◌, refl, ap, ◌∙◌, ◌⊎◌, inl, inr, Bool, true,
  false, not, ◌&&◌, ◌==◌, Option, none, some, List, [], ◌∷◌, arith, exists_where, exists_where-snoc,
  exists_where-select-true,
}
use qsl_server.Store.Schema.{Db, Store, Message, Invite, legacy, lease, message_on}
use qsl_server.Store.Transaction.{healthy, committed}
use qsl_server.Store.Sweep.{is_expired, swept}
use qsl_server.Store.Invites.{
  invite_create_tx, insert_invite, redeem_row, revoke_row, consume_slot, revoke_slot, NewInvite,
}
use qsl_server.Store.Enqueue.{Push, enqueue_slot}
use qsl_server.Store.Pull.{pull, is_visible}
use qsl_server.Store.Ack.{ack, is_acked, listed}
use qsl_server.Store.Calls.{Call, sweeps, statuses, pushes, pulls, acks, creates, redeems, revokes}
use qsl_server.Store.Delivery.Chosen.{set_lease, remove_first, lease_first}
use qsl_server.Store.Valid.Invariant.{IsValid}
use qsl_server.Store.Queue.View.{messages-swept}
use qsl_server.Store.Queue.Push.{new_message, Appends, slot-Appends}
use qsl_server.Store.Queue.Take.{messages-pull_legacy}
use qsl_server.Store.Queue.Lease.{messages-pull_lease}
use qsl_server.Store.Queue.Acked.{messages-ack}

-- The message but for its lease.
abbrev pub copy_of : Message → Message → Bool
copy_of m x =
    (x.seq == m.seq)
    && text_eq x.msg_id m.msg_id
    && text_eq x.route_key m.route_key
    && text_eq x.body m.body
    && (x.enqueued_at == m.enqueued_at)

abbrev pub Stores : Message → Db → Type 0
Stores m db = exists_where (copy_of m) db.messages ≡ true

-- The transaction may not delete the message: it runs before the message expires, is no
-- delete-on-deliver pull of its route, and no ack of its route that lists its identifier.
abbrev pub Spares : ℕ → Message → Call → Type 0
Spares ttl m (sweeps now) = now < m.enqueued_at + ttl
Spares ttl m (statuses k now) = now < m.enqueued_at + ttl
Spares ttl m (pushes p) = Unit
Spares ttl m (pulls k max max_bytes now legacy) =
    (now < m.enqueued_at + ttl) × (text_eq m.route_key k ≡ false)
Spares ttl m (pulls k max max_bytes now lease) = now < m.enqueued_at + ttl
Spares ttl m (acks k ids now) =
    (now < m.enqueued_at + ttl) × ((text_eq m.route_key k ≡ false) ⊎ (listed ids m.msg_id ≡ false))
Spares ttl m (creates n now max_slots) = now < m.enqueued_at + ttl
Spares ttl m (redeems k now ticket_hash verify) = Unit
Spares ttl m (revokes k verify) = Unit

module _ (p : Message → Bool) where
  remove_first-stays :
      (q : Message → Bool) (n : ℕ) (ms : List Message)
      → ((x : Message) → p x ≡ true → q x ≡ false)
      → exists_where p ms ≡ true
      → exists_where p (remove_first q n ms) ≡ true
  unfolding remove_first
  remove_first-stays q zero ms other h = h
  remove_first-stays q (suc n) [] other h = h
  remove_first-stays q (suc n) (x ∷ xs) other h =
      ground
        (arith, other x, remove_first-stays q n xs other, remove_first-stays q (suc n) xs other)

  lease_first-stays :
      (q : Message → Bool) (d n : ℕ) (ms : List Message)
      → ((x : Message) → p (set_lease d x) ≡ p x)
      → exists_where p (lease_first q d n ms) ≡ exists_where p ms
  unfolding lease_first
  lease_first-stays q d zero ms same = refl
  lease_first-stays q d (suc n) [] same = refl
  lease_first-stays q d (suc n) (x ∷ xs) same =
      ground (arith, same x, lease_first-stays q d n xs same, lease_first-stays q d (suc n) xs same)

module _ (m : Message) where
  pub swept-Stores :
      (ttl now : ℕ) (db : Db)
      → now < m.enqueued_at + ttl
      → Stores m db
      → Stores m (swept ttl now db)
  swept-Stores ttl now db young h =
      ap (exists_where (copy_of m)) (messages-swept ttl now db)
      ∙ exists_where-select-true (copy_of m) (λ x. not (is_expired ttl now x)) db.messages
          (λ x same. ground arith) h

  pub enqueue_slot-Stores :
      (p : Push) (db : Db) (slot : Option Invite)
      → Stores m db
      → Stores m (committed (enqueue_slot p db slot).1 db)
  enqueue_slot-Stores p db slot h = go (enqueue_slot p db slot).1 (slot-Appends p db slot).0
    where
      go : (w : Option Db) → Appends p db w → Stores m (committed w db)
      go none a = h
      go (some after) a =
          ap (exists_where (copy_of m)) a.0
          ∙ exists_where-snoc (copy_of m) db.messages (new_message p db)
          ∙ rw h

  pub invite_create_tx-Stores :
      (st : Store) (n : NewInvite) (now max_slots : ℕ) (db : Db)
      → now < m.enqueued_at + st.retention_ttl_secs
      → Stores m db
      → Stores m (committed (invite_create_tx st n now max_slots db).1 db)
  unfolding invite_create_tx insert_invite
  invite_create_tx-Stores st n now max_slots db young h =
      ground (arith, swept-Stores st.retention_ttl_secs now db young h)

  pub redeem_row-Stores :
      (k : Text) (now : ℕ) (th : Text) (verify : Text → Bool) (db : Db) (row : Option Invite)
      → Stores m db
      → Stores m (committed (redeem_row k now th verify db row).1 db)
  unfolding redeem_row consume_slot
  redeem_row-Stores k now th verify db none h = h
  redeem_row-Stores k now th verify db (some i) h = ground arith

  pub revoke_row-Stores :
      (k : Text) (verify : Text → Bool) (db : Db) (row : Option Invite)
      → Stores m db
      → Stores m (committed (revoke_row k verify db row).1 db)
  unfolding revoke_row revoke_slot
  revoke_row-Stores k verify db none h = h
  revoke_row-Stores k verify db (some i) h = ground arith

  elsewhere :
      (k : Text) (x : Message)
      → text_eq m.route_key k ≡ false
      → copy_of m x ≡ true
      → message_on k x ≡ false
  elsewhere k x other same = ground (
    arith,
    text_eq_iff x.route_key m.route_key,
    text_eq_iff x.route_key k,
    text_eq_iff m.route_key k,
  )

  pub pull_legacy-Stores :
      (st : Store) (k : Text) (max max_bytes now : ℕ) (db : Db)
      → IsValid db
      → now < m.enqueued_at + st.retention_ttl_secs
      → text_eq m.route_key k ≡ false
      → Stores m db
      → Stores m (pull healthy st k max max_bytes now legacy db).1
  pull_legacy-Stores st k max mb now db v young other h =
      let after = swept st.retention_ttl_secs now db in
      ap (exists_where (copy_of m)) (messages-pull_legacy st k max mb now db v)
      ∙ remove_first-stays (copy_of m) (is_visible k now) _ after.messages
          (λ x same. rw (elsewhere k x other same))
          (swept-Stores st.retention_ttl_secs now db young h)

  pub pull_lease-Stores :
      (st : Store) (k : Text) (max max_bytes now : ℕ) (db : Db)
      → IsValid db
      → now < m.enqueued_at + st.retention_ttl_secs
      → Stores m db
      → Stores m (pull healthy st k max max_bytes now lease db).1
  pull_lease-Stores st k max mb now db v young h =
      let after = swept st.retention_ttl_secs now db in
      ap (exists_where (copy_of m)) (messages-pull_lease st k max mb now db v)
      ∙ lease_first-stays (copy_of m) (is_visible k now) _ _ after.messages (λ x. refl)
      ∙ swept-Stores st.retention_ttl_secs now db young h

  unacked :
      (k : Text) (ids : List Text) (x : Message)
      → copy_of m x ≡ true
      → (text_eq m.route_key k ≡ false) ⊎ (listed ids m.msg_id ≡ false)
      → is_acked k ids x ≡ false
  unfolding is_acked
  unacked k ids x same (inl other) = rw (elsewhere k x other same)
  unacked k ids x same (inr unlisted) =
      let id : x.msg_id ≡ m.msg_id = (text_eq_iff x.msg_id m.msg_id).0 (ground arith) in
      rw (id, unlisted) (ground arith)

  pub ack-Stores :
      (st : Store) (k : Text) (ids : List Text) (now : ℕ) (db : Db)
      → now < m.enqueued_at + st.retention_ttl_secs
      → (text_eq m.route_key k ≡ false) ⊎ (listed ids m.msg_id ≡ false)
      → Stores m db
      → Stores m (ack healthy st k ids now db).1
  ack-Stores st k ids now db young spared h =
      let after = swept st.retention_ttl_secs now db in
      ap (exists_where (copy_of m)) (messages-ack st k ids now db)
      ∙ exists_where-select-true (copy_of m) (λ x. not (is_acked k ids x)) after.messages
          (λ x same. ap not (unacked k ids x same spared))
          (swept-Stores st.retention_ttl_secs now db young h)
