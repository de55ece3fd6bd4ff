-- ===== src/Store/Slots/Once.antt =====
-- Slots that were redeemed or revoked, through later transactions.
use qsl_server.Base.{
  ℕ, ◌<◌, Text, text_eq, ◌≡◌, ◌≢◌, refl, Bool, true, false, Option, none, some, List, [], ◌∷◌, ◌++◌,
  text_eq_refl, update_where, arith, All, All-map, exists_where, exists_where-update_where_self,
  find_where, count_where-zero,
}
use qsl_server.Base.Result.{ok}
use qsl_server.Store.Schema.{
  Db, Store, Invite, InviteCreateOutcome, InviteRedeemOutcome, InviteRevokeOutcome, invite_is,
}
use qsl_server.Store.Transaction.{Fault, healthy, lock_poisoned, sql_error, committed}
use qsl_server.Store.Sweep.{swept}
use qsl_server.Store.Invites.{
  NewInvite, new_invite, insert_invite, invite_create, invite_redeem, redeem_row, consume_slot,
  consume, invite_revoke, revoke_row, revoke_slot, revoke, is_active_slot,
}
use qsl_server.Store.Calls.{Call, creates, run}
use qsl_server.Store.Slots.Find.{find-snoc_self, active_is_met}
use qsl_server.Store.Slots.Never.{Never, Harmless, run-Never}

-- The call does not publish the slot anew.
abbrev pub DoesNotCreate : Text → Call → Type 0
DoesNotCreate k (creates n now max_slots) = text_eq n.slot_key k ≡ false
DoesNotCreate k _ = Unit

not_active : (k : Text) (c : Call) → DoesNotCreate k c → Harmless (is_active_slot k) c
not_active k (Call.sweeps now) h = tt
not_active k (Call.statuses j now) h = tt
not_active k (Call.pushes p) h = tt
not_active k (Call.pulls j max mb now mode) h = tt
not_active k (Call.acks j ids now) h = tt
not_active k (Call.creates n now max_slots) h = ground arith
not_active k (Call.redeems j now th verify) h = λ i _ _. ground arith
not_active k (Call.revokes j verify) h = tt

run_not_active :
    (st : Store) (k : Text) (cs : List (Fault × Call)) (db : Db)
    → All (λ x. DoesNotCreate k x.1) cs
    → Never (is_active_slot k) db
    → Never (is_active_slot k) (run st cs db)
run_not_active st k cs db h never =
    run-Never (is_active_slot k) (λ i e. e) (λ i e. ground arith) st cs db
      (All-map (λ x e. not_active k x.1 e) cs h) never

redeemed_row :
    (k : Text) (now : ℕ) (th : Text) (verify : Text → Bool) (db : Db) (row : Option Invite)
    (bundle sig : List ℕ)
    → (redeem_row k now th verify db row).0 ≡ InviteRedeemOutcome.redeemed bundle sig
    → Never (is_active_slot k) (committed (redeem_row k now th verify db row).1 db)
unfolding redeem_row consume_slot
redeemed_row k now th verify db none b s h = cc
redeemed_row k now th verify db (some i) b s h = ground (
  arith,
  exists_where-update_where_self (is_active_slot k) (consume now th) db.invites (λ x. ground arith),
)

redeemed_not_active :
    (f : Fault) (k : Text) (now : ℕ) (th : Text) (verify : Text → Bool) (db : Db)
    (bundle sig : List ℕ)
    → (invite_redeem f k now th verify db).0 ≡ ok (InviteRedeemOutcome.redeemed bundle sig)
    → Never (is_active_slot k) (invite_redeem f k now th verify db).1
unfolding invite_redeem
redeemed_not_active healthy k now th verify db b s h =
    redeemed_row k now th verify db (find_where (invite_is k) db.invites) b s (cc)
redeemed_not_active lock_poisoned k now th verify db b s h = cc
redeemed_not_active (sql_error e) k now th verify db b s h = cc

row_not_redeemed :
    (k : Text) (now : ℕ) (th : Text) (verify : Text → Bool) (db : Db) (row : Option Invite)
    (bundle sig : List ℕ)
    → Never (is_active_slot k) db
    → (redeem_row k now th verify db row).0 ≢ InviteRedeemOutcome.redeemed bundle sig
unfolding redeem_row
row_not_redeemed k now th verify db none b s never h = cc
row_not_redeemed k now th verify db (some i) b s never h =
    ground (arith, count_where-zero (is_active_slot k) db.invites)

not_redeemed :
    (f : Fault) (k : Text) (now : ℕ) (th : Text) (verify : Text → Bool) (db : Db)
    (bundle sig : List ℕ)
    → Never (is_active_slot k) db
    → (invite_redeem f k now th verify db).0 ≢ ok (InviteRedeemOutcome.redeemed bundle sig)
unfolding invite_redeem
not_redeemed healthy k now th verify db b s never h =
    row_not_redeemed k now th verify db (find_where (invite_is k) db.invites) b s never (cc)
not_redeemed lock_poisoned k now th verify db b s never h = cc
not_redeemed (sql_error e) k now th verify db b s never h = cc

-- Once a redemption of a slot has succeeded, and whatever transactions follow with whatever
-- faults, none of them publishing that slot anew, no redemption of it succeeds.
pub redeem_at_most_once :
    (st : Store) (f : Fault) (k : Text) (now : ℕ) (ticket_hash : Text) (verify : Text → Bool)
    (db : Db) (bundle sig : List ℕ) (cs : List (Fault × Call))
    → (invite_redeem f k now ticket_hash verify db).0 ≡ ok (InviteRedeemOutcome.redeemed bundle sig)
    → All (λ x. DoesNotCreate k x.1) cs
    → (f' : Fault) (now' : ℕ) (ticket_hash' : Text) (verify' : Text → Bool) (bundle' sig' : List ℕ)
    → (invite_redeem f' k now' ticket_hash' verify'
        (run st cs (invite_redeem f k now ticket_hash verify db).1)).0
      ≢ ok (InviteRedeemOutcome.redeemed bundle' sig')
redeem_at_most_once st f k now th verify db b s cs h quiet f' now' th' verify' b' s' =
    not_redeemed f' k now' th' verify' _ b' s'
      (run_not_active st k cs _ quiet (redeemed_not_active f k now th verify db b s h))

revoke_all :
    (k : Text) (is : List Invite)
    → exists_where (is_active_slot k) (update_where (invite_is k) revoke is) ≡ false
revoke_all k [] = refl
revoke_all k (i ∷ is) = ground (arith, revoke_all k is)

revoked_row :
    (k : Text) (verify : Text → Bool) (db : Db) (row : Option Invite)
    → (revoke_row k verify db row).0 ≡ InviteRevokeOutcome.revoked
    → Never (is_active_slot k) (committed (revoke_row k verify db row).1 db)
unfolding revoke_row revoke_slot
revoked_row k verify db none h = cc
revoked_row k verify db (some i) h = ground (arith, revoke_all k db.invites)

revoked_not_active :
    (f : Fault) (k : Text) (verify : Text → Bool) (db : Db)
    → (invite_revoke f k verify db).0 ≡ ok InviteRevokeOutcome.revoked
    → Never (is_active_slot k) (invite_revoke f k verify db).1
unfolding invite_revoke
revoked_not_active healthy k verify db h =
    revoked_row k verify db (find_where (invite_is k) db.invites) (cc)
revoked_not_active lock_poisoned k verify db h = cc
revoked_not_active (sql_error e) k verify db h = cc

-- Once a slot is revoked, and whatever transactions follow, none of them publishing that slot
-- anew, no redemption of it succeeds.
pub revoked_not_redeemed :
    (st : Store) (f : Fault) (k : Text) (verify : Text → Bool) (db : Db) (cs : List (Fault × Call))
    → (invite_revoke f k verify db).0 ≡ ok InviteRevokeOutcome.revoked
    → All (λ x. DoesNotCreate k x.1) cs
    → (f' : Fault) (now' : ℕ) (ticket_hash : Text) (verify' : Text → Bool) (bundle sig : List ℕ)
    → (invite_redeem f' k now' ticket_hash verify' (run st cs (invite_revoke f k verify db).1)).0
      ≢ ok (InviteRedeemOutcome.redeemed bundle sig)
revoked_not_redeemed st f k verify db cs h quiet f' now' th verify' b s =
    not_redeemed f' k now' th verify' _ b s
      (run_not_active st k cs _ quiet (revoked_not_active f k verify db h))

created_invites :
    (st : Store) (n : NewInvite) (now max_slots : ℕ) (db : Db)
    → (invite_create healthy st n now max_slots db).0 ≡ ok InviteCreateOutcome.created
    → let after = swept st.retention_ttl_secs now db in
      (exists_where (invite_is n.slot_key) after.invites ≡ false)
      × ((invite_create healthy st n now max_slots db).1 ≡ insert_invite n now after)
unfolding invite_create
created_invites st n now max_slots db h = ground arith

-- What is published can be redeemed: from the store that a successful create leaves, a redemption
-- before the expiry whose capability the stored hash verifies returns the bundle and the signature
-- as they were published.
pub redeem-create :
    (st : Store) (n : NewInvite) (now max_slots : ℕ) (db : Db)
    → (invite_create healthy st n now max_slots db).0 ≡ ok InviteCreateOutcome.created
    → (now' : ℕ) (ticket_hash : Text) (verify : Text → Bool) → now' < n.expiry
    → verify n.cap_hash ≡ true
    → (invite_redeem healthy n.slot_key now' ticket_hash verify
        (invite_create healthy st n now max_slots db).1).0
      ≡ ok (InviteRedeemOutcome.redeemed n.bundle n.invite_sig)
redeem-create st n now max_slots db h now' th verify early good =
    let (absent, e) = created_invites st n now max_slots db h in
    let is = (swept st.retention_ttl_secs now db).invites in
    let found = find-snoc_self n.slot_key is (new_invite n now) absent (text_eq_refl n.slot_key) in
    let met =
      active_is_met n.slot_key (is ++ new_invite n now ∷ []) (new_invite n now) found refl in
    rw e (unfold invite_redeem insert_invite in rw found (ground (arith, met)))
