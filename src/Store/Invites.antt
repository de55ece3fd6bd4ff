-- ===== src/Store/Invites.antt =====
-- src/store.rs: `invite_create`, `invite_redeem` and `invite_revoke`.
use qsl_server.Base.{
  ℕ, Text, Bool, not, ◌&&◌, Option, none, some, List, [], ◌∷◌, ◌++◌, length, leb, ◌==◌,
  if◌then◌else◌, exists_where, find_where, update_where, count_where,
}
use qsl_server.Base.Result.{Result}
use qsl_server.Store.Schema.{
  Db, Store, Invite, InviteCreateOutcome, InviteRedeemOutcome, InviteRevokeOutcome, invite_is,
  invite_active, invite_consumed, invite_revoked,
}
use qsl_server.Store.Transaction.{Fault, Tx, transact}
use qsl_server.Store.Sweep.{swept}

-- What the caller publishes: the arguments of `invite_create`.
pub record NewInvite : Type 0 where
  pub slot_key : Text
  pub log_id : Text
  pub cap_hash : Text
  pub revoke_hash : Text
  pub bundle : List ℕ
  pub invite_sig : List ℕ
  pub expiry : ℕ

-- The row of a published slot.
abbrev pub new_invite : NewInvite → ℕ → Invite
new_invite n now = record {
  slot_key = n.slot_key;
  log_id = n.log_id;
  cap_hash = n.cap_hash;
  revoke_hash = n.revoke_hash;
  bundle = n.bundle;
  invite_sig = n.invite_sig;
  expiry = n.expiry;
  created_at = now;
  state = invite_active;
  consumed_at = none;
  ticket_hash = none;
}

-- INSERT INTO invites
unfoldable pub insert_invite : NewInvite → ℕ → Db → Db
insert_invite n now db = record db { invites = db.invites ++ new_invite n now ∷ [] }

-- `Duplicate` and `CapFull` return without a commit, which rolls the sweep back too.
unfoldable pub invite_create_tx : Store → NewInvite → ℕ → ℕ → Tx InviteCreateOutcome
unfolding insert_invite swept
invite_create_tx st n now max_slots db =
    let after = swept st.retention_ttl_secs now db in
    if exists_where (invite_is n.slot_key) after.invites
    then (InviteCreateOutcome.duplicate, none)
    else if leb max_slots (length after.invites)
    then (InviteCreateOutcome.cap_full (length after.invites), none)
    else (InviteCreateOutcome.created, some (insert_invite n now after))

unfoldable pub invite_create :
    Fault → Store → NewInvite → ℕ → ℕ → Db → Result InviteCreateOutcome × Db
unfolding invite_create_tx transact
invite_create f st n now max_slots = transact f (invite_create_tx st n now max_slots)

-- The compare-and-set: WHERE slot_key = ?1 AND state = INVITE_ACTIVE
abbrev pub is_active_slot : Text → Invite → Bool
is_active_slot k i = invite_is k i && (i.state == invite_active)

abbrev pub consume : ℕ → Text → Invite → Invite
consume now ticket_hash i = record i {
  bundle = [];
  invite_sig = [];
  state = invite_consumed;
  consumed_at = some now;
  ticket_hash = some ticket_hash;
}

unfoldable pub consume_slot : Text → ℕ → Text → Db → Db
consume_slot k now ticket_hash db = record db {
  invites = update_where (is_active_slot k) (consume now ticket_hash) db.invites;
}

unfoldable pub redeem_row :
    Text → ℕ → Text → (Text → Bool) → Db → Option Invite → InviteRedeemOutcome × Option Db
unfolding consume_slot
redeem_row k now ticket_hash verify_cap db none = (InviteRedeemOutcome.not_found, none)
redeem_row k now ticket_hash verify_cap db (some i) =
    if i.state == invite_revoked
    then (InviteRedeemOutcome.revoked, none)
    else if leb i.expiry now
    then (InviteRedeemOutcome.expired, none)
    else if i.state == invite_consumed
    then (InviteRedeemOutcome.already_used, none)
    else if not (verify_cap i.cap_hash)
    then (InviteRedeemOutcome.cap_invalid, none)
    else if count_where (is_active_slot k) db.invites == 0
    then (InviteRedeemOutcome.already_used, none)
    else (
      InviteRedeemOutcome.redeemed i.bundle i.invite_sig,
      some (consume_slot k now ticket_hash db),
    )

unfoldable pub invite_redeem_tx : Text → ℕ → Text → (Text → Bool) → Tx InviteRedeemOutcome
unfolding redeem_row
invite_redeem_tx k now ticket_hash verify_cap db =
    redeem_row k now ticket_hash verify_cap db (find_where (invite_is k) db.invites)

unfoldable pub invite_redeem :
    Fault → Text → ℕ → Text → (Text → Bool) → Db → Result InviteRedeemOutcome × Db
unfolding invite_redeem_tx transact
invite_redeem f k now ticket_hash verify_cap =
    transact f (invite_redeem_tx k now ticket_hash verify_cap)

abbrev pub revoke : Invite → Invite
revoke i = record i { bundle = []; invite_sig = []; state = invite_revoked; ticket_hash = none }

unfoldable pub revoke_slot : Text → Db → Db
revoke_slot k db = record db { invites = update_where (invite_is k) revoke db.invites }

unfoldable pub revoke_row :
    Text → (Text → Bool) → Db → Option Invite → InviteRevokeOutcome × Option Db
unfolding revoke_slot
revoke_row k verify_revoke db none = (InviteRevokeOutcome.not_found, none)
revoke_row k verify_revoke db (some i) =
    if not (verify_revoke i.revoke_hash)
    then (InviteRevokeOutcome.token_invalid, none)
    else if i.state == invite_revoked
    then (InviteRevokeOutcome.already_revoked, none)
    else (InviteRevokeOutcome.revoked, some (revoke_slot k db))

-- The source takes the time too, and does not use it.
unfoldable pub invite_revoke_tx : Text → (Text → Bool) → Tx InviteRevokeOutcome
unfolding revoke_row
invite_revoke_tx k verify_revoke db =
    revoke_row k verify_revoke db (find_where (invite_is k) db.invites)

unfoldable pub invite_revoke : Fault → Text → (Text → Bool) → Db → Result InviteRevokeOutcome × Db
unfolding invite_revoke_tx transact
invite_revoke f k verify_revoke = transact f (invite_revoke_tx k verify_revoke)
