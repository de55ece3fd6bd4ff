-- ===== src/Store/Valid/Slots.antt =====
-- The statements on invites keep the invariant.
use qsl_server.Base.{
  ℕ, Text, ◌≡◌, refl, inl, inr, false, not, none, List, All, All-append, All-select,
  All-update_where, exists_where,
}
use qsl_server.Store.Schema.{Db, Invite, invite_is}
use qsl_server.Store.Sweep.{delete_expired_invites, invite_expired}
use qsl_server.Store.Invites.{
  NewInvite, insert_invite, consume_slot, revoke_slot, consume, revoke, is_active_slot,
}
use qsl_server.Store.Enqueue.{burn_ticket}
use qsl_server.Store.Valid.Unique.{Unique-append, Unique-select, Unique-update_where}
use qsl_server.Store.Valid.Invariant.{IsValid, Tidy, SlotsUnique}

abbrev pub with_invites : List Invite → Db → Db
with_invites is db = record db { invites = is }

with_invites-IsValid :
    (is : List Invite) (db : Db)
    → SlotsUnique (with_invites is db)
    → All Tidy is
    → IsValid db
    → IsValid (with_invites is db)
with_invites-IsValid is db u t v = record {
  backed = v.backed;
  routes_unique = v.routes_unique;
  slots_unique = u;
  ordered = v.ordered;
  tidy = t;
}

pub delete_expired_invites-IsValid :
    (now : ℕ) (db : Db) → IsValid db → IsValid (delete_expired_invites now db)
unfolding delete_expired_invites
delete_expired_invites-IsValid now db v =
    with_invites-IsValid _ db
      (Unique-select (λ i. i.slot_key) (λ i. not (invite_expired now i)) db.invites v.slots_unique)
      (All-select Tidy (λ i. not (invite_expired now i)) db.invites v.tidy) v

pub insert_invite-IsValid :
    (n : NewInvite) (now : ℕ) (db : Db)
    → exists_where (invite_is n.slot_key) db.invites ≡ false
    → IsValid db
    → IsValid (insert_invite n now db)
unfolding insert_invite
insert_invite-IsValid n now db absent v =
    with_invites-IsValid _ db (Unique-append (λ i. i.slot_key) db.invites _ absent v.slots_unique)
      (All-append Tidy db.invites _ v.tidy (inl (refl, refl), tt)) v

pub consume_slot-IsValid :
    (k : Text) (now : ℕ) (ticket_hash : Text) (db : Db)
    → IsValid db
    → IsValid (consume_slot k now ticket_hash db)
unfolding consume_slot
consume_slot-IsValid k now ticket_hash db v =
    with_invites-IsValid _ db
      (Unique-update_where (λ i. i.slot_key) (is_active_slot k) (consume now ticket_hash) db.invites
        (λ i. refl) v.slots_unique)
      (All-update_where Tidy (is_active_slot k) (consume now ticket_hash) db.invites
        (λ i _ _. inr (inl (refl, refl, refl))) v.tidy)
      v

pub revoke_slot-IsValid : (k : Text) (db : Db) → IsValid db → IsValid (revoke_slot k db)
unfolding revoke_slot
revoke_slot-IsValid k db v =
    with_invites-IsValid _ db
      (Unique-update_where (λ i. i.slot_key) (invite_is k) revoke db.invites (λ i. refl)
        v.slots_unique)
      (All-update_where Tidy (invite_is k) revoke db.invites
        (λ i _ _. inr (inr (refl, refl, refl, refl))) v.tidy)
      v

without_ticket-Tidy : (i : Invite) → Tidy i → Tidy (record i { ticket_hash = none })
without_ticket-Tidy i (inl h) = inl (h.0, refl)
without_ticket-Tidy i (inr (inl h)) = inr (inl h)
without_ticket-Tidy i (inr (inr h)) = inr (inr (h.0, h.1, h.2, refl))

pub burn_ticket-IsValid : (k : Text) (db : Db) → IsValid db → IsValid (burn_ticket k db)
unfolding burn_ticket
burn_ticket-IsValid k db v =
    with_invites-IsValid _ db
      (Unique-update_where (λ i. i.slot_key) (invite_is k) (λ i. record i { ticket_hash = none })
        db.invites (λ i. refl) v.slots_unique)
      (All-update_where Tidy (invite_is k) (λ i. record i { ticket_hash = none }) db.invites
        (λ i _ t. without_ticket-Tidy i t) v.tidy)
      v
