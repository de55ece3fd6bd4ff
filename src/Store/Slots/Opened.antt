-- ===== src/Store/Slots/Opened.antt =====
-- A slot that a redemption has opened, up to the push that its ticket admits.
use qsl_server.Base.{
  ℕ, ◌<◌, Text, ◌≡◌, ◌≢◌, refl, ap, ◌∙◌, Bool, true, Option, none, some, List, arith, if◌then◌else◌,
  find_where,
}
use mathlib.Core.Option
use qsl_server.Store.Schema.{
  Db, Invite, InviteRedeemOutcome, invite_is, invite_active, invite_consumed, invite_revoked,
}
use qsl_server.Store.Transaction.{committed}
use qsl_server.Store.Invites.{redeem_row, consume_slot, consume, is_active_slot}
use qsl_server.Store.Enqueue.{Push, enqueue_slot, admit, place, slot_refusal, burn_ticket}
use qsl_server.Store.Slots.Find.{find-update_where, find_sound}
use qsl_server.Store.Valid.Invariant.{Tidy}
use qsl_server.Store.Queue.Push.{HasRoom}

-- A row whose redemption succeeds was active.
pub redeemed_slot :
    (k : Text) (now : ℕ) (th : Text) (verify : Text → Bool) (db : Db) (row : Option Invite)
    (bundle sig : List ℕ)
    → (redeem_row k now th verify db row).0 ≡ InviteRedeemOutcome.redeemed bundle sig
    → (i : Invite) × (row ≡ some i)
      × (i.state ≢ invite_consumed)
      × (i.state ≢ invite_revoked)
      × (committed (redeem_row k now th verify db row).1 db ≡ consume_slot k now th db)
unfolding redeem_row
redeemed_slot k now th verify db none b s h = cc
redeemed_slot k now th verify db (some i) b s h =
    (i, refl, ground arith, ground arith, ground arith)

pub Tidy-active :
    (i : Invite)
    → Tidy i
    → i.state ≢ invite_consumed
    → i.state ≢ invite_revoked
    → i.state ≡ invite_active
Tidy-active i t c r = ground arith

-- The slot after the redemption carries the ticket.
pub consumed_slot :
    (k : Text) (now : ℕ) (th : Text) (db : Db) (i : Invite)
    → find_where (invite_is k) db.invites ≡ some i
    → i.state ≡ invite_active
    → find_where (invite_is k) (consume_slot k now th db).invites ≡ some (consume now th i)
unfolding consume_slot
consumed_slot k now th db i e a =
    find-update_where k (is_active_slot k) (consume now th) db.invites (λ x. refl)
    ∙ ap (Option.map (λ x. if is_active_slot k x then consume now th x else x)) e
    ∙ ground (arith, find_sound k db.invites i e)

pub ticketed_place :
    (p : Push) (db : Db) (i : Invite) (verify : Text → Bool) (th : Text)
    → i.state ≡ invite_consumed
    → p.now < i.expiry
    → i.ticket_hash ≡ some th
    → p.ticket ≡ some verify
    → verify th ≡ true
    → enqueue_slot p db (some i) ≡ place p (burn_ticket p.route_key db)
unfolding enqueue_slot admit slot_refusal
ticketed_place p db i verify th c early e t good = ground arith

pub room_kept :
    (p : Push) (now : ℕ) (th : Text) (db : Db)
    → HasRoom p db
    → HasRoom p (burn_ticket p.route_key (consume_slot p.route_key now th db))
unfolding burn_ticket consume_slot
room_kept p now th db r = r
