-- ===== src/Store/Slots/Ticket.antt =====
-- The ticket of a redemption, and the pushes to the slot's route.
use qsl_server.Base.{
  ℕ, ◌<◌, Text, text_eq, text_eq_iff, ◌≡◌, ◌≢◌, refl, sym, ap, subst, ◌∙◌, Bool, true, false, ◌&&◌,
  Option, none, some, List, [], ◌∷◌, arith, All, All-map, All-find_where, exists_where,
  update_where, find_where,
}
use qsl_server.Base.Result.{ok}
use qsl_server.Store.Schema.{
  Db, Store, Invite, SlotReject, EnqueueOutcome, InviteRedeemOutcome, invite_is,
}
use qsl_server.Store.Transaction.{Fault, healthy, lock_poisoned, sql_error, committed}
use qsl_server.Store.Invites.{invite_redeem, consume_slot, consume, is_active_slot}
use qsl_server.Store.Enqueue.{Push, enqueue, enqueue_slot, admit, slot_refusal, burn_ticket}
use qsl_server.Store.Calls.{Call, redeems, run}
use qsl_server.Store.Valid.Invariant.{IsValid, Tidy}
use qsl_server.Store.Slots.Never.{Never, Harmless, run-Never, invites-place}
use qsl_server.Store.Queue.Push.{HasRoom, Commits, slot-Appends, place-accepts_iff}
use qsl_server.Store.Slots.Opened.{
  redeemed_slot, Tidy-active, consumed_slot, ticketed_place, room_kept,
}

abbrev has_ticket : Option Text → Bool
has_ticket none = false
has_ticket (some t) = true

-- A row of the slot with a live ticket.
abbrev pub is_ticketed : Text → Invite → Bool
is_ticketed k i = invite_is k i && has_ticket i.ticket_hash

abbrev pub DoesNotRedeem : Text → Call → Type 0
DoesNotRedeem k (redeems j now ticket_hash verify) = text_eq j k ≡ false
DoesNotRedeem k _ = Unit

other_slot :
    (j k : Text) (i : Invite)
    → text_eq j k ≡ false
    → is_active_slot j i ≡ true
    → invite_is k i ≡ false
other_slot j k i other h =
    ground (arith, text_eq_iff i.slot_key j, text_eq_iff i.slot_key k, text_eq_iff j k)

no_new_ticket : (k : Text) (c : Call) → DoesNotRedeem k c → Harmless (is_ticketed k) c
no_new_ticket k (Call.sweeps now) h = tt
no_new_ticket k (Call.statuses j now) h = tt
no_new_ticket k (Call.pushes p) h = tt
no_new_ticket k (Call.pulls j max mb now mode) h = tt
no_new_ticket k (Call.acks j ids now) h = tt
no_new_ticket k (Call.creates n now max_slots) h = ground arith
no_new_ticket k (Call.redeems j now th verify) h = λ i a _. ground (arith, other_slot j k i h a)
no_new_ticket k (Call.revokes j verify) h = tt

run_no_ticket :
    (st : Store) (k : Text) (cs : List (Fault × Call)) (db : Db)
    → All (λ x. DoesNotRedeem k x.1) cs
    → Never (is_ticketed k) db
    → Never (is_ticketed k) (run st cs db)
run_no_ticket st k cs db h never =
    run-Never (is_ticketed k) (λ i e. ground arith) (λ i e. ground arith) st cs db
      (All-map (λ x e. no_new_ticket k x.1 e) cs h) never

burn_all :
    (k : Text) (is : List Invite)
    → exists_where
        (is_ticketed k)
        (update_where (invite_is k) (λ i. record i { ticket_hash = none }) is)
      ≡ false
burn_all k [] = refl
burn_all k (i ∷ is) = ground (arith, burn_all k is)

absent_no_ticket :
    (k : Text) (is : List Invite)
    → find_where (invite_is k) is ≡ none
    → exists_where (is_ticketed k) is ≡ false
absent_no_ticket k [] h = refl
absent_no_ticket k (i ∷ is) h = ground (arith, absent_no_ticket k is)

found_no_ticket :
    (k : Text) (is : List Invite) (i : Invite)
    → find_where (invite_is k) is ≡ some i
    → exists_where (is_ticketed k) is ≡ false
    → i.ticket_hash ≡ none
found_no_ticket k [] i h never = cc
found_no_ticket k (x ∷ is) i h never = ground (arith, found_no_ticket k is i)

admitted_no_ticket :
    (p : Push) (db : Db) (r : Option SlotReject)
    → (admit p db r).0 ≡ EnqueueOutcome.accepted
    → (w : Option Db) → (admit p db r).1 ≡ w
    → w ≢ none
    → Never (is_ticketed p.route_key) (committed w db)
unfolding admit
admitted_no_ticket p db (some reason) h w e some_w = cc
admitted_no_ticket p db none h none e some_w = absurd (some_w refl)
admitted_no_ticket p db none h (some after) e some_w =
    ap
      (λ x.
        exists_where (is_ticketed p.route_key) (committed x (burn_ticket p.route_key db)).invites)
      (sym e)
    ∙ ap (exists_where (is_ticketed p.route_key)) (invites-place p (burn_ticket p.route_key db))
    ∙ (unfold burn_ticket in burn_all p.route_key db.invites)

some_ne_none : {A : Type 0} (a : A) (w : Option A) → w ≡ some a → w ≢ none
some_ne_none a w e h = cc

slot_no_ticket :
    (p : Push) (db : Db) (slot : Option Invite)
    → find_where (invite_is p.route_key) db.invites ≡ slot
    → (enqueue_slot p db slot).0 ≡ EnqueueOutcome.accepted
    → Never (is_ticketed p.route_key) (committed (enqueue_slot p db slot).1 db)
slot_no_ticket p db none e h =
    unfold enqueue_slot in
    (ap (exists_where (is_ticketed p.route_key)) (invites-place p db)
      ∙ absent_no_ticket p.route_key db.invites e)
slot_no_ticket p db (some i) e h =
    let commits = (slot-Appends p db (some i)).1 in
    let (after, w) = subst (λ o. Commits o (enqueue_slot p db (some i)).1) h commits in
    unfold enqueue_slot in
    admitted_no_ticket p db (slot_refusal p i) h (admit p db (slot_refusal p i)).1 refl
      (some_ne_none after (enqueue_slot p db (some i)).1 w)

accepted_no_ticket :
    (f : Fault) (p : Push) (db : Db)
    → (enqueue f p db).0 ≡ ok EnqueueOutcome.accepted
    → Never (is_ticketed p.route_key) (enqueue f p db).1
unfolding enqueue
accepted_no_ticket healthy p db h =
    slot_no_ticket p db (find_where (invite_is p.route_key) db.invites) refl (cc)
accepted_no_ticket lock_poisoned p db h = cc
accepted_no_ticket (sql_error e) p db h = cc

refusal_without_ticket :
    (p : Push) (db : Db) (i : Invite)
    → i.ticket_hash ≡ none
    → (enqueue_slot p db (some i)).0 ≢ EnqueueOutcome.accepted
unfolding enqueue_slot slot_refusal admit
refusal_without_ticket p db i e h = ground arith

slot_refused :
    (p : Push) (db : Db) (slot : Option Invite)
    → find_where (invite_is p.route_key) db.invites ≡ slot
    → slot ≢ none
    → Never (is_ticketed p.route_key) db
    → (enqueue_slot p db slot).0 ≢ EnqueueOutcome.accepted
slot_refused p db none e there never = absurd (there refl)
slot_refused p db (some i) e there never =
    refusal_without_ticket p db i (found_no_ticket p.route_key db.invites i e never)

no_ticket_refused :
    (f : Fault) (p : Push) (db : Db)
    → find_where (invite_is p.route_key) db.invites ≢ none
    → Never (is_ticketed p.route_key) db
    → (enqueue f p db).0 ≢ ok EnqueueOutcome.accepted
unfolding enqueue
no_ticket_refused healthy p db there never h =
    slot_refused p db (find_where (invite_is p.route_key) db.invites) refl there never (cc)
no_ticket_refused lock_poisoned p db there never h = cc
no_ticket_refused (sql_error e) p db there never h = cc

-- A redemption admits one push: once a push to a slot's route is accepted, and whatever
-- transactions follow, none of them redeeming that slot, no other push to that route is accepted
-- for as long as the slot is in the store, whatever ticket it presents.
pub ticket_admits_once :
    (st : Store) (f : Fault) (p : Push) (db : Db) (cs : List (Fault × Call))
    → (enqueue f p db).0 ≡ ok EnqueueOutcome.accepted
    → All (λ x. DoesNotRedeem p.route_key x.1) cs
    → (f' : Fault) (p' : Push) → p'.route_key ≡ p.route_key
    → find_where (invite_is p.route_key) (run st cs (enqueue f p db).1).invites ≢ none
    → (enqueue f' p' (run st cs (enqueue f p db).1)).0 ≢ ok EnqueueOutcome.accepted
ticket_admits_once st f p db cs h quiet f' p' same there =
    let last = run st cs (enqueue f p db).1 in
    no_ticket_refused f' p' last
      (subst (λ k. find_where (invite_is k) last.invites ≢ none) (sym same) there)
      (subst (λ k. Never (is_ticketed k) last) (sym same)
        (run_no_ticket st p.route_key cs (enqueue f p db).1 quiet (accepted_no_ticket f p db h)))

-- A redemption opens the slot: in a valid store, after a redemption that recorded a ticket's hash,
-- a push to the slot's route before the slot's expiry, with a ticket that verifies against that
-- hash, is accepted if the caps leave room.
pub ticket_opens_slot :
    (p : Push) (now : ℕ) (ticket_hash : Text) (verify_cap : Text → Bool) (db : Db)
    (bundle sig : List ℕ) (verify : Text → Bool)
    → IsValid db
    → (invite_redeem healthy p.route_key now ticket_hash verify_cap db).0
      ≡ ok (InviteRedeemOutcome.redeemed bundle sig)
    → p.ticket ≡ some verify
    → verify ticket_hash ≡ true
    → ((i : Invite) → find_where (invite_is p.route_key) db.invites ≡ some i → p.now < i.expiry)
    → HasRoom p db
    → (enqueue healthy p (invite_redeem healthy p.route_key now ticket_hash verify_cap db).1).0
      ≡ ok EnqueueOutcome.accepted
unfolding invite_redeem enqueue
ticket_opens_slot p now th verify_cap db b s verify v h t good early room =
    let k = p.route_key in
    let (i, found, nc, nr, e) =
      redeemed_slot k now th verify_cap db (find_where (invite_is k) db.invites) b s (cc) in
    let a = Tidy-active i (All-find_where Tidy (invite_is k) db.invites i v.tidy found) nc nr in
    let after = consume_slot k now th db in
    let slot = consumed_slot k now th db i found a in
    rw
      (
        e,
        slot,
        ticketed_place p after (consume now th i) verify th refl (early i found) refl t good,
      )
      (ap ok ((place-accepts_iff p _).1 (room_kept p now th db room)))
