-- ===== src/Store/Tests.antt =====
-- The theorems on the store at concrete tables and calls.
use qsl_server.Base.{
  ℕ, ◌+◌, ◌<◌, Text, text_eq, ◌≡◌, ◌≢◌, refl, Bool, true, false, not, ◌&&◌, ◌↔◌, Option, some, none,
  List, [], ◌∷◌, arith, length, take, drop, map, select, ltb,
}
use qsl_server.Base.Result.{ok}
use qsl_server.Store.Schema.{
  Db, Store, Invite, PullOutcome, AckOutcome, EnqueueOutcome, InviteRedeemOutcome, legacy, lease,
  message_on, fresh,
}
use qsl_server.Store.Transaction.{Fault, healthy, lock_poisoned}
use qsl_server.Store.Sweep.{swept}
use qsl_server.Store.Enqueue.{Push, enqueue}
use qsl_server.Store.Pull.{stored_msg, is_free, pull}
use qsl_server.Store.Ack.{ack, is_leased, listed}
use qsl_server.Store.Invites.{NewInvite, invite_create, invite_redeem, invite_revoke}
use qsl_server.Store.Calls.{Call, pushes, pulls, creates, run}
use qsl_server.Store.Valid.Invariant.{IsValid}
use qsl_server.Store.Valid.Steps.{run-IsValid}
use qsl_server.Store.Bounds.Within.{Caps, IsWithin}
use qsl_server.Store.Bounds.Caps.{run-IsWithin}
use qsl_server.Store.Delivery.Prefix.{visible}
use qsl_server.Store.Queue.View.{queue}
use qsl_server.Store.Queue.Push.{enqueue-refused, enqueue-accepts_iff, HasRoom}
use qsl_server.Store.Queue.Lease.{unleased}
use qsl_server.Store.Queue.Contract.{pulled-removed, pulled-hidden, acked-deleted}
use qsl_server.Store.Slots.Once.{redeem_at_most_once, revoked_not_redeemed}
use qsl_server.Store.Slots.Ticket.{ticket_admits_once}

abbrev pub st : Store
st = record { retention_ttl_secs = 100; pull_lease_secs = 10 }

abbrev pub key_a : Text
key_a = b'a' ∷ []

abbrev pub key_b : Text
key_b = b'b' ∷ []

abbrev pub key_s : Text
key_s = b's' ∷ []

abbrev pub ticket : Text
ticket = b't' ∷ []

abbrev pub verify : Text → Bool
verify stored = text_eq stored ticket

abbrev pub push_to : Text → ℕ → Push
push_to k now = record {
  route_key = k;
  log_id = b'l' ∷ [];
  msg_id = b'm' ∷ [];
  body = 1 ∷ 2 ∷ 3 ∷ [];
  now = now;
  max_queue_depth = 2;
  max_route_count = 2;
  ticket = some verify;
}

abbrev pub slot : NewInvite
slot = record {
  slot_key = key_s;
  log_id = b'l' ∷ [];
  cap_hash = ticket;
  revoke_hash = ticket;
  bundle = 7 ∷ [];
  invite_sig = 8 ∷ [];
  expiry = 50;
}

abbrev pub calls : List (Fault × Call)
calls =
    (healthy, pushes (push_to key_a 1))
    ∷ (healthy, pushes (push_to key_b 2))
    ∷ (lock_poisoned, pushes (push_to key_a 3))
    ∷ (healthy, pushes (push_to key_a 4))
    ∷ (healthy, creates slot 5 4)
    ∷ []

abbrev room_calls : List (Fault × Call)
room_calls = (healthy, pushes (push_to key_a 1)) ∷ (healthy, creates slot 5 4) ∷ []

-- Two messages on one route, one on another, and an active slot.
abbrev pub busy : Db
busy = run st calls fresh

abbrev redeemed : Db
redeemed = (invite_redeem healthy key_s 6 ticket verify busy).1

abbrev caps : Caps
caps = record { max_queue_depth = 2; max_route_count = 2; max_slots = 4 }

overloaded_not_accepted : (n : ℕ) → ok (EnqueueOutcome.overloaded n) ≢ ok EnqueueOutcome.accepted
overloaded_not_accepted n e = cc

abbrev found : Option Invite → Bool
found none = false
found (some i) = true

found_not_none : (o : Option Invite) → found o ≡ true → o ≢ none
found_not_none none h e = cc
found_not_none (some i) h e = cc

abbrev pub lasts : ℕ → Option Invite → Bool
lasts t none = true
lasts t (some i) = ltb t i.expiry

pub later_expiry :
    (o : Option Invite) (t : ℕ) → lasts t o ≡ true → (i : Invite) → o ≡ some i → t < i.expiry
later_expiry none t h i e = cc
later_expiry (some j) t h i e = ground arith

run-IsValid_example : IsValid busy
run-IsValid_example = run-IsValid st calls

run-IsWithin_example : IsWithin caps busy
run-IsWithin_example =
    run-IsWithin caps st calls (omega arith)
      ((refl, refl), ((refl, refl), ((refl, refl), ((refl, refl), (refl, tt)))))

enqueue-refused_example : (enqueue healthy (push_to key_a 7) busy).1 ≡ busy
unfolding run enqueue text_eq
enqueue-refused_example = enqueue-refused healthy (push_to key_a 7) busy (overloaded_not_accepted 2)

enqueue-accepts_iff_example :
    ((enqueue healthy (push_to key_b 7) busy).0 ≡ ok EnqueueOutcome.accepted)
    ↔ HasRoom (push_to key_b 7) busy
unfolding run invite_create text_eq
enqueue-accepts_iff_example = enqueue-accepts_iff (push_to key_b 7) busy refl

pulled-removed_example :
    let after = swept 100 7 busy in
    let final = (pull healthy st key_a 1 1000 7 legacy busy).1 in
    (out : PullOutcome) × ((pull healthy st key_a 1 1000 7 legacy busy).0 ≡ ok out)
    × (out.items ≡ map stored_msg (take (length out.items) (visible key_a 7 after)))
    × (visible key_a 7 final ≡ drop (length out.items) (visible key_a 7 after))
    × (select (λ m. message_on key_a m && not (is_free 7 m.leased_until)) final.messages
        ≡ select (λ m. message_on key_a m && not (is_free 7 m.leased_until)) after.messages)
    × (queue key_b final ≡ queue key_b after)
unfolding text_eq
pulled-removed_example = pulled-removed st key_a key_b 1 1000 7 busy (run-IsValid st calls) refl

pulled-hidden_example :
    let after = swept 100 7 busy in
    let leased = (pull healthy st key_a 1 1000 7 lease busy).1 in
    let removed = (pull healthy st key_a 1 1000 7 legacy busy).1 in
    (out : PullOutcome) × ((pull healthy st key_a 1 1000 7 lease busy).0 ≡ ok out)
    × (out.items ≡ map stored_msg (take (length out.items) (visible key_a 7 after)))
    × (map unleased leased.messages ≡ map unleased after.messages)
    × (visible key_a 16 leased ≡ visible key_a 16 removed)
    × (map unleased (visible key_a 17 leased) ≡ map unleased (visible key_a 17 after))
pulled-hidden_example =
    pulled-hidden st key_a key_a 1 1000 7 16 17 busy (run-IsValid st calls) (omega arith)
      (omega arith)

acked-deleted_example :
    let before = (pull healthy st key_a 1 1000 7 lease busy).1 in
    let after = swept 100 8 before in
    let final = (ack healthy st key_a ((b'm' ∷ []) ∷ []) 8 before).1 in
    (out : AckOutcome) × ((ack healthy st key_a ((b'm' ∷ []) ∷ []) 8 before).0 ≡ ok out)
    × (queue key_a final
        ≡ select
            (λ m.
              message_on key_a m
              && not (is_leased m.leased_until && listed ((b'm' ∷ []) ∷ []) m.msg_id))
            after.messages)
    × (out.acked + length final.messages ≡ length after.messages)
    × (queue key_b final ≡ queue key_b after)
unfolding text_eq
acked-deleted_example =
    acked-deleted st key_a key_b ((b'm' ∷ []) ∷ []) 8 (pull healthy st key_a 1 1000 7 lease busy).1
      refl

redeem_at_most_once_example :
    (invite_redeem healthy key_s 8 ticket verify
      (run st ((healthy, pulls key_a 1 9 7 legacy) ∷ []) redeemed)).0
    ≢ ok (InviteRedeemOutcome.redeemed (7 ∷ []) (8 ∷ []))
unfolding run invite_redeem text_eq
redeem_at_most_once_example =
    redeem_at_most_once st healthy key_s 6 ticket verify busy (7 ∷ []) (8 ∷ [])
      ((healthy, pulls key_a 1 9 7 legacy) ∷ []) refl (tt, tt) healthy 8 ticket verify (7 ∷ [])
      (8 ∷ [])

revoked_not_redeemed_example :
    (invite_redeem healthy key_s 8 ticket verify (
      run st
        ((healthy, pulls key_a 1 9 7 legacy) ∷ [])
        (invite_revoke healthy key_s verify busy).1)).0
    ≢ ok (InviteRedeemOutcome.redeemed (7 ∷ []) (8 ∷ []))
unfolding run invite_revoke text_eq
revoked_not_redeemed_example =
    revoked_not_redeemed st healthy key_s verify busy ((healthy, pulls key_a 1 9 7 legacy) ∷ [])
      refl (tt, tt) healthy 8 ticket verify (7 ∷ []) (8 ∷ [])

ticket_admits_once_example :
    let opened = (invite_redeem healthy key_s 6 ticket verify (run st room_calls fresh)).1 in
    let pushed = (enqueue healthy (push_to key_s 7) opened).1 in
    (enqueue healthy (push_to key_s 8) (run st ((healthy, pulls key_a 1 9 7 legacy) ∷ []) pushed)).0
    ≢ ok EnqueueOutcome.accepted
unfolding run invite_redeem enqueue text_eq
ticket_admits_once_example =
    ticket_admits_once st healthy (push_to key_s 7)
      (invite_redeem healthy key_s 6 ticket verify (run st room_calls fresh)).1
      ((healthy, pulls key_a 1 9 7 legacy) ∷ []) refl (tt, tt) healthy (push_to key_s 8) refl
      (found_not_none _ refl)
