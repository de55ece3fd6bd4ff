-- ===== src/Store/LastingTests.antt =====
-- The theorems on lasting and on deleted messages, on the mailboxes and on the report of a sweep, at concrete tables and calls.
use qsl_server.Base.{
  ◌+◌, text_eq, ◌≡◌, refl, List, [], ◌∷◌, arith, length, inr, map, false, exists_where, select,
  ◌++◌,
}
use qsl_server.Base.Result.{ok}
use qsl_server.Store.Schema.{Db, fresh, PullOutcome, AckOutcome, lease, legacy}
use qsl_server.Store.Transaction.{Fault, healthy, lock_poisoned}
use qsl_server.Store.Sweep.{swept, sweep_stats}
use qsl_server.Store.Enqueue.{enqueue}
use qsl_server.Store.Ack.{ack, is_acked, listed}
use qsl_server.Store.Pull.{among, stored_msg, deliver, pull}
use qsl_server.Store.Delivery.Chosen.{seqs}
use qsl_server.Store.Calls.{Call, pushes, sweeps, pulls, acks, redeems, run}
use qsl_server.Store.Valid.Steps.{run-IsValid}
use qsl_server.Store.Queue.Push.{new_message}
use qsl_server.Store.Queue.Kept.{Stores}
use qsl_server.Store.Queue.Lasting.{accepted-Stores}
use qsl_server.Store.Queue.Receipt.{ack-pull}
use qsl_server.Store.Queue.Gone.{pulled_once, acked_gone}
use qsl_server.Store.Delivery.Prefix.{visible}
use qsl_server.Store.Queue.Drained.{join, repeatedly, deliveries-repeatedly}
use qsl_server.Store.Mailbox.Promises.{Honours}
use qsl_server.Store.Mailbox.Boxed.{boxes}
use qsl_server.Store.Mailbox.Simulates.{deliveries}
use qsl_server.Store.Mailbox.Histories.{run-Honours}
use qsl_server.Store.Report.{total, sweep_stats-swept}
use qsl_server.Store.Tests.{st, key_a, key_b, key_s, ticket, verify, push_to, calls, busy}

-- A leasing pull, an ack of another message, a pull of another route, a redemption and a sweep.
abbrev sparing : List (Fault × Call)
sparing =
    (healthy, pulls key_b 5 1000 8 lease)
    ∷ (healthy, acks key_b ((b'o' ∷ []) ∷ []) 9)
    ∷ (healthy, pulls key_a 5 1000 10 legacy)
    ∷ (healthy, redeems key_s 11 ticket verify)
    ∷ (healthy, sweeps 12)
    ∷ []

accepted-Stores_example :
    Stores
      (new_message (push_to key_b 7) busy)
      (run st sparing (enqueue healthy (push_to key_b 7) busy).1)
unfolding run enqueue text_eq listed
accepted-Stores_example =
    accepted-Stores st healthy (push_to key_b 7) busy sparing (run-IsValid st calls) refl
      (omega arith, ((omega arith, inr refl), ((omega arith, refl), (tt, (omega arith, tt)))))

-- At 103 the messages of 1 and of 2 are expired.
sweep_stats-swept_example :
    let stats = sweep_stats 100 103 busy in
    let after = swept 100 103 busy in
    (stats.expired_messages + length after.messages ≡ length busy.messages)
    × (total stats.expired_routes ≡ stats.expired_messages)
    × (length stats.removed_route_keys + length after.routes ≡ length busy.routes)
    × (stats.expired_invites + length after.invites ≡ length busy.invites)
sweep_stats-swept_example = sweep_stats-swept 100 103 busy (run-IsValid st calls)

ack-pull_example :
    let rows = deliver key_a 2 1000 7 (swept 100 7 busy) in
    let leased = (pull healthy st key_a 2 1000 7 lease busy).1 in
    (out : PullOutcome) × ((pull healthy st key_a 2 1000 7 lease busy).0 ≡ ok out)
    × (out.items ≡ map stored_msg rows)
    × (exists_where
          (λ m. among (seqs rows) m.seq)
          (ack healthy st key_a (map (λ i. i.msg_id) out.items) 9 leased).1.messages
        ≡ false)
ack-pull_example = ack-pull st key_a 2 1000 7 9 busy (run-IsValid st calls)

abbrev afterwards : List (Fault × Call)
afterwards = (healthy, pushes (push_to key_a 9)) ∷ (healthy, pulls key_a 1 1000 9 lease) ∷ []

pulled_once_example :
    let rows = deliver key_a 1 1000 7 (swept 100 7 busy) in
    let final = run st afterwards (pull healthy st key_a 1 1000 7 legacy busy).1 in
    (out : PullOutcome) × ((pull healthy st key_a 1 1000 7 legacy busy).0 ≡ ok out)
    × (out.items ≡ map stored_msg rows)
    × (exists_where (λ m. among (seqs rows) m.seq) (deliver key_a 5 1000 30 (swept 100 30 final))
        ≡ false)
pulled_once_example =
    pulled_once st key_a key_a 1 1000 7 5 1000 30 busy afterwards (run-IsValid st calls)

-- Both messages of the first route are under a lease.
abbrev both_leased : Db
both_leased = run st (calls ++ (healthy, pulls key_a 2 1000 7 lease) ∷ []) fresh

acked_gone_example :
    let gone = select (is_acked key_a ((b'm' ∷ []) ∷ [])) (swept 100 9 both_leased).messages in
    let final = run st afterwards (ack healthy st key_a ((b'm' ∷ []) ∷ []) 9 both_leased).1 in
    (out : AckOutcome) × ((ack healthy st key_a ((b'm' ∷ []) ∷ []) 9 both_leased).0 ≡ ok out)
    × (out.acked ≡ length gone)
    × (exists_where (λ m. among (seqs gone) m.seq) (deliver key_a 5 1000 30 (swept 100 30 final))
        ≡ false)
acked_gone_example =
    acked_gone st key_a key_a ((b'm' ∷ []) ∷ []) 9 5 1000 30 both_leased afterwards
      (run-IsValid st (calls ++ (healthy, pulls key_a 2 1000 7 lease) ∷ []))

-- Pushes, a faulted pull, pulls in both modes, an ack and a sweep that expires a message.
abbrev varied : List (Fault × Call)
varied =
    (healthy, pushes (push_to key_b 9))
    ∷ (lock_poisoned, pulls key_a 2 1000 9 legacy)
    ∷ (healthy, pulls key_a 2 4 9 lease)
    ∷ (healthy, acks key_a ((b'm' ∷ []) ∷ []) 10)
    ∷ (healthy, pulls key_b 5 1000 11 legacy)
    ∷ (healthy, sweeps 104)
    ∷ []

run-Honours_example :
    Honours st varied (boxes busy) (deliveries st varied busy) (boxes (run st varied busy))
run-Honours_example =
    run-Honours st varied busy
      (
        tt,
        (
          (omega arith, omega arith),
          ((omega arith, omega arith), (tt, ((omega arith, omega arith), (tt, tt)))),
        ),
      )
      (run-IsValid st calls)

deliveries-repeatedly_example :
    join (deliveries st (repeatedly 2 (pulls key_a 1 1 7 legacy)) busy)
    ≡ map stored_msg (visible key_a 7 (swept 100 7 busy))
unfolding run text_eq swept
deliveries-repeatedly_example =
    deliveries-repeatedly st key_a 1 1 7 2 busy (run-IsValid st calls) (omega arith) (omega arith)
      (omega arith)
