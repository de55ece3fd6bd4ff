-- ===== src/Store/Queue/Contract.antt =====
-- What the operations on a queue promise, over the queue that each route shows.
use qsl_server.Base.{
  ℕ, suc, ◌+◌, ◌≤◌, ◌<◌, Text, text_eq, ◌≡◌, ◌≢◌, refl, false, not, ◌&&◌, ◌⊎◌, inl, inr, List, [],
  ◌∷◌, ◌++◌, arith, length, take, drop, map, select, min, ltb, Bool-cases,
}
use qsl_server.Base.Result.{ok}
use qsl_server.Store.Schema.{
  Db, Message, Store, PullOutcome, AckOutcome, EnqueueOutcome, lease, legacy, message_on,
}
use qsl_server.Store.Transaction.{Fault, healthy}
use qsl_server.Store.Sweep.{swept}
use qsl_server.Store.Enqueue.{Push, enqueue}
use qsl_server.Store.Pull.{stored_msg, is_free, pull, deliver}
use qsl_server.Store.Ack.{ack, is_leased, listed}
use qsl_server.Store.Delivery.Prefix.{visible}
use qsl_server.Store.Delivery.Budget.{bytes, usize_max, deliver_budget}
use qsl_server.Store.Valid.Invariant.{IsValid}
use qsl_server.Store.Queue.View.{queue}
use qsl_server.Store.Queue.Push.{enqueue-appends, new_message}
use qsl_server.Store.Queue.Take.{pull-takes_prefix}
use qsl_server.Store.Queue.Lease.{pull-hides_prefix, unleased}
use qsl_server.Store.Queue.Acked.{ack-deletes_leased}

-- An accepted push appends its message to the queue of its route, under the next number, and
-- changes the queue of no other route `k`.
pub accepted-appended :
    (f : Fault) (p : Push) (db : Db) (k : Text)
    → (enqueue f p db).0 ≡ ok EnqueueOutcome.accepted
    → text_eq p.route_key k ≡ false
    → (queue p.route_key (enqueue f p db).1 ≡ queue p.route_key db ++ new_message p db ∷ [])
      × (queue k (enqueue f p db).1 ≡ queue k db)
      × ((enqueue f p db).1.next_seq ≡ suc db.next_seq)
accepted-appended f p db k h other = let (a, b, c) = enqueue-appends f p db h in (a, b k other, c)

-- In a valid store, a delete-on-deliver pull sweeps, and then returns a prefix of what is visible on
-- its route, in order. Afterwards exactly the rest of it is visible; a message of the route under a
-- lease, and every message of another route `j`, is still there.
pub pulled-removed :
    (st : Store) (k j : Text) (max max_bytes now : ℕ) (db : Db)
    → IsValid db
    → text_eq j k ≡ false
    → let after = swept st.retention_ttl_secs now db in
      let final = (pull healthy st k max max_bytes now legacy db).1 in
      (out : PullOutcome) × ((pull healthy st k max max_bytes now legacy db).0 ≡ ok out)
      × (out.items ≡ map stored_msg (take (length out.items) (visible k now after)))
      × (visible k now final ≡ drop (length out.items) (visible k now after))
      × (select (λ m. message_on k m && not (is_free now m.leased_until)) final.messages
          ≡ select (λ m. message_on k m && not (is_free now m.leased_until)) after.messages)
      × (queue j final ≡ queue j after)
pulled-removed st k j max mb now db v other =
    let (out, a, b, c, d, e) = pull-takes_prefix st k max mb now db v in
    (out, a, b, c, d, e j other)

-- In a valid store, a leasing pull sweeps, and then returns a prefix of what is visible on its route,
-- in order. It deletes no message: but for leases the messages are those of the swept store. At a time
-- `t` before the lease's deadline every route shows what it would show if the pull had deleted what it
-- returned; at a time `s` from the deadline on it shows, but for leases, what it would show without
-- the pull.
pub pulled-hidden :
    (st : Store) (k j : Text) (max max_bytes now t s : ℕ) (db : Db)
    → IsValid db
    → t < now + st.pull_lease_secs
    → now + st.pull_lease_secs ≤ s
    → let after = swept st.retention_ttl_secs now db in
      let leased = (pull healthy st k max max_bytes now lease db).1 in
      let removed = (pull healthy st k max max_bytes now legacy db).1 in
      (out : PullOutcome) × ((pull healthy st k max max_bytes now lease db).0 ≡ ok out)
      × (out.items ≡ map stored_msg (take (length out.items) (visible k now after)))
      × (map unleased leased.messages ≡ map unleased after.messages)
      × (visible j t leased ≡ visible j t removed)
      × (map unleased (visible j s leased) ≡ map unleased (visible j s after))
pulled-hidden st k j max mb now t s db v early late =
    let (out, a, b, c, d, e) = pull-hides_prefix st k max mb now db v in
    (out, a, b, c, d j t early, e j s late)

-- An ack sweeps, and then deletes from its route the messages that are under a lease, live or run
-- out, and whose identifier is listed. It reports how many they were. A copy that was never
-- delivered stays, and so does every message of another route `j`.
pub acked-deleted :
    (st : Store) (k j : Text) (ids : List Text) (now : ℕ) (db : Db)
    → text_eq j k ≡ false
    → let after = swept st.retention_ttl_secs now db in
      let final = (ack healthy st k ids now db).1 in
      (out : AckOutcome) × ((ack healthy st k ids now db).0 ≡ ok out)
      × (queue k final
          ≡ select
              (λ m. message_on k m && not (is_leased m.leased_until && listed ids m.msg_id))
              after.messages)
      × (out.acked + length final.messages ≡ length after.messages)
      × (queue j final ≡ queue j after)
acked-deleted st k j ids now db other =
    let (out, a, b, c, d) = ack-deletes_leased st k ids now db in (out, a, b, c, d j other)

some_or_none : (xs ys : List Message) → (xs ≢ [] → ys ≢ []) → min 1 (length xs) ≤ length ys
some_or_none [] ys h = omega arith
some_or_none (x ∷ xs) [] h = absurd (h (λ e. cc) refl)
some_or_none (x ∷ xs) (y ∷ ys) h = omega arith

fits_or_not : (n mb : ℕ) (xs ys : List Message) → (n ≤ mb → xs ≡ ys) → (mb < n) ⊎ (xs ≡ ys)
fits_or_not n mb xs ys h = elim (Bool-cases (ltb mb n)) [
  | inl over ↦ inl (ground arith)
  | inr fits ↦ inr (h (ground arith))
]

-- One pull that asks for at least one message, under a budget below `usize::MAX`, delivers at most
-- what it asks for; more than one message only if all together fit the budget; at least one if
-- any is visible; and all that it asks for unless together they exceed the budget.
pub delivered-budget :
    (k : Text) (max max_bytes now : ℕ) (db : Db)
    → 0 < max
    → max_bytes < usize_max
    → let rows = deliver k max max_bytes now db in
      (length rows ≤ max)
      × ((bytes rows ≤ max_bytes) ⊎ (length rows ≤ 1))
      × (min 1 (length (visible k now db)) ≤ length rows)
      × ((max_bytes < bytes (take max (visible k now db))) ⊎ (rows ≡ take max (visible k now db)))
delivered-budget k max mb now db pos small =
    let (a, b, c, d) = deliver_budget k max mb now db pos small in
    (
      a,
      b,
      some_or_none (visible k now db) (deliver k max mb now db) c,
      fits_or_not (bytes (take max (visible k now db))) mb (deliver k max mb now db)
          (take max (visible k now db)) d,
    )
