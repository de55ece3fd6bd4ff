-- ===== src/Relay/Sweeper.antt =====
-- src/main.rs: the task that sweeps at each tick of a timer. `ticker` is `tokio::time::interval`: the
-- time of each tick, by its period and its number.
use qsl_server.Base.{
  ℕ, suc, ◌+◌, ◌-◌, ◌*◌, ◌/◌, ◌≤◌, ◌<◌, ◌≡◌, refl, ap, ◌∙◌, Bool, true, false, not, ◌&&◌, ◌||◌,
  List, [], ◌∷◌, arith, ◌==◌, exists_where, exists_where-snoc, delete_where,
}
use qsl_server.Base.Result.{ok}
use qsl_server.Store.Schema.{Db, Store, Message, EnqueueOutcome}
use qsl_server.Store.Transaction.{Fault, healthy}
use qsl_server.Store.Sweep.{is_expired}
use qsl_server.Store.Enqueue.{Push, enqueue}
use qsl_server.Store.Pull.{among}
use qsl_server.Store.Calls.{
  Call, sweeps, statuses, pushes, pulls, acks, creates, redeems, revokes, step, run,
}
use qsl_server.Store.Valid.Invariant.{IsValid}
use qsl_server.Store.Valid.Order.{Ordered}
use qsl_server.Store.Queue.View.{messages-swept}
use qsl_server.Store.Queue.Push.{new_message, enqueue-Appends}
use qsl_server.Store.Queue.Absent.{Absent, Foreign, step-Absent}
use qsl_server.Store.Queue.Counter.{step-Counts, next_seq-swept}
use qsl_server.Store.Queue.Gone.{Spent, run-Spent, below_counter}

-- RETENTION_SWEEP_INTERVAL_SECS
abbrev pub retention_sweep_interval_secs : ℕ
retention_sweep_interval_secs = 60

-- The first tick is skipped; each later one sweeps.
unfoldable pub sweep_time : (ℕ → ℕ → ℕ) → ℕ → ℕ
sweep_time ticker i = ticker retention_sweep_interval_secs (suc i)

-- A row with the number that has another time.
abbrev other_time : ℕ → ℕ → Message → Bool
other_time s t m = (m.seq == s) && not (m.enqueued_at == t)

-- The number is used up, and a row with it has the time.
abbrev Dated : ℕ → ℕ → Db → Type 0
Dated s t db = Absent (other_time s t) db × (s < db.next_seq)

foreign : (s t : ℕ) (c : Call) (db : Db) → s < db.next_seq → Foreign (other_time s t) c db
foreign s t (sweeps now) db h = tt
foreign s t (statuses k now) db h = tt
foreign s t (pushes q) db h = ground arith
foreign s t (pulls k max max_bytes now mode) db h = tt
foreign s t (acks k ids now) db h = tt
foreign s t (creates n now max_slots) db h = tt
foreign s t (redeems k now th verify) db h = tt
foreign s t (revokes k verify) db h = tt

run-Dated :
    (st : Store) (s t : ℕ) (cs : List (Fault × Call)) (db : Db)
    → Dated s t db
    → Dated s t (run st cs db)
unfolding run
run-Dated st s t [] db h = h
run-Dated st s t ((f, c) ∷ cs) db h = run-Dated st s t cs (step st f c db) (
  step-Absent (other_time s t) (λ deadline m absent. absent) st f c db (foreign s t c db h.1) h.0,
  (let grown = step-Counts st f c db in omega arith),
)

below_fresh :
    (t lo : ℕ) (ms : List Message) (hi : ℕ)
    → Ordered lo ms hi
    → exists_where (other_time hi t) ms ≡ false
below_fresh t lo [] hi o = refl
below_fresh t lo (m ∷ ms) hi o =
    let above = below_counter (λ x. true) (suc m.seq) ms hi o.1 in
    ground (arith, above.1, below_fresh t (suc m.seq) ms hi o.1)

dated_expired :
    (ttl s t now : ℕ) (ms : List Message)
    → t + ttl ≤ now
    → exists_where (other_time s t) ms ≡ false
    → exists_where (λ m. (s == m.seq) || false) (delete_where (is_expired ttl now) ms) ≡ false
dated_expired ttl s t now [] late h = refl
dated_expired ttl s t now (m ∷ ms) late h = ground (arith, dated_expired ttl s t now ms late)

pushed-Dated :
    (f : Fault) (p : Push) (db : Db)
    → IsValid db
    → (enqueue f p db).0 ≡ ok EnqueueOutcome.accepted
    → Dated db.next_seq p.now (enqueue f p db).1
pushed-Dated f p db v h =
    let (row, counted) = enqueue-Appends f p db h in
    let old = below_fresh p.now 1 db.messages db.next_seq v.ordered in
    (
      ap (exists_where (other_time db.next_seq p.now)) row
          ∙ exists_where-snoc (other_time db.next_seq p.now) db.messages (new_message p db)
          ∙ ground (arith, old),
      omega arith,
    )

expired-Spent :
    (st : Store) (s t now : ℕ) (db : Db)
    → t + st.retention_ttl_secs ≤ now
    → Dated s t db
    → Spent (s ∷ []) (step st healthy (sweeps now) db)
unfolding step
expired-Spent st s t now db late h = (
  ap (exists_where (λ m. (s == m.seq) || false)) (messages-swept st.retention_ttl_secs now db)
      ∙ dated_expired st.retention_ttl_secs s t now db.messages late h.0,
  (let same = next_seq-swept st.retention_ttl_secs now db in (omega arith, tt)),
)

one_number :
    (s : ℕ) (ms : List Message)
    → exists_where (λ m. among (s ∷ []) m.seq) ms ≡ false
    → exists_where (λ m. m.seq == s) ms ≡ false
one_number s [] h = refl
one_number s (m ∷ ms) h = ground (arith, one_number s ms)

-- A message is kept no longer than its lifetime and one period of the timer. The timer, as documented,
-- ticks at its start and then once in a period. In a valid store, for an accepted push whose message
-- expires no earlier than the timer starts, there is a tick that comes at the expiry or at most a period
-- behind it, such that if the sweep of that tick meets no fault, then no row with the message's number is
-- stored after it, whatever transactions with whatever faults come before it and after it.
pub message_outlived :
    (st : Store) (f : Fault) (p : Push) (db : Db) (ticker : ℕ → ℕ → ℕ) (start : ℕ)
    (before after : List (Fault × Call))
    → IsValid db
    → (enqueue f p db).0 ≡ ok EnqueueOutcome.accepted
    → ((n : ℕ) → ticker retention_sweep_interval_secs n ≡ start + n * retention_sweep_interval_secs)
    → start ≤ p.now + st.retention_ttl_secs
    → (i : ℕ) × (p.now + st.retention_ttl_secs ≤ sweep_time ticker i)
      × (sweep_time ticker i ≤ p.now + st.retention_ttl_secs + retention_sweep_interval_secs)
      × (exists_where
            (λ m. m.seq == db.next_seq)
            (run st after (
              step st healthy
                (sweeps (sweep_time ticker i))
                (run st before (enqueue f p db).1))).messages
          ≡ false)
unfolding sweep_time
message_outlived st f p db ticker start before after v h ticks early =
    let e = p.now + st.retention_ttl_secs in
    let i = (e - start) / 60 in
    let now = ticker 60 (suc i) in
    let at : now ≡ start + suc i * 60 = ticks (suc i) in
    let late : e ≤ now = omega arith in
    let dated =
      run-Dated st db.next_seq p.now before (enqueue f p db).1 (pushed-Dated f p db v h) in
    let spent =
      expired-Spent st db.next_seq p.now now (run st before (enqueue f p db).1) late dated in
    let gone =
      run-Spent st (db.next_seq ∷ []) after
        (step st healthy (sweeps now) (run st before (enqueue f p db).1)) spent in
    (i, late, omega arith, one_number db.next_seq _ gone.0)
