-- ===== src/Store/Mailbox/Histories.antt =====
-- The promises over a run of transactions with any faults.
use qsl_server.Base.{◌≡◌, refl, ap, Bool, true, false, List, [], ◌∷◌, All}
use qsl_server.Store.Schema.{Db, Store}
use qsl_server.Store.Transaction.{Fault, Tx, healthy, lock_poisoned, sql_error, transact}
use qsl_server.Store.Calls.{
  Call, sweeps, statuses, pushes, pulls, acks, creates, redeems, revokes, step, run,
}
use qsl_server.Store.Valid.Invariant.{IsValid}
use qsl_server.Store.Valid.Steps.{step-IsValid}
use qsl_server.Store.Mailbox.Promises.{Promises, Asks, Honours}
use qsl_server.Store.Mailbox.Boxed.{boxes}
use qsl_server.Store.Mailbox.Simulates.{delivered, deliveries, healthy-Promises}

abbrev is_healthy : Fault → Bool
is_healthy healthy = true
is_healthy lock_poisoned = false
is_healthy (sql_error e) = false

transact_faulted :
    {A : Type 0} (f : Fault) (body : Tx A) (db : Db)
    → is_healthy f ≡ false
    → (transact f body db).1 ≡ db
unfolding transact
transact_faulted healthy body db h = cc
transact_faulted lock_poisoned body db h = refl
transact_faulted (sql_error e) body db h = refl

step_faulted :
    (st : Store) (f : Fault) (c : Call) (db : Db) → is_healthy f ≡ false → step st f c db ≡ db
unfolding step
step_faulted st f (sweeps now) db h = transact_faulted f _ db h
step_faulted st f (statuses k now) db h = transact_faulted f _ db h
step_faulted st f (pushes p) db h = transact_faulted f _ db h
step_faulted st f (pulls k max max_bytes now mode) db h = transact_faulted f _ db h
step_faulted st f (acks k ids now) db h = transact_faulted f _ db h
step_faulted st f (creates n now max_slots) db h = transact_faulted f _ db h
step_faulted st f (redeems k now th verify) db h = transact_faulted f _ db h
step_faulted st f (revokes k verify) db h = transact_faulted f _ db h

delivered_faulted :
    (st : Store) (f : Fault) (c : Call) (db : Db) → is_healthy f ≡ false → delivered st f c db ≡ []
unfolding delivered transact
delivered_faulted st healthy c db h = cc
delivered_faulted st f (pulls k max max_bytes now mode) db h = go f h
  where
    go :
        (f : Fault) → is_healthy f ≡ false → delivered st f (pulls k max max_bytes now mode) db ≡ []
    go healthy h = cc
    go lock_poisoned h = refl
    go (sql_error e) h = refl
delivered_faulted st f (sweeps now) db h = refl
delivered_faulted st f (statuses k now) db h = refl
delivered_faulted st f (pushes p) db h = refl
delivered_faulted st f (acks k ids now) db h = refl
delivered_faulted st f (creates n now max_slots) db h = refl
delivered_faulted st f (redeems k now th verify) db h = refl
delivered_faulted st f (revokes k verify) db h = refl

step-Promises :
    (st : Store) (f : Fault) (c : Call) (db : Db)
    → Asks c
    → IsValid db
    → Promises st f c (boxes db) (delivered st f c db) (boxes (step st f c db))
step-Promises st healthy c db asks v = healthy-Promises st c db asks v
step-Promises st lock_poisoned c db asks v = (
  delivered_faulted st lock_poisoned c db refl,
  λ k. ap (λ (d : Db). boxes d k) (step_faulted st lock_poisoned c db refl),
)
step-Promises st (sql_error e) c db asks v = (
  delivered_faulted st (sql_error e) c db refl,
  λ k. ap (λ (d : Db). boxes d k) (step_faulted st (sql_error e) c db refl),
)

-- The store refines its mailboxes. In a valid store, over every run of transactions with any faults,
-- whose pulls ask for at least one message under a byte budget below `usize::MAX`, each transaction in
-- turn keeps its promise: a faulted one changes no mailbox and returns nothing; a sweep and a status
-- drop the expired letters of every mailbox; a push puts its letter at the end of its mailbox or changes
-- nothing; a pull drops what is expired, returns a granted number of the first letters that are shown,
-- in order, and takes exactly these out of its mailbox, or hides exactly these until the deadline; an
-- ack drops what is expired, and of its mailbox the listed letters that were lent; publishing an invite
-- drops what is expired or changes nothing; a redemption and a revocation change no mailbox.
pub run-Honours :
    (st : Store) (cs : List (Fault × Call)) (db : Db)
    → All (λ x. Asks x.1) cs
    → IsValid db
    → Honours st cs (boxes db) (deliveries st cs db) (boxes (run st cs db))
unfolding run deliveries
run-Honours st [] db asks v = λ k. refl
run-Honours st ((f, c) ∷ cs) db asks v = (
  boxes (step st f c db),
  step-Promises st f c db asks.0 v,
  run-Honours st cs (step st f c db) asks.1 (step-IsValid st f c db v),
)
