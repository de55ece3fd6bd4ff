-- ===== src/Store/Bounds/Caps.antt =====
-- The caps over a sequence of transactions.
use qsl_server.Base.{◌<◌, List, [], ◌∷◌, arith, All, find_where}
use qsl_server.Store.Schema.{Db, Store, fresh, invite_is}
use qsl_server.Store.Transaction.{Fault}
use qsl_server.Store.Calls.{
  Call, sweeps, statuses, pushes, pulls, acks, creates, redeems, revokes, step, run,
}
use qsl_server.Store.Valid.Invariant.{IsValid, fresh-IsValid}
use qsl_server.Store.Valid.Steps.{transact_ind, step-IsValid}
use qsl_server.Store.Bounds.Shrink.{
  swept-Shrinks, pull_tx-Shrinks, ack_tx-Shrinks, redeem_row-Shrinks, revoke_row-Shrinks,
}
use qsl_server.Store.Bounds.Within.{
  Caps, IsWithin, Uses, Shrinks-IsWithin, enqueue_slot-IsWithin, invite_create_tx-IsWithin,
}

pub step-IsWithin :
    (c : Caps) (st : Store) (f : Fault) (call : Call) (db : Db)
    → 0 < c.max_queue_depth
    → Uses c call
    → IsValid db
    → IsWithin c db
    → IsWithin c (step st f call db)
unfolding step
step-IsWithin c st f (sweeps now) db pos u v w =
    transact_ind (IsWithin c) f _ db w
      (Shrinks-IsWithin c db _ (swept-Shrinks st.retention_ttl_secs now db) w)
step-IsWithin c st f (statuses k now) db pos u v w =
    transact_ind (IsWithin c) f _ db w
      (Shrinks-IsWithin c db _ (swept-Shrinks st.retention_ttl_secs now db) w)
step-IsWithin c st f (pushes p) db pos u v w =
    transact_ind (IsWithin c) f _ db w
      (enqueue_slot-IsWithin c p db (find_where (invite_is p.route_key) db.invites) pos u v w)
step-IsWithin c st f (pulls k max max_bytes now mode) db pos u v w =
    transact_ind (IsWithin c) f _ db w
      (Shrinks-IsWithin c db _ (pull_tx-Shrinks st k max max_bytes now mode db) w)
step-IsWithin c st f (acks k ids now) db pos u v w =
    transact_ind (IsWithin c) f _ db w (Shrinks-IsWithin c db _ (ack_tx-Shrinks st k ids now db) w)
step-IsWithin c st f (creates n now max_slots) db pos u v w =
    transact_ind (IsWithin c) f _ db w (invite_create_tx-IsWithin c st n now max_slots db u w)
step-IsWithin c st f (redeems k now th verify) db pos u v w = transact_ind (IsWithin c) f _ db w (
    Shrinks-IsWithin c db _
      (redeem_row-Shrinks k now th verify db (find_where (invite_is k) db.invites)) w)
step-IsWithin c st f (revokes k verify) db pos u v w = transact_ind (IsWithin c) f _ db w (
    Shrinks-IsWithin c db _ (revoke_row-Shrinks k verify db (find_where (invite_is k) db.invites))
      w)

run_from-IsWithin :
    (c : Caps) (st : Store) (cs : List (Fault × Call)) (db : Db)
    → 0 < c.max_queue_depth
    → All (λ x. Uses c x.1) cs
    → IsValid db
    → IsWithin c db
    → IsWithin c (run st cs db)
unfolding run
run_from-IsWithin c st [] db pos us v w = w
run_from-IsWithin c st ((f, x) ∷ cs) db pos us v w =
    run_from-IsWithin c st cs (step st f x db) pos us.1 (step-IsValid st f x db v)
      (step-IsWithin c st f x db pos us.0 v w)

pub fresh-IsWithin : (c : Caps) → IsWithin c fresh
fresh-IsWithin c = record { depth = λ k. omega arith; routes = omega arith; slots = omega arith }

-- From the tables as they are created, after any sequence of transactions that pass the same caps,
-- the depth cap being positive: no route has more messages than the depth cap, and the routes and
-- the invite slots are no more than their caps.
pub run-IsWithin :
    (c : Caps) (st : Store) (cs : List (Fault × Call))
    → 0 < c.max_queue_depth
    → All (λ x. Uses c x.1) cs
    → IsWithin c (run st cs fresh)
run-IsWithin c st cs pos us =
    run_from-IsWithin c st cs fresh pos us fresh-IsValid (fresh-IsWithin c)
