-- ===== src/Store/Queue/Gone.antt =====
-- A delivered message that is deleted is gone: no later pull delivers it.
use qsl_server.Base.{
  ℕ, zero, suc, ◌≤◌, ◌<◌, Text, ◌≡◌, refl, ap, ◌∙◌, sym, subst, not, Bool, false, List, [], ◌∷◌,
  arith, All, All-map, map, take, length, exists_where, exists_where-select-false, select,
  delete_where,
}
use qsl_server.Base.Result.{ok}
use qsl_server.Store.Schema.{Db, Store, Message, PullOutcome, AckOutcome, legacy}
use qsl_server.Store.Transaction.{Fault, healthy}
use qsl_server.Store.Sweep.{swept}
use qsl_server.Store.Pull.{pull, deliver, among, stored_msg, is_visible, remove_delivered}
use qsl_server.Store.Ack.{ack, is_acked}
use qsl_server.Store.Calls.{
  Call, sweeps, statuses, pushes, pulls, acks, creates, redeems, revokes, step, run,
}
use qsl_server.Store.Valid.Invariant.{IsValid}
use qsl_server.Store.Valid.Order.{Ordered}
use qsl_server.Store.Valid.Sweeping.{swept-IsValid}
use qsl_server.Store.Delivery.Chosen.{seqs}
use qsl_server.Store.Delivery.Prefix.{visible, deliver-IsPrefix}
use qsl_server.Store.Queue.Take.{pull_items, messages-hand_out_legacy}
use qsl_server.Store.Queue.Acked.{messages-ack, acked_count}
use qsl_server.Store.Queue.Absent.{Absent, Foreign, swept-Absent, step-Absent}
use qsl_server.Store.Queue.Counter.{step-Counts, next_seq-swept, next_seq-hand_out, next_seq-ack_tx}

abbrev pub numbered : List ℕ → Message → Bool
numbered ss m = among ss m.seq

-- The numbers are used up, and no stored message has one of them.
abbrev pub Spent : List ℕ → Db → Type 0
Spent ss db = Absent (numbered ss) db × All (λ s. s < db.next_seq) ss

among_used : (ss : List ℕ) (n : ℕ) → All (λ s. s < n) ss → among ss n ≡ false
among_used [] n h = refl
among_used (s ∷ ss) n h = ground (arith, among_used ss n h.1)

foreign : (ss : List ℕ) (c : Call) (db : Db) → Spent ss db → Foreign (numbered ss) c db
foreign ss (sweeps now) db h = tt
foreign ss (statuses k now) db h = tt
foreign ss (pushes q) db h = among_used ss db.next_seq h.1
foreign ss (pulls k max max_bytes now mode) db h = tt
foreign ss (acks k ids now) db h = tt
foreign ss (creates n now max_slots) db h = tt
foreign ss (redeems k now th verify) db h = tt
foreign ss (revokes k verify) db h = tt

pub run-Spent :
    (st : Store) (ss : List ℕ) (cs : List (Fault × Call)) (db : Db)
    → Spent ss db
    → Spent ss (run st cs db)
unfolding run
run-Spent st ss [] db h = h
run-Spent st ss ((f, c) ∷ cs) db h = run-Spent st ss cs (step st f c db) (
  step-Absent (numbered ss) (λ deadline m absent. absent) st f c db (foreign ss c db h) h.0,
  All-map (λ s below. let grown = step-Counts st f c db in omega arith) ss h.1,
)

exists_where-take :
    (p : Message → Bool) (n : ℕ) (ms : List Message)
    → exists_where p ms ≡ false
    → exists_where p (take n ms) ≡ false
exists_where-take p zero ms h = refl
exists_where-take p (suc n) [] h = refl
exists_where-take p (suc n) (m ∷ ms) h = ground (arith, exists_where-take p n ms)

-- What is not stored is not delivered.
not_delivered :
    (p : Message → Bool) (st : Store) (k : Text) (max max_bytes now : ℕ) (db : Db)
    → Absent p db
    → exists_where p (deliver k max max_bytes now (swept st.retention_ttl_secs now db)) ≡ false
not_delivered p st k max mb now db h =
    let after = swept st.retention_ttl_secs now db in
    ap (exists_where p) (deliver-IsPrefix k max mb now after)
    ∙ exists_where-take p (length (deliver k max mb now after)) (visible k now after) (
        exists_where-select-false p (is_visible k now) after.messages
          (swept-Absent p st.retention_ttl_secs now db h))

-- The numbers of any of the messages are below the counter.
pub below_counter :
    (p : Message → Bool) (lo : ℕ) (ms : List Message) (hi : ℕ)
    → Ordered lo ms hi
    → All (λ s. s < hi) (seqs (select p ms)) × (lo ≤ hi)
below_counter p lo [] hi o = (tt, o)
below_counter p lo (m ∷ ms) hi o = ground (arith, below_counter p (suc m.seq) ms hi o.1)

All-take :
    (n hi : ℕ) (ms : List Message)
    → All (λ s. s < hi) (seqs ms)
    → All (λ s. s < hi) (seqs (take n ms))
All-take zero hi ms h = tt
All-take (suc n) hi [] h = tt
All-take (suc n) hi (m ∷ ms) h = (h.0, All-take n hi ms h.1)

numbered_deleted :
    (ss : List ℕ) (ms : List Message)
    → exists_where (numbered ss) (delete_where (numbered ss) ms) ≡ false
numbered_deleted ss [] = refl
numbered_deleted ss (m ∷ ms) = ground (arith, numbered_deleted ss ms)

pulled-Spent :
    (st : Store) (k : Text) (max max_bytes now : ℕ) (db : Db)
    → IsValid db
    → let rows = deliver k max max_bytes now (swept st.retention_ttl_secs now db) in
      Spent (seqs rows) (pull healthy st k max max_bytes now legacy db).1
unfolding pull
pulled-Spent st k max mb now db v =
    let after = swept st.retention_ttl_secs now db in
    let rows = deliver k max mb now after in
    let o = (swept-IsValid st.retention_ttl_secs now db v).ordered in
    let below : All (λ s. s < after.next_seq) (seqs rows) =
      subst (λ ms. All (λ s. s < after.next_seq) (seqs ms))
        (sym (deliver-IsPrefix k max mb now after))
        (All-take (length rows) after.next_seq (visible k now after)
          (below_counter (is_visible k now) 1 after.messages after.next_seq o).0) in
    (
      ap (exists_where (numbered (seqs rows))) (messages-hand_out_legacy st k now (seqs rows) after)
          ∙ (unfold remove_delivered in numbered_deleted (seqs rows) after.messages),
      subst (λ n. All (λ s. s < n) (seqs rows))
          (sym (next_seq-hand_out st k now legacy (seqs rows) after)) below,
    )

-- A delete-on-deliver pull delivers at most once. In a valid store, whatever transactions with
-- whatever faults come after it, no later pull, of any route, at any time and in either mode,
-- delivers a row that it returned.
pub pulled_once :
    (st : Store) (k j : Text) (max max_bytes now max' max_bytes' later : ℕ) (db : Db)
    (cs : List (Fault × Call))
    → IsValid db
    → let rows = deliver k max max_bytes now (swept st.retention_ttl_secs now db) in
      let final = run st cs (pull healthy st k max max_bytes now legacy db).1 in
      (out : PullOutcome) × ((pull healthy st k max max_bytes now legacy db).0 ≡ ok out)
      × (out.items ≡ map stored_msg rows)
      × (exists_where
            (λ m. among (seqs rows) m.seq)
            (deliver j max' max_bytes' later (swept st.retention_ttl_secs later final))
          ≡ false)
pulled_once st k j max mb now max' mb' later db cs v =
    let rows = deliver k max mb now (swept st.retention_ttl_secs now db) in
    let (out, returned, items) = pull_items st k max mb now legacy db in
    let spent =
      run-Spent st (seqs rows) cs (pull healthy st k max mb now legacy db).1
        (pulled-Spent st k max mb now db v) in
    (
      out,
      returned,
      items,
      not_delivered (numbered (seqs rows)) st j max' mb' later
          (run st cs (pull healthy st k max mb now legacy db).1) spent.0,
    )

-- The number of a row stands once.
above_absent :
    (q : Message → Bool) (s : ℕ) (ss : List ℕ) (lo : ℕ) (ms : List Message) (hi : ℕ)
    → Ordered lo ms hi
    → s < lo
    → exists_where (numbered ss) (select q ms) ≡ false
    → exists_where (numbered (s ∷ ss)) (select q ms) ≡ false
above_absent q s ss lo [] hi o below h = refl
above_absent q s ss lo (m ∷ ms) hi o below h =
    ground (arith, above_absent q s ss (suc m.seq) ms hi o.1)

below_absent :
    (q : Message → Bool) (s lo : ℕ) (ms : List Message) (hi : ℕ)
    → Ordered lo ms hi
    → s < lo
    → among (seqs (select q ms)) s ≡ false
below_absent q s lo [] hi o below = refl
below_absent q s lo (m ∷ ms) hi o below = ground (arith, below_absent q s (suc m.seq) ms hi o.1)

numbered_selected :
    (q : Message → Bool) (lo : ℕ) (ms : List Message) (hi : ℕ)
    → Ordered lo ms hi
    → exists_where (numbered (seqs (select q ms))) (delete_where q ms) ≡ false
numbered_selected q lo [] hi o = refl
numbered_selected q lo (m ∷ ms) hi o = ground (
  arith,
  numbered_selected q (suc m.seq) ms hi o.1,
  below_absent q m.seq (suc m.seq) ms hi o.1,
  above_absent (λ x. not (q x)) m.seq (seqs (select q ms)) (suc m.seq) ms hi o.1,
)

acked-Spent :
    (st : Store) (k : Text) (ids : List Text) (now : ℕ) (db : Db)
    → IsValid db
    → let after = swept st.retention_ttl_secs now db in
      Spent (seqs (select (is_acked k ids) after.messages)) (ack healthy st k ids now db).1
acked-Spent st k ids now db v =
    let after = swept st.retention_ttl_secs now db in
    let gone = select (is_acked k ids) after.messages in
    let o = (swept-IsValid st.retention_ttl_secs now db v).ordered in
    (
      ap (exists_where (numbered (seqs gone))) (messages-ack st k ids now db)
          ∙ numbered_selected (is_acked k ids) 1 after.messages after.next_seq o,
      subst (λ n. All (λ s. s < n) (seqs gone))
          (next_seq-swept st.retention_ttl_secs now db
            ∙ sym (unfold ack in next_seq-ack_tx st k ids now db))
          (below_counter (is_acked k ids) 1 after.messages after.next_seq o).0,
    )

-- An acknowledged message is never delivered again. In a valid store, an ack deletes the messages of
-- its route that are under a lease and that it lists, and whatever transactions with whatever
-- faults come after it, no later pull, of any route, at any time, delivers one of these rows.
pub acked_gone :
    (st : Store) (k j : Text) (ids : List Text) (now max max_bytes later : ℕ) (db : Db)
    (cs : List (Fault × Call))
    → IsValid db
    → let gone = select (is_acked k ids) (swept st.retention_ttl_secs now db).messages in
      let final = run st cs (ack healthy st k ids now db).1 in
      (out : AckOutcome) × ((ack healthy st k ids now db).0 ≡ ok out)
      × (out.acked ≡ length gone)
      × (exists_where
            (λ m. among (seqs gone) m.seq)
            (deliver j max max_bytes later (swept st.retention_ttl_secs later final))
          ≡ false)
acked_gone st k j ids now max mb later db cs v =
    let gone = select (is_acked k ids) (swept st.retention_ttl_secs now db).messages in
    let (out, returned, acked) = acked_count st k ids now db in
    let spent =
      run-Spent st (seqs gone) cs (ack healthy st k ids now db).1 (acked-Spent st k ids now db v) in
    (
      out,
      returned,
      acked,
      not_delivered (numbered (seqs gone)) st j max mb later
          (run st cs (ack healthy st k ids now db).1) spent.0,
    )
