-- ===== src/Store/Queue/Push.antt =====
-- What `enqueue` does to the queues, on every outcome.
use qsl_server.Base.{
  suc, ◌<◌, Text, text_eq, text_eq_refl, ◌≡◌, ◌≢◌, refl, ap, ◌∙◌, ◌⊎◌, inl, inr, ◌↔◌, Bool, true,
  false, Option, none, some, List, [], ◌∷◌, ◌++◌, arith, leb, length, Bool-cases, select,
  count_where, find_where, if◌then◌else◌,
}
use qsl_server.Base.Result.{ok}
use qsl_server.Store.Schema.{
  Db, Message, Invite, SlotReject, EnqueueOutcome, has_route, message_on, invite_is, touch,
}
use qsl_server.Store.Transaction.{Fault, healthy, lock_poisoned, sql_error, committed}
use qsl_server.Store.Enqueue.{
  Push, enqueue, enqueue_slot, admit, place, slot_refusal, store_message, insert_route,
  insert_message, burn_ticket,
}
use qsl_server.Store.Queue.View.{queue}

-- The row that the push adds.
abbrev pub new_message : Push → Db → Message
new_message p db = record {
  seq = db.next_seq;
  msg_id = p.msg_id;
  route_key = p.route_key;
  body = p.body;
  enqueued_at = p.now;
  leased_until = none;
}

-- What a committed push leaves of the messages.
abbrev pub Appends : Push → Db → Option Db → Type 0
Appends p db none = Unit
Appends p db (some after) =
    (after.messages ≡ db.messages ++ new_message p db ∷ []) × (after.next_seq ≡ suc db.next_seq)

-- Accepted exactly when committed.
abbrev pub Commits : EnqueueOutcome → Option Db → Type 0
Commits EnqueueOutcome.accepted w = (after : Db) × (w ≡ some after)
Commits (EnqueueOutcome.overloaded d) w = w ≡ none
Commits (EnqueueOutcome.route_cap n) w = w ≡ none
Commits (EnqueueOutcome.slot_rejected r) w = w ≡ none

place-Appends : (p : Push) (db : Db) → Appends p db (place p db).1
unfolding place store_message insert_message insert_route touch
place-Appends p db = ground arith

place-Commits : (p : Push) (db : Db) → Commits (place p db).0 (place p db).1
unfolding place
place-Commits p db = elim (Bool-cases (has_route p.route_key db)) [
  | inl there ↦
      elim (Bool-cases (leb p.max_queue_depth (count_where (message_on p.route_key) db.messages))) [
        | inl full ↦ rw (there, full) refl
        | inr room ↦ rw (there, room) (_, refl)
      ]
  | inr absent ↦ elim (Bool-cases (leb p.max_route_count (length db.routes))) [
    | inl full ↦ rw (absent, full) refl
    | inr room ↦ rw (absent, room) (_, refl)
  ]
]

admit-Appends :
    (p : Push) (db : Db) (r : Option SlotReject)
    → Appends p db (admit p db r).1 × Commits (admit p db r).0 (admit p db r).1
unfolding admit
admit-Appends p db none = (
  unfold burn_ticket in place-Appends p (burn_ticket p.route_key db),
  place-Commits p (burn_ticket p.route_key db),
)
admit-Appends p db (some reason) = (tt, refl)

pub slot-Appends :
    (p : Push) (db : Db) (slot : Option Invite)
    → Appends p db (enqueue_slot p db slot).1
      × Commits (enqueue_slot p db slot).0 (enqueue_slot p db slot).1
unfolding enqueue_slot
slot-Appends p db none = (place-Appends p db, place-Commits p db)
slot-Appends p db (some i) = admit-Appends p db (slot_refusal p i)

abbrev pub AppendsOnly : Push → Db → Db → Type 0
AppendsOnly p db after =
    (queue p.route_key after ≡ queue p.route_key db ++ new_message p db ∷ [])
    × ((k : Text) → text_eq p.route_key k ≡ false → queue k after ≡ queue k db)
    × (after.next_seq ≡ suc db.next_seq)

select-snoc :
    (q : Message → Bool) (xs : List Message) (m : Message)
    → select q (xs ++ m ∷ []) ≡ (if q m then select q xs ++ m ∷ [] else select q xs)
select-snoc q [] m = ground arith
select-snoc q (x ∷ xs) m = ground (arith, select-snoc q xs m)

pub appended-AppendsOnly :
    (p : Push) (db after : Db)
    → after.messages ≡ db.messages ++ new_message p db ∷ []
    → after.next_seq ≡ suc db.next_seq
    → AppendsOnly p db after
appended-AppendsOnly p db after e n = (
  ap (select (message_on p.route_key)) e
      ∙ select-snoc (message_on p.route_key) db.messages (new_message p db)
      ∙ rw text_eq_refl refl,
  λ k other.
      ap (select (message_on k)) e
      ∙ select-snoc (message_on k) db.messages (new_message p db)
      ∙ rw other refl,
  n,
)

committed-Appends :
    (p : Push) (db : Db) (o : EnqueueOutcome) (w : Option Db)
    → Appends p db w
    → Commits o w
    → o ≡ EnqueueOutcome.accepted
    → Appends p db (some (committed w db))
committed-Appends p db EnqueueOutcome.accepted none a c h = cc c.1
committed-Appends p db EnqueueOutcome.accepted (some after) a c h = a
committed-Appends p db (EnqueueOutcome.overloaded d) w a c h = cc
committed-Appends p db (EnqueueOutcome.route_cap n) w a c h = cc
committed-Appends p db (EnqueueOutcome.slot_rejected r) w a c h = cc

refused-committed :
    (db : Db) (o : EnqueueOutcome) (w : Option Db)
    → Commits o w
    → o ≢ EnqueueOutcome.accepted
    → committed w db ≡ db
refused-committed db EnqueueOutcome.accepted w c h = absurd (h refl)
refused-committed db (EnqueueOutcome.overloaded d) w c h = ap (λ x. committed x db) c
refused-committed db (EnqueueOutcome.route_cap n) w c h = ap (λ x. committed x db) c
refused-committed db (EnqueueOutcome.slot_rejected r) w c h = ap (λ x. committed x db) c

-- The row of an accepted push is behind all others.
pub enqueue-Appends :
    (f : Fault) (p : Push) (db : Db)
    → (enqueue f p db).0 ≡ ok EnqueueOutcome.accepted
    → Appends p db (some (enqueue f p db).1)
unfolding enqueue
enqueue-Appends healthy p db h =
    let slot = find_where (invite_is p.route_key) db.invites in
    committed-Appends p db (enqueue_slot p db slot).0 (enqueue_slot p db slot).1
      (slot-Appends p db slot).0 (slot-Appends p db slot).1 (cc)
enqueue-Appends lock_poisoned p db h = cc
enqueue-Appends (sql_error e) p db h = cc

-- An accepted push appends its message to the queue of its route, under the next number, and
-- changes no other queue.
pub enqueue-appends :
    (f : Fault) (p : Push) (db : Db)
    → (enqueue f p db).0 ≡ ok EnqueueOutcome.accepted
    → (queue p.route_key (enqueue f p db).1 ≡ queue p.route_key db ++ new_message p db ∷ [])
      × ((k : Text) → text_eq p.route_key k ≡ false → queue k (enqueue f p db).1 ≡ queue k db)
      × ((enqueue f p db).1.next_seq ≡ suc db.next_seq)
enqueue-appends f p db h =
    let (row, counted) = enqueue-Appends f p db h in
    appended-AppendsOnly p db (enqueue f p db).1 row counted

-- A push that is not accepted, for whatever reason, changes nothing: a ticket that it presented is
-- not spent.
pub enqueue-refused :
    (f : Fault) (p : Push) (db : Db)
    → (enqueue f p db).0 ≢ ok EnqueueOutcome.accepted
    → (enqueue f p db).1 ≡ db
unfolding enqueue
enqueue-refused healthy p db h =
    let slot = find_where (invite_is p.route_key) db.invites in
    refused-committed db (enqueue_slot p db slot).0 (enqueue_slot p db slot).1
      (slot-Appends p db slot).1 (λ e. h (ap ok e))
enqueue-refused lock_poisoned p db h = refl
enqueue-refused (sql_error e) p db h = refl

-- The caps leave room: for one more message on a route that is there, or for one more route.
abbrev pub HasRoom : Push → Db → Type 0
HasRoom p db =
    ((has_route p.route_key db ≡ true)
      × (count_where (message_on p.route_key) db.messages < p.max_queue_depth))
    ⊎ ((has_route p.route_key db ≡ false) × (length db.routes < p.max_route_count))

pub place-accepts_iff :
    (p : Push) (db : Db) → ((place p db).0 ≡ EnqueueOutcome.accepted) ↔ HasRoom p db
unfolding place
place-accepts_iff p db = (ground arith, ground arith)

-- On a route that no invite created, a push is accepted exactly when the caps leave room, whatever
-- ticket it presents.
pub enqueue-accepts_iff :
    (p : Push) (db : Db)
    → find_where (invite_is p.route_key) db.invites ≡ none
    → ((enqueue healthy p db).0 ≡ ok EnqueueOutcome.accepted) ↔ HasRoom p db
unfolding enqueue
enqueue-accepts_iff p db no_slot =
    rw no_slot ((λ h. (place-accepts_iff p db).0 (cc)), (λ r. ap ok ((place-accepts_iff p db).1 r)))
