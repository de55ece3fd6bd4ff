-- ===== src/Store/Queue/Lease.antt =====
-- The queue after a leasing pull.
use qsl_server.Base.{
  ℕ, zero, suc, ◌+◌, ◌≤◌, ◌<◌, Text, ◌≡◌, refl, sym, ap, ap₂, ◌∙◌, Bool-cases, inl, inr, Bool, true,
  false, Option, some, none, List, [], ◌∷◌, arith, length, length-map, take, map, select,
  update_where,
}
use qsl_server.Base.Result.{ok}
use qsl_server.Store.Schema.{Db, Message, Store, PullOutcome, lease, legacy, touch}
use qsl_server.Store.Transaction.{healthy}
use qsl_server.Store.Sweep.{swept}
use qsl_server.Store.Pull.{
  among, is_visible, is_free, stored_msg, deliver, lease_delivered, hand_out, pull,
}
use qsl_server.Store.Delivery.Chosen.{
  seqs, set_lease, lease_first, remove_first, lease_chosen, no_seqs_update,
}
use qsl_server.Store.Delivery.Prefix.{visible, deliver-IsPrefix}
use qsl_server.Store.Valid.Invariant.{IsValid}
use qsl_server.Store.Valid.Sweeping.{swept-IsValid}
use qsl_server.Store.Valid.Order.{Ordered}
use qsl_server.Store.Queue.Take.{pull_items, messages-pull_legacy}

leased-eq-lease_first :
    (k : Text) (max max_bytes now deadline : ℕ) (db : Db)
    → Ordered 1 db.messages db.next_seq
    → update_where
        (λ m. among (seqs (deliver k max max_bytes now db)) m.seq)
        (set_lease deadline)
        db.messages
      ≡ lease_first
          (is_visible k now)
          deadline
          (length (deliver k max max_bytes now db))
          db.messages
leased-eq-lease_first k max mb now d db o =
    ap (λ rows. update_where (λ m. among (seqs rows) m.seq) (set_lease d) db.messages)
      (deliver-IsPrefix k max mb now db)
    ∙ lease_chosen (is_visible k now) d (length (deliver k max mb now db)) 1 db.messages db.next_seq
        o

pub messages-hand_out_lease :
    (st : Store) (k : Text) (now : ℕ) (ss : List ℕ) (db : Db)
    → (hand_out st k now lease ss db).1.messages
      ≡ update_where (λ m. among ss m.seq) (set_lease (now + st.pull_lease_secs)) db.messages
unfolding hand_out lease_delivered touch
messages-hand_out_lease st k now [] db =
    sym (no_seqs_update (set_lease (now + st.pull_lease_secs)) db.messages)
messages-hand_out_lease st k now (s ∷ ss) db = refl

pub messages-pull_lease :
    (st : Store) (k : Text) (max max_bytes now : ℕ) (db : Db)
    → IsValid db
    → let after = swept st.retention_ttl_secs now db in
      (pull healthy st k max max_bytes now lease db).1.messages
      ≡ lease_first
          (is_visible k now)
          (now + st.pull_lease_secs)
          (length (deliver k max max_bytes now after))
          after.messages
unfolding pull
messages-pull_lease st k max mb now db v =
    let after = swept st.retention_ttl_secs now db in
    messages-hand_out_lease st k now (seqs (deliver k max mb now after)) after
    ∙ leased-eq-lease_first k max mb now (now + st.pull_lease_secs) after
        (swept-IsValid st.retention_ttl_secs now db v).ordered

-- A message without its lease.
abbrev pub unleased : Message → Message
unleased m = record m { leased_until = none }

unleased-lease_first :
    (p : Message → Bool) (d n : ℕ) (ms : List Message)
    → map unleased (lease_first p d n ms) ≡ map unleased ms
unfolding lease_first
unleased-lease_first p d zero ms = refl
unleased-lease_first p d (suc n) [] = refl
unleased-lease_first p d (suc n) (m ∷ ms) =
    ground (arith, unleased-lease_first p d n ms, unleased-lease_first p d (suc n) ms)

-- Before the deadline the leased rows are as good as deleted.
hidden-lease_first :
    (p : Message → Bool) (j : Text) (d n t : ℕ) (ms : List Message)
    → t < d
    → select (is_visible j t) (lease_first p d n ms) ≡ select (is_visible j t) (remove_first p n ms)
unfolding lease_first remove_first
hidden-lease_first p j d zero t ms h = refl
hidden-lease_first p j d (suc n) t [] h = refl
hidden-lease_first p j d (suc n) t (m ∷ ms) h =
    ground (arith, hidden-lease_first p j d n t ms h, hidden-lease_first p j d (suc n) t ms h)

free_later :
    (now t : ℕ) (until : Option ℕ) → now ≤ t → is_free now until ≡ true → is_free t until ≡ true
free_later now t none le h = refl
free_later now t (some until) le h = ground arith

cons_shown :
    (q : Message → Bool) (x y : Message) (xs ys : List Message)
    → unleased x ≡ unleased y
    → q x ≡ q y
    → map unleased (select q xs) ≡ map unleased (select q ys)
    → map unleased (select q (x ∷ xs)) ≡ map unleased (select q (y ∷ ys))
cons_shown q x y xs ys e same rest = elim (Bool-cases (q y)) [
  | inl shown ↦ rw (same, shown) (ap₂ ◌∷◌ e rest)
  | inr hidden ↦ rw (same, hidden) rest
]

lease_first-hit :
    (p : Message → Bool) (d n : ℕ) (m : Message) (ms : List Message)
    → p m ≡ true
    → lease_first p d (suc n) (m ∷ ms) ≡ set_lease d m ∷ lease_first p d n ms
unfolding lease_first
lease_first-hit p d n m ms h = rw h

lease_first-miss :
    (p : Message → Bool) (d n : ℕ) (m : Message) (ms : List Message)
    → p m ≡ false
    → lease_first p d (suc n) (m ∷ ms) ≡ m ∷ lease_first p d (suc n) ms
unfolding lease_first
lease_first-miss p d n m ms h = rw h

shown_again :
    (k j : Text) (now d t : ℕ) (m : Message)
    → now ≤ t
    → d ≤ t
    → is_visible k now m ≡ true
    → is_visible j t (set_lease d m) ≡ is_visible j t m
shown_again k j now d t m a b h = ground (arith, free_later now t m.leased_until a)

-- From the deadline on they are as good as untouched.
shown-lease_first :
    (k j : Text) (now d n t : ℕ) (ms : List Message)
    → now ≤ t
    → d ≤ t
    → map unleased (select (is_visible j t) (lease_first (is_visible k now) d n ms))
      ≡ map unleased (select (is_visible j t) ms)
shown-lease_first k j now d zero t ms a b = unfold lease_first in refl
shown-lease_first k j now d (suc n) t [] a b = unfold lease_first in refl
shown-lease_first k j now d (suc n) t (m ∷ ms) a b = elim (Bool-cases (is_visible k now m)) [
  | inl hit ↦
      ap (λ xs. map unleased (select (is_visible j t) xs))
        (lease_first-hit (is_visible k now) d n m ms hit)
      ∙ cons_shown (is_visible j t) (set_lease d m) m _ ms refl (shown_again k j now d t m a b hit)
          (shown-lease_first k j now d n t ms a b)
  | inr miss ↦
      ap (λ xs. map unleased (select (is_visible j t) xs))
        (lease_first-miss (is_visible k now) d n m ms miss)
      ∙ cons_shown (is_visible j t) m m _ ms refl refl
          (shown-lease_first k j now d (suc n) t ms a b)
]

-- A leasing pull sweeps, and then returns a prefix of what is visible on its route, in order. It
-- deletes no message: but for leases the messages are those of the swept store. Before the lease's
-- deadline every route shows what it would show if the pull had deleted what it returned; from the
-- deadline on it shows, but for leases, what it would show without the pull.
pub pull-hides_prefix :
    (st : Store) (k : Text) (max max_bytes now : ℕ) (db : Db)
    → IsValid db
    → let after = swept st.retention_ttl_secs now db in
      let leased = (pull healthy st k max max_bytes now lease db).1 in
      let removed = (pull healthy st k max max_bytes now legacy db).1 in
      (out : PullOutcome) × ((pull healthy st k max max_bytes now lease db).0 ≡ ok out)
      × (out.items ≡ map stored_msg (take (length out.items) (visible k now after)))
      × (map unleased leased.messages ≡ map unleased after.messages)
      × ((j : Text) (t : ℕ)
          → t < now + st.pull_lease_secs
          → visible j t leased ≡ visible j t removed)
      × ((j : Text) (t : ℕ)
          → now + st.pull_lease_secs ≤ t
          → map unleased (visible j t leased) ≡ map unleased (visible j t after))
pull-hides_prefix st k max mb now db v =
    let after = swept st.retention_ttl_secs now db in
    let rows = deliver k max mb now after in
    let d = now + st.pull_lease_secs in
    let (out, returned, items) = pull_items st k max mb now lease db in
    let n : length out.items ≡ length rows = ap length items ∙ length-map rows stored_msg in
    let e = messages-pull_lease st k max mb now db v in
    let e' = messages-pull_legacy st k max mb now db v in
    (
      out,
      returned,
      items
          ∙ ap (map stored_msg) (deliver-IsPrefix k max mb now after)
          ∙ ap (λ i. map stored_msg (take i (visible k now after))) (sym n),
      ap (map unleased) e ∙ unleased-lease_first (is_visible k now) d (length rows) after.messages,
      λ j t h.
          ap (select (is_visible j t)) e
          ∙ hidden-lease_first (is_visible k now) j d (length rows) t after.messages h
          ∙ sym (ap (select (is_visible j t)) e'),
      λ j t h.
          ap (λ ms. map unleased (select (is_visible j t) ms)) e
          ∙ shown-lease_first k j now d (length rows) t after.messages (omega arith) h,
    )
