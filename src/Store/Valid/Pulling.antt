-- ===== src/Store/Valid/Pulling.antt =====
-- A pull keeps the invariant.
use qsl_server.Base.{
  ℕ, suc, ◌+◌, Text, ◌≡◌, refl, sym, ap, ◌∙◌, Bool, true, false, some, List, [], ◌∷◌, arith, length,
  delete_where, exists_where, exists_where-update_where, text_eq_iff, not, zero,
}
use qsl_server.Store.Schema.{Db, Message, Store, PullMode, legacy, lease, message_on}
use qsl_server.Store.Sweep.{swept}
use qsl_server.Store.Pull.{
  among, is_visible, deliver, remove_delivered, lease_delivered, hand_out, pull_tx,
}
use qsl_server.Store.Transaction.{committed}
use qsl_server.Store.Delivery.Chosen.{seqs, remove_first, delete_chosen}
use qsl_server.Store.Delivery.Prefix.{deliver-IsPrefix}
use qsl_server.Store.Valid.Order.{Ordered, Ordered-select, Ordered-update_where}
use qsl_server.Store.Valid.Sweeping.{survivor, swept-IsValid}
use qsl_server.Store.Valid.Invariant.{IsValid, touch-IsValid}
use qsl_server.Store.Valid.Draining.{IsNearlyValid, fewer_messages-IsNearlyValid, settle-IsValid}

pub lease_delivered-IsValid :
    (ss : List ℕ) (deadline : ℕ) (db : Db) → IsValid db → IsValid (lease_delivered ss deadline db)
unfolding lease_delivered
lease_delivered-IsValid ss deadline db v = record {
  backed = λ k.
      v.backed k
      ∙ sym (
          exists_where-update_where (message_on k) (λ m. among ss m.seq)
            (λ m. record m { leased_until = some deadline }) db.messages (λ m. refl));
  routes_unique = v.routes_unique;
  slots_unique = v.slots_unique;
  ordered =
      Ordered-update_where (λ m. among ss m.seq) (λ m. record m { leased_until = some deadline }) 1
        db.messages db.next_seq (λ m. refl) v.ordered;
  tidy = v.tidy;
}

exists-remove_first :
    (j : Text) (p : Message → Bool) (n : ℕ) (ms : List Message)
    → ((m : Message) → p m ≡ true → message_on j m ≡ false)
    → exists_where (message_on j) (remove_first p n ms) ≡ exists_where (message_on j) ms
unfolding remove_first
exists-remove_first j p zero ms h = refl
exists-remove_first j p (suc n) [] h = refl
exists-remove_first j p (suc n) (m ∷ ms) h =
    ground (arith, exists-remove_first j p n ms h, exists-remove_first j p (suc n) ms h, h m)

pub delivered-eq-remove_first :
    (k : Text) (max max_bytes now : ℕ) (db : Db)
    → Ordered 1 db.messages db.next_seq
    → delete_where (λ m. among (seqs (deliver k max max_bytes now db)) m.seq) db.messages
      ≡ remove_first (is_visible k now) (length (deliver k max max_bytes now db)) db.messages
delivered-eq-remove_first k max mb now db o =
    ap (λ rows. delete_where (λ m. among (seqs rows) m.seq) db.messages)
      (deliver-IsPrefix k max mb now db)
    ∙ delete_chosen (is_visible k now) (length (deliver k max mb now db)) 1 db.messages db.next_seq
        o

remove_delivered-IsNearlyValid :
    (k : Text) (max max_bytes now : ℕ) (db : Db)
    → IsValid db
    → IsNearlyValid k (remove_delivered (seqs (deliver k max max_bytes now db)) db)
unfolding remove_delivered
remove_delivered-IsNearlyValid k max mb now db v =
    fewer_messages-IsNearlyValid k _ db
      (λ j ne. rw (delivered-eq-remove_first k max mb now db v.ordered) (
        exists-remove_first j (is_visible k now) (length (deliver k max mb now db)) db.messages
          λ m h.
            ground (arith, text_eq_iff m.route_key k, text_eq_iff m.route_key j, text_eq_iff j k)))
      (survivor k (λ m. among (seqs (deliver k max mb now db)) m.seq) db.messages)
      (Ordered-select (λ m. not (among (seqs (deliver k max mb now db)) m.seq)) 1 db.messages
        db.next_seq v.ordered)
      v

IsValid-IsNearlyValid : (k : Text) (db : Db) → IsValid db → IsNearlyValid k db
IsValid-IsNearlyValid k db v = record {
  others = λ j ne. v.backed j;
  own = λ h. v.backed k ∙ h;
  routes_unique = v.routes_unique;
  slots_unique = v.slots_unique;
  ordered = v.ordered;
  tidy = v.tidy;
}

hand_out-IsValid :
    (st : Store) (k : Text) (now : ℕ) (mode : PullMode) (ss : List ℕ) (db : Db)
    → IsNearlyValid k (remove_delivered ss db)
    → IsValid db
    → IsValid (hand_out st k now mode ss db).1
unfolding hand_out
hand_out-IsValid st k now legacy [] db near v =
    settle-IsValid k now db (IsValid-IsNearlyValid k db v)
hand_out-IsValid st k now legacy (s ∷ ss) db near v = settle-IsValid k now _ near
hand_out-IsValid st k now lease [] db near v = v
hand_out-IsValid st k now lease (s ∷ ss) db near v =
    touch-IsValid k now _ (lease_delivered-IsValid (s ∷ ss) (now + st.pull_lease_secs) db v)

pub pull_tx-IsValid :
    (st : Store) (k : Text) (max max_bytes now : ℕ) (mode : PullMode) (db : Db)
    → IsValid db
    → IsValid (committed (pull_tx st k max max_bytes now mode db).1 db)
unfolding pull_tx
pull_tx-IsValid st k max mb now mode db v =
    let after = swept st.retention_ttl_secs now db in
    let v' = swept-IsValid st.retention_ttl_secs now db v in
    hand_out-IsValid st k now mode (seqs (deliver k max mb now after)) after
      (remove_delivered-IsNearlyValid k max mb now after v') v'
