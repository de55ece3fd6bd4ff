-- ===== src/Store/Queue/Receipt.antt =====
-- A leasing pull and the ack of what it delivered.
use qsl_server.Base.{
  ℕ, zero, suc, ◌+◌, ◌≤◌, Text, text_eq_refl, ◌≡◌, refl, sym, ap, subst, ◌∙◌, Bool, true, false,
  not, ◌&&◌, List, [], ◌∷◌, arith, All, All-map, All-select, Bool-cases, inl, inr, length, take,
  map, select, update_where, delete_where, exists_where, if◌then◌else◌,
}
use qsl_server.Base.Result.{ok}
use qsl_server.Store.Schema.{Db, Message, Store, PullOutcome, lease}
use qsl_server.Store.Transaction.{healthy}
use qsl_server.Store.Sweep.{swept, is_expired}
use qsl_server.Store.Pull.{among, is_visible, stored_msg, deliver, pull}
use qsl_server.Store.Ack.{ack, is_acked, listed}
use qsl_server.Store.Delivery.Chosen.{seqs, set_lease, among_below}
use qsl_server.Store.Delivery.Prefix.{deliver-IsPrefix}
use qsl_server.Store.Valid.Invariant.{IsValid}
use qsl_server.Store.Valid.Order.{Ordered}
use qsl_server.Store.Valid.Sweeping.{swept-IsValid}
use qsl_server.Store.Queue.View.{messages-swept}
use qsl_server.Store.Queue.Take.{pull_items}
use qsl_server.Store.Queue.Lease.{messages-hand_out_lease}
use qsl_server.Store.Queue.Acked.{messages-ack}

abbrev ids : List Message → List Text
ids = map λ m. m.msg_id

-- If the row is one of `rows`, it meets `q` and its identifier is one of theirs.
abbrev told : (Message → Bool) → List Message → Message → Bool
told q rows x = if among (seqs rows) x.seq then q x && listed (ids rows) x.msg_id else true

above : (lo : ℕ) (ms : List Message) (hi : ℕ) → Ordered lo ms hi → All (λ x. lo ≤ x.seq) ms
above lo [] hi o = tt
above lo (m ∷ ms) hi o = (o.0, All-map (λ x h. omega arith) ms (above (suc m.seq) ms hi o.1))

told-later :
    (q : Message → Bool) (m x : Message) (rows : List Message)
    → suc m.seq ≤ x.seq
    → told q rows x ≡ true
    → told q (m ∷ rows) x ≡ true
unfolding listed
told-later q m x rows later h = ground arith

told-All_later :
    (q : Message → Bool) (m : Message) (rows ms : List Message)
    → All (λ x. suc m.seq ≤ x.seq) ms
    → All (λ x. told q rows x ≡ true) ms
    → All (λ x. told q (m ∷ rows) x ≡ true) ms
told-All_later q m rows [] later h = tt
told-All_later q m rows (x ∷ xs) later h =
    (told-later q m x rows later.0 h.0, told-All_later q m rows xs later.1 h.1)

told-prefix :
    (q : Message → Bool) (n lo : ℕ) (ms : List Message) (hi : ℕ)
    → Ordered lo ms hi
    → All (λ x. told q (take n (select q ms)) x ≡ true) ms
unfolding listed
told-prefix q zero lo ms hi o = nothing ms
  where
    nothing : (xs : List Message) → All (λ x. true ≡ true) xs
    nothing [] = tt
    nothing (x ∷ xs) = (refl, nothing xs)
told-prefix q (suc n) lo [] hi o = tt
told-prefix q (suc n) lo (m ∷ ms) hi o = elim (Bool-cases (q m)) [
  | inl hit ↦
      let e : select q (m ∷ ms) ≡ m ∷ select q ms = rw hit in
      subst (λ rs. All (λ x. told q (take (suc n) rs) x ≡ true) (m ∷ ms)) (sym e)
        (
          ground (arith, text_eq_refl m.msg_id),
          told-All_later q m (take n (select q ms)) ms (above (suc m.seq) ms hi o.1)
              (told-prefix q n (suc m.seq) ms hi o.1),
        )
  | inr miss ↦
      let e : select q (m ∷ ms) ≡ select q ms = rw miss in
      subst (λ rs. All (λ x. told q (take (suc n) rs) x ≡ true) (m ∷ ms)) (sym e)
        (
          ground (arith, among_below q (suc n) m.seq (suc m.seq) ms hi o.1),
          told-prefix q (suc n) (suc m.seq) ms hi o.1,
        )
]

-- So the row, once leased, is one that the ack names.
told-is_acked :
    (k : Text) (now deadline : ℕ) (rows ms : List Message)
    → All (λ x. told (is_visible k now) rows x ≡ true) ms
    → All
        (λ x. (among (seqs rows) x.seq && not (is_acked k (ids rows) x)) ≡ false)
        (update_where (λ m. among (seqs rows) m.seq) (set_lease deadline) ms)
unfolding is_acked
told-is_acked k now d rows [] h = tt
told-is_acked k now d rows (x ∷ xs) h = (ground (arith, h.0), told-is_acked k now d rows xs h.1)

none_selected :
    (p q : Message → Bool) (ms : List Message)
    → All (λ x. (p x && q x) ≡ false) ms
    → exists_where p (select q ms) ≡ false
none_selected p q [] h = refl
none_selected p q (x ∷ xs) h = ground (arith, h.0, none_selected p q xs h.1)

ids-stored_msg : (rows : List Message) → map (λ i. i.msg_id) (map stored_msg rows) ≡ ids rows
ids-stored_msg [] = refl
ids-stored_msg (x ∷ xs) = ap (◌∷◌ x.msg_id) (ids-stored_msg xs)

messages-leased :
    (st : Store) (k : Text) (max max_bytes now : ℕ) (db : Db)
    → let after = swept st.retention_ttl_secs now db in
      let ss = seqs (deliver k max max_bytes now after) in
      (pull healthy st k max max_bytes now lease db).1.messages
      ≡ update_where (λ m. among ss m.seq) (set_lease (now + st.pull_lease_secs)) after.messages
unfolding pull
messages-leased st k max mb now db =
    let after = swept st.retention_ttl_secs now db in
    messages-hand_out_lease st k now (seqs (deliver k max mb now after)) after

deliver-told :
    (k : Text) (max max_bytes now : ℕ) (db : Db)
    → IsValid db
    → All (λ x. told (is_visible k now) (deliver k max max_bytes now db) x ≡ true) db.messages
deliver-told k max mb now db v =
    subst (λ rows. All (λ x. told (is_visible k now) rows x ≡ true) db.messages)
      (sym (deliver-IsPrefix k max mb now db))
      (told-prefix (is_visible k now) (length (deliver k max mb now db)) 1 db.messages db.next_seq
        v.ordered)

-- A client that pulls under a lease and then acks all that it got gets none of it again: in a valid
-- store, after an ack on the route, at any later or earlier time, that lists the identifiers of the items
-- that the pull returned, none of the rows that the pull picked is stored.
pub ack-pull :
    (st : Store) (k : Text) (max max_bytes now then_now : ℕ) (db : Db)
    → IsValid db
    → let rows = deliver k max max_bytes now (swept st.retention_ttl_secs now db) in
      let leased = (pull healthy st k max max_bytes now lease db).1 in
      (out : PullOutcome) × ((pull healthy st k max max_bytes now lease db).0 ≡ ok out)
      × (out.items ≡ map stored_msg rows)
      × (exists_where
            (λ m. among (seqs rows) m.seq)
            (ack healthy st k (map (λ i. i.msg_id) out.items) then_now leased).1.messages
          ≡ false)
ack-pull st k max mb now then_now db v =
    let after = swept st.retention_ttl_secs now db in
    let rows = deliver k max mb now after in
    let leased = (pull healthy st k max mb now lease db).1 in
    let (out, returned, items) = pull_items st k max mb now lease db in
    let named : map (λ i. i.msg_id) out.items ≡ ids rows =
      ap (map (λ i. i.msg_id)) items ∙ ids-stored_msg rows in
    let receipts =
      told-is_acked k now (now + st.pull_lease_secs) rows after.messages
        (deliver-told k max mb now after (swept-IsValid st.retention_ttl_secs now db v)) in
    (
      out,
      returned,
      items,
      ap
            (λ is.
              exists_where (λ m. among (seqs rows) m.seq)
                (ack healthy st k is then_now leased).1.messages)
            named
          ∙ ap (exists_where (λ m. among (seqs rows) m.seq)) (
              messages-ack st k (ids rows) then_now leased
              ∙ ap (delete_where (is_acked k (ids rows))) (
                  messages-swept st.retention_ttl_secs then_now leased
                  ∙ ap (delete_where (is_expired st.retention_ttl_secs then_now))
                      (messages-leased st k max mb now db)))
          ∙ none_selected _ _ _ (All-select _ _ _ receipts),
    )
