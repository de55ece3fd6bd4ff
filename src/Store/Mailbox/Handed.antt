-- ===== src/Store/Mailbox/Handed.antt =====
-- What pulls and acks do to the boxes.
use qsl_server.Base.{
  ℕ, ◌+◌, ◌≤◌, ◌<◌, Text, text_eq, text_eq_iff, ◌≡◌, sym, ap, subst, ◌∙◌, ◌⊎◌, inl, inr, true,
  false, List, [], map, take, length, length-map, arith, Bool-cases, select,
}
use qsl_server.Base.Result.{Result, ok, err}
use qsl_server.Store.Schema.{
  Db, Store, Message, StoredMsg, PullMode, PullOutcome, legacy, lease, message_on,
}
use qsl_server.Store.Transaction.{healthy}
use qsl_server.Store.Sweep.{swept}
use qsl_server.Store.Pull.{pull, is_visible, deliver, stored_msg}
use qsl_server.Store.Ack.{ack}
use qsl_server.Store.Valid.Invariant.{IsValid}
use qsl_server.Store.Delivery.Prefix.{visible, deliver-IsPrefix}
use qsl_server.Store.Delivery.Budget.{usize_max, bytes}
use qsl_server.Store.Delivery.Chosen.{select-remove_first_other}
use qsl_server.Store.Queue.Acked.{messages-ack}
use qsl_server.Store.Queue.Take.{pull_items, messages-pull_legacy}
use qsl_server.Store.Queue.Lease.{messages-pull_lease}
use qsl_server.Store.Queue.Contract.{delivered-budget}
use qsl_server.Store.Mailbox.Letters.{
  Letter, Boxes, unexpired, shown, hand_over, lend, discard, content, weight,
}
use qsl_server.Store.Mailbox.Promises.{Granted, OnlyAt}
use qsl_server.Store.Mailbox.Boxed.{
  letter, boxes, boxes-swept, items-shown, visible-shown, weight-bytes, map-take, boxed-acked,
  acked_other, boxed-remove_first, boxed-lease_first, select-lease_first_other,
}

-- The messages that a call returns.
abbrev pub items_of : Result PullOutcome → List StoredMsg
items_of (ok out) = out.items
items_of (err e) = []

only_at :
    (k : Text) (change : List Letter → List Letter) (ttl now : ℕ) (before after : Boxes)
    → after k ≡ change (unexpired ttl now (before k))
    → ((j : Text) → text_eq j k ≡ false → after j ≡ unexpired ttl now (before j))
    → OnlyAt k change ttl now before after
only_at k change ttl now before after here others j = elim (Bool-cases (text_eq j k)) [
  | inl same ↦ rw same (
      subst (λ i. after i ≡ change (unexpired ttl now (before i))) (sym ((text_eq_iff j k).0 same))
        here)
  | inr other ↦ rw other (others j other)
]

-- A message of a route is on no other.
not_on :
    (j k : Text) (now : ℕ) (m : Message)
    → text_eq j k ≡ false
    → is_visible k now m ≡ true
    → message_on j m ≡ false
not_on j k now m other h =
    ground (arith, text_eq_iff m.route_key k, text_eq_iff m.route_key j, text_eq_iff j k)

granted :
    (k : Text) (max max_bytes now : ℕ) (db : Db)
    → 0 < max
    → max_bytes < usize_max
    → Granted max max_bytes (shown now (boxes db k)) (length (deliver k max max_bytes now db))
granted k max mb now db pos small =
    let rows = deliver k max mb now db in
    let (a, b, c, d) = delivered-budget k max mb now db pos small in
    let seen : length (shown now (boxes db k)) ≡ length (visible k now db) =
      ap length (sym (visible-shown k now db)) ∙ length-map (visible k now db) letter in
    let first : take (length rows) (shown now (boxes db k)) ≡ map letter rows =
      ap (take (length rows)) (sym (visible-shown k now db))
      ∙ sym (map-take (length rows) (visible k now db))
      ∙ ap (map letter) (sym (deliver-IsPrefix k max mb now db)) in
    let load : weight (take (length rows) (shown now (boxes db k))) ≡ bytes rows =
      ap weight first ∙ weight-bytes rows in
    (a, omega (arith, seen, c), subst (λ x. (x ≤ mb) ⊎ (length rows ≤ 1)) (sym load) b)

pub legacy-OnlyAt :
    (st : Store) (k : Text) (max max_bytes now : ℕ) (db : Db)
    → IsValid db
    → let n = length (deliver k max max_bytes now (swept st.retention_ttl_secs now db)) in
      OnlyAt k
        (hand_over now n)
        st.retention_ttl_secs
        now
        (boxes db)
        (boxes (pull healthy st k max max_bytes now legacy db).1)
legacy-OnlyAt st k max mb now db v =
    let after = swept st.retention_ttl_secs now db in
    let n = length (deliver k max mb now after) in
    let e = messages-pull_legacy st k max mb now db v in
    only_at k (hand_over now n) st.retention_ttl_secs now (boxes db)
      (boxes (pull healthy st k max mb now legacy db).1)
      (ap (λ ms. map letter (select (message_on k) ms)) e
        ∙ boxed-remove_first k now n after.messages
        ∙ ap (hand_over now n) (boxes-swept st.retention_ttl_secs now db k))
      (λ j other.
        ap (λ ms. map letter (select (message_on j) ms)) e
        ∙ ap (map letter) (
            select-remove_first_other (is_visible k now) (message_on j) n after.messages
              (λ m h. not_on j k now m other h))
        ∙ boxes-swept st.retention_ttl_secs now db j)

pub lease-OnlyAt :
    (st : Store) (k : Text) (max max_bytes now : ℕ) (db : Db)
    → IsValid db
    → let n = length (deliver k max max_bytes now (swept st.retention_ttl_secs now db)) in
      OnlyAt k
        (lend now (now + st.pull_lease_secs) n)
        st.retention_ttl_secs
        now
        (boxes db)
        (boxes (pull healthy st k max max_bytes now lease db).1)
lease-OnlyAt st k max mb now db v =
    let after = swept st.retention_ttl_secs now db in
    let d = now + st.pull_lease_secs in
    let n = length (deliver k max mb now after) in
    let e = messages-pull_lease st k max mb now db v in
    only_at k (lend now d n) st.retention_ttl_secs now (boxes db)
      (boxes (pull healthy st k max mb now lease db).1)
      (ap (λ ms. map letter (select (message_on k) ms)) e
        ∙ boxed-lease_first k now d n after.messages
        ∙ ap (lend now d n) (boxes-swept st.retention_ttl_secs now db k))
      (λ j other.
        ap (λ ms. map letter (select (message_on j) ms)) e
        ∙ ap (map letter) (
            select-lease_first_other (is_visible k now) (message_on j) d n after.messages
              (λ m h. (not_on j k now m other h, not_on j k now m other h)))
        ∙ boxes-swept st.retention_ttl_secs now db j)

pub ack-OnlyAt :
    (st : Store) (k : Text) (ids : List Text) (now : ℕ) (db : Db)
    → OnlyAt k
        (discard ids)
        st.retention_ttl_secs
        now
        (boxes db)
        (boxes (ack healthy st k ids now db).1)
ack-OnlyAt st k ids now db =
    let after = swept st.retention_ttl_secs now db in
    let e = messages-ack st k ids now db in
    only_at k (discard ids) st.retention_ttl_secs now (boxes db)
      (boxes (ack healthy st k ids now db).1)
      (ap (λ ms. map letter (select (message_on k) ms)) e
        ∙ boxed-acked k ids after.messages
        ∙ ap (discard ids) (boxes-swept st.retention_ttl_secs now db k))
      (λ j other.
        ap (λ ms. map letter (select (message_on j) ms)) e
        ∙ ap (map letter) (acked_other j k ids after.messages other)
        ∙ boxes-swept st.retention_ttl_secs now db j)

-- What a pull returns, and how much.
pub pull-Granted :
    (st : Store) (k : Text) (max max_bytes now : ℕ) (mode : PullMode) (db : Db)
    → 0 < max
    → max_bytes < usize_max
    → let after = swept st.retention_ttl_secs now db in
      let n = length (deliver k max max_bytes now after) in
      let ls = shown now (unexpired st.retention_ttl_secs now (boxes db k)) in
      Granted max max_bytes ls n
      × (items_of (pull healthy st k max max_bytes now mode db).0 ≡ map content (take n ls))
pull-Granted st k max mb now mode db pos small =
    let after = swept st.retention_ttl_secs now db in
    let n = length (deliver k max mb now after) in
    let e = boxes-swept st.retention_ttl_secs now db k in
    let (out, returned, items) = pull_items st k max mb now mode db in
    (
      subst (λ ls. Granted max mb (shown now ls) n) e (granted k max mb now after pos small),
      ap items_of returned
          ∙ items
          ∙ ap (map stored_msg) (deliver-IsPrefix k max mb now after)
          ∙ items-shown k n now after
          ∙ ap (λ ls. map content (take n (shown now ls))) e,
    )
