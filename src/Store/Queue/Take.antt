-- ===== src/Store/Queue/Take.antt =====
-- The queue after a delete-on-deliver pull.
use qsl_server.Base.{
  ℕ, Text, text_eq, text_eq_iff, ◌≡◌, refl, sym, ap, ◌∙◌, false, not, ◌&&◌, List, [], ◌∷◌, arith,
  length, length-map, take, drop, map, select,
}
use qsl_server.Store.Schema.{Db, Store, PullMode, PullOutcome, legacy, message_on}
use qsl_server.Store.Transaction.{healthy}
use qsl_server.Base.Result.{ok}
use qsl_server.Store.Sweep.{swept}
use qsl_server.Store.Pull.{
  is_visible, is_free, stored_msg, deliver, remove_delivered, hand_out, pull,
}
use qsl_server.Store.Delivery.Chosen.{
  seqs, no_seqs, remove_first, select-remove_first, select-remove_first_other,
}
use qsl_server.Store.Delivery.Prefix.{visible, deliver-IsPrefix}
use qsl_server.Store.Valid.Invariant.{IsValid}
use qsl_server.Store.Valid.Pulling.{delivered-eq-remove_first}
use qsl_server.Store.Valid.Sweeping.{swept-IsValid}
use qsl_server.Store.Queue.View.{queue, messages-settle}

pub messages-hand_out_legacy :
    (st : Store) (k : Text) (now : ℕ) (ss : List ℕ) (db : Db)
    → (hand_out st k now legacy ss db).1.messages ≡ (remove_delivered ss db).messages
unfolding hand_out
messages-hand_out_legacy st k now [] db =
    messages-settle k now db ∙ sym (unfold remove_delivered in no_seqs db.messages)
messages-hand_out_legacy st k now (s ∷ ss) db = messages-settle k now _

pub messages-pull_legacy :
    (st : Store) (k : Text) (max max_bytes now : ℕ) (db : Db)
    → IsValid db
    → let after = swept st.retention_ttl_secs now db in
      (pull healthy st k max max_bytes now legacy db).1.messages
      ≡ remove_first (is_visible k now) (length (deliver k max max_bytes now after)) after.messages
unfolding pull
messages-pull_legacy st k max mb now db v =
    let after = swept st.retention_ttl_secs now db in
    messages-hand_out_legacy st k now (seqs (deliver k max mb now after)) after
    ∙ (let e : (remove_delivered (seqs (deliver k max mb now after)) after).messages
            ≡ remove_first (is_visible k now) (length (deliver k max mb now after)) after.messages =
          unfold remove_delivered in
          delivered-eq-remove_first k max mb now after
            (swept-IsValid st.retention_ttl_secs now db v).ordered in
        e)

pub rows_legacy :
    (st : Store) (k : Text) (max max_bytes now : ℕ) (db : Db)
    → IsValid db
    → let after = swept st.retention_ttl_secs now db in
      let rows = deliver k max max_bytes now after in
      let final = (pull healthy st k max max_bytes now legacy db).1 in
      (map stored_msg rows ≡ map stored_msg (take (length rows) (visible k now after)))
      × (visible k now final ≡ drop (length rows) (visible k now after))
      × (select (λ m. message_on k m && not (is_free now m.leased_until)) final.messages
          ≡ select (λ m. message_on k m && not (is_free now m.leased_until)) after.messages)
      × ((j : Text) → text_eq j k ≡ false → queue j final ≡ queue j after)
rows_legacy st k max mb now db v =
    let after = swept st.retention_ttl_secs now db in
    let n = length (deliver k max mb now after) in
    let e = messages-pull_legacy st k max mb now db v in
    (
      ap (map stored_msg) (deliver-IsPrefix k max mb now after),
      ap (select (is_visible k now)) e ∙ select-remove_first (is_visible k now) n after.messages,
      ap (select (λ m. message_on k m && not (is_free now m.leased_until))) e
          ∙ select-remove_first_other (is_visible k now)
              (λ m. message_on k m && not (is_free now m.leased_until)) n after.messages
              (λ m h. ground arith),
      λ j other.
          ap (select (message_on j)) e
          ∙ select-remove_first_other (is_visible k now) (message_on j) n after.messages (λ m h.
            ground (arith, text_eq_iff m.route_key k, text_eq_iff m.route_key j, text_eq_iff j k)),
    )

-- What a pull returns.
pub pull_items :
    (st : Store) (k : Text) (max max_bytes now : ℕ) (mode : PullMode) (db : Db)
    → (out : PullOutcome) × ((pull healthy st k max max_bytes now mode db).0 ≡ ok out)
      × (out.items
          ≡ map stored_msg (deliver k max max_bytes now (swept st.retention_ttl_secs now db)))
unfolding pull
pull_items st k max mb now mode db = (_, refl, refl)

-- A delete-on-deliver pull sweeps, and then returns a prefix of what is visible on its route, in
-- order. Afterwards exactly the rest of it is visible; a message under a lease, and every message
-- of another route, is still there.
pub pull-takes_prefix :
    (st : Store) (k : Text) (max max_bytes now : ℕ) (db : Db)
    → IsValid db
    → let after = swept st.retention_ttl_secs now db in
      let final = (pull healthy st k max max_bytes now legacy db).1 in
      (out : PullOutcome) × ((pull healthy st k max max_bytes now legacy db).0 ≡ ok out)
      × (out.items ≡ map stored_msg (take (length out.items) (visible k now after)))
      × (visible k now final ≡ drop (length out.items) (visible k now after))
      × (select (λ m. message_on k m && not (is_free now m.leased_until)) final.messages
          ≡ select (λ m. message_on k m && not (is_free now m.leased_until)) after.messages)
      × ((j : Text) → text_eq j k ≡ false → queue j final ≡ queue j after)
pull-takes_prefix st k max mb now db v =
    let after = swept st.retention_ttl_secs now db in
    let (out, returned, items) = pull_items st k max mb now legacy db in
    let h = rows_legacy st k max mb now db v in
    let n : length out.items ≡ length (deliver k max mb now after) =
      ap length items ∙ length-map (deliver k max mb now after) stored_msg in
    (
      out,
      returned,
      items ∙ h.0 ∙ ap (λ i. map stored_msg (take i (visible k now after))) (sym n),
      h.1 ∙ ap (λ i. drop i (visible k now after)) (sym n),
      h.2,
      h.3,
    )
