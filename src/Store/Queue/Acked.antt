-- ===== src/Store/Queue/Acked.antt =====
-- The queue after an ack.
use qsl_server.Base.{
  ℕ, Text, text_eq, text_eq_iff, ◌≡◌, refl, ap, ap₂, ◌+◌, ◌∙◌, length, false, not, ◌&&◌, List,
  arith, select, select-select, select_congr, count_where-delete_where, delete_where, count_where,
  Bool-cases, inl, inr, ◌==◌,
}
use mathlib.Core.Bool.{and_comm}
use qsl_server.Base.Result.{ok}
use qsl_server.Store.Schema.{Db, Message, Store, AckOutcome, message_on}
use qsl_server.Store.Transaction.{healthy}
use qsl_server.Store.Sweep.{swept}
use qsl_server.Store.Ack.{ack, is_acked, is_leased, listed, delete_acked}
use qsl_server.Store.Queue.View.{queue, messages-drain}

pub messages-ack :
    (st : Store) (k : Text) (ids : List Text) (now : ℕ) (db : Db)
    → let after = swept st.retention_ttl_secs now db in
      (ack healthy st k ids now db).1.messages ≡ delete_where (is_acked k ids) after.messages
messages-ack st k ids now db =
    let after = swept st.retention_ttl_secs now db in
    elim (Bool-cases (count_where (is_acked k ids) after.messages == 0)) [
      | inl nothing ↦ unfold ack in rw nothing (unfold delete_acked in refl)
      | inr gone ↦ unfold ack in rw gone (messages-drain k (delete_acked k ids after) ∙ deleted)
    ]
  where
    deleted :
        (delete_acked k ids (swept st.retention_ttl_secs now db)).messages
        ≡ delete_where (is_acked k ids) (swept st.retention_ttl_secs now db).messages
    deleted = unfold delete_acked in refl

pub acked_count :
    (st : Store) (k : Text) (ids : List Text) (now : ℕ) (db : Db)
    → (out : AckOutcome) × ((ack healthy st k ids now db).0 ≡ ok out)
      × (out.acked ≡ count_where (is_acked k ids) (swept st.retention_ttl_secs now db).messages)
unfolding ack
acked_count st k ids now db = (_, refl, refl)

unacked_stays :
    (k : Text) (ids : List Text) (m : Message)
    → (message_on k m && not (is_acked k ids m))
      ≡ (message_on k m && not (is_leased m.leased_until && listed ids m.msg_id))
unfolding is_acked
unacked_stays k ids m = ground arith

other_unacked :
    (j k : Text) (ids : List Text) (m : Message)
    → text_eq j k ≡ false
    → (not (is_acked k ids m) && message_on j m) ≡ message_on j m
unfolding is_acked
other_unacked j k ids m other =
    ground (arith, text_eq_iff m.route_key k, text_eq_iff m.route_key j, text_eq_iff j k)

-- An ack sweeps, and then deletes from its route the messages that are under a lease, live or run
-- out, and whose identifier is listed. It reports how many they were. A copy that was never
-- delivered stays, and so does every message of another route.
pub ack-deletes_leased :
    (st : Store) (k : Text) (ids : List Text) (now : ℕ) (db : Db)
    → let after = swept st.retention_ttl_secs now db in
      let final = (ack healthy st k ids now db).1 in
      (out : AckOutcome) × ((ack healthy st k ids now db).0 ≡ ok out)
      × (queue k final
          ≡ select
              (λ m. message_on k m && not (is_leased m.leased_until && listed ids m.msg_id))
              after.messages)
      × (out.acked + length final.messages ≡ length after.messages)
      × ((j : Text) → text_eq j k ≡ false → queue j final ≡ queue j after)
ack-deletes_leased st k ids now db =
    let after = swept st.retention_ttl_secs now db in
    let e = messages-ack st k ids now db in
    let (out, returned, acked) = acked_count st k ids now db in
    (
      out,
      returned,
      ap (select (message_on k)) e
          ∙ select-select (message_on k) (λ m. not (is_acked k ids m)) after.messages
          ∙ select_congr _ _ after.messages
              (λ m. and_comm (not (is_acked k ids m)) (message_on k m) ∙ unacked_stays k ids m),
      ap₂ ◌+◌ acked (ap length e) ∙ count_where-delete_where (is_acked k ids) after.messages,
      λ j other.
          ap (select (message_on j)) e
          ∙ select-select (message_on j) (λ m. not (is_acked k ids m)) after.messages
          ∙ select_congr _ _ after.messages (λ m. other_unacked j k ids m other),
    )
