-- ===== src/Store/Valid/Acking.antt =====
-- An ack keeps the invariant.
use qsl_server.Base.{
  ℕ, Text, ◌≡◌, ap, sym, subst, true, List, arith, ◌==◌, Bool-cases, inl, inr, count_where,
}
use qsl_server.Store.Schema.{Db, Store}
use qsl_server.Store.Sweep.{swept}
use qsl_server.Store.Transaction.{committed}
use qsl_server.Store.Ack.{is_acked, delete_acked, ack_tx}
use qsl_server.Store.Valid.Sweeping.{swept-IsValid, nothing_expired}
use qsl_server.Store.Valid.Invariant.{IsValid}
use qsl_server.Store.Valid.Draining.{IsNearlyValid, delete_messages-IsNearlyValid, drain-IsValid}

delete_acked-IsNearlyValid :
    (k : Text) (ids : List Text) (db : Db) → IsValid db → IsNearlyValid k (delete_acked k ids db)
unfolding delete_acked
delete_acked-IsNearlyValid k ids db v =
    delete_messages-IsNearlyValid k (is_acked k ids) db (λ m h. unfold is_acked in ground arith) v

-- An ack of nothing changes nothing.
pub delete_acked_none :
    (k : Text) (ids : List Text) (db : Db)
    → (count_where (is_acked k ids) db.messages == 0) ≡ true
    → delete_acked k ids db ≡ db
unfolding delete_acked
delete_acked_none k ids db h =
    ap (λ ms. record db { messages = ms }) (nothing_expired (is_acked k ids) db.messages h)

pub ack_tx-IsValid :
    (st : Store) (k : Text) (ids : List Text) (now : ℕ) (db : Db)
    → IsValid db
    → IsValid (committed (ack_tx st k ids now db).1 db)
ack_tx-IsValid st k ids now db v =
    elim (Bool-cases (count_where (is_acked k ids) after.messages == 0)) [
      | inl nothing ↦
          unfold ack_tx in
          rw nothing (subst IsValid (sym (delete_acked_none k ids after nothing)) v')
      | inr some_acked ↦
          unfold ack_tx in
          rw some_acked
            (drain-IsValid k (delete_acked k ids after) (delete_acked-IsNearlyValid k ids after v'))
    ]
  where
    after : Db
    after = swept st.retention_ttl_secs now db

    v' : IsValid after
    v' = swept-IsValid st.retention_ttl_secs now db v
