-- ===== src/Store/Valid/Sweeping.antt =====
-- The sweep keeps the invariant.
use qsl_server.Base.{
  ℕ, Text, ◌≡◌, refl, ap, sym, subst, inl, inr, Bool, true, false, not, List, [], ◌∷◌, arith, ◌==◌,
  Bool-cases, exists_where, count_where, delete_where,
}
use qsl_server.Store.Schema.{Db, Message, route_is, message_on, has_route}
use qsl_server.Store.Sweep.{swept, collect, is_expired, delete_expired, delete_empty_routes}
use qsl_server.Store.Valid.Unique.{Unique-select}
use qsl_server.Store.Valid.Order.{Ordered-select}
use qsl_server.Store.Valid.Keys.{route-delete_empty}
use qsl_server.Store.Valid.Cascade.{messages-delete_empty_routes}
use qsl_server.Store.Valid.Invariant.{IsValid, has_message}
use qsl_server.Store.Valid.Slots.{delete_expired_invites-IsValid}

-- Without an expired message the DELETE changes nothing.
pub nothing_expired :
    (p : Message → Bool) (ms : List Message)
    → (count_where p ms == 0) ≡ true
    → delete_where p ms ≡ ms
nothing_expired p [] h = refl
nothing_expired p (m ∷ ms) h = ground (arith, nothing_expired p ms)

delete_expired_none :
    (ttl now : ℕ) (db : Db)
    → (count_where (is_expired ttl now) db.messages == 0) ≡ true
    → delete_expired ttl now db ≡ db
unfolding delete_expired
delete_expired_none ttl now db h =
    ap (λ ms. record db { messages = ms }) (nothing_expired (is_expired ttl now) db.messages h)

-- A message is on a route only if it was before.
pub survivor :
    (k : Text) (p : Message → Bool) (ms : List Message)
    → exists_where (message_on k) (delete_where p ms) ≡ true
    → exists_where (message_on k) ms ≡ true
survivor k p [] h = h
survivor k p (m ∷ ms) h = ground (arith, survivor k p ms)

delete_empty_routes-backed :
    (k : Text) (db after : Db)
    → IsValid db
    → after.routes ≡ db.routes
    → (has_message k after ≡ true → has_message k db ≡ true)
    → has_route k (delete_empty_routes after) ≡ has_message k (delete_empty_routes after)
delete_empty_routes-backed k db after v same fewer = rw (messages-delete_empty_routes after) (
    unfold delete_empty_routes in
    ground (
      arith,
      route-delete_empty after.messages k after.routes,
      v.backed k,
      ap (exists_where (route_is k)) same,
    ))

pub collect_none :
    (ttl now : ℕ) (db : Db)
    → (count_where (is_expired ttl now) db.messages == 0) ≡ true
    → collect ttl now db ≡ delete_expired ttl now db
unfolding collect delete_expired
collect_none ttl now db h = rw h

pub collect_some :
    (ttl now : ℕ) (db : Db)
    → (count_where (is_expired ttl now) db.messages == 0) ≡ false
    → collect ttl now db ≡ delete_empty_routes (delete_expired ttl now db)
unfolding collect delete_empty_routes
collect_some ttl now db h = rw h

collected-IsValid :
    (ttl now : ℕ) (db : Db) → IsValid db → IsValid (delete_empty_routes (delete_expired ttl now db))
collected-IsValid ttl now db v = record {
  backed = λ k.
      delete_empty_routes-backed k db (delete_expired ttl now db) v (unfold delete_expired in refl)
        (unfold delete_expired in survivor k (is_expired ttl now) db.messages);
  routes_unique =
      unfold delete_empty_routes delete_expired in
      Unique-select (λ r. r.route_key) _ db.routes v.routes_unique;
  slots_unique = unfold delete_empty_routes delete_expired in v.slots_unique;
  ordered = rw (messages-delete_empty_routes (delete_expired ttl now db)) (
      unfold delete_empty_routes delete_expired in
      Ordered-select (λ m. not (is_expired ttl now m)) 1 db.messages db.next_seq v.ordered);
  tidy = unfold delete_empty_routes delete_expired in v.tidy;
}

collect-IsValid : (ttl now : ℕ) (db : Db) → IsValid db → IsValid (collect ttl now db)
collect-IsValid ttl now db v =
    elim (Bool-cases (count_where (is_expired ttl now) db.messages == 0)) [
      | inl nothing ↦
          subst IsValid (sym (collect_none ttl now db nothing))
            (subst IsValid (sym (delete_expired_none ttl now db nothing)) v)
      | inr gone ↦
          subst IsValid (sym (collect_some ttl now db gone)) (collected-IsValid ttl now db v)
    ]

-- The sweep keeps the invariant.
pub swept-IsValid : (ttl now : ℕ) (db : Db) → IsValid db → IsValid (swept ttl now db)
unfolding swept
swept-IsValid ttl now db v =
    delete_expired_invites-IsValid now (collect ttl now db) (collect-IsValid ttl now db v)
