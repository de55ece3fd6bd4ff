-- ===== src/Store/Valid/Pushing.antt =====
-- An accepted push keeps the invariant.
use qsl_server.Base.{
  Text, text_eq, text_eq_iff, text_eq_refl, ◌≡◌, ap, inl, inr, true, false, ◌||◌, Bool-cases, All,
  arith, exists_where-snoc,
}
use qsl_server.Store.Schema.{Db, route_is, message_on, has_route}
use qsl_server.Store.Enqueue.{Push, insert_route, insert_message, store_message}
use qsl_server.Store.Valid.Unique.{Unique, Unique-append}
use qsl_server.Store.Valid.Order.{Ordered, Ordered-append}
use qsl_server.Store.Valid.Invariant.{IsValid, Tidy, has_message, touch-IsValid}

pub has_message-insert_message :
    (k : Text) (p : Push) (db : Db)
    → has_message k (insert_message p db) ≡ (has_message k db || text_eq p.route_key k)
unfolding insert_message
has_message-insert_message k p db = exists_where-snoc (message_on k) db.messages _

pub has_route-insert_route :
    (k : Text) (p : Push) (db : Db)
    → has_route k (insert_route p db) ≡ (has_route k db || text_eq p.route_key k)
unfolding insert_route
has_route-insert_route k p db = exists_where-snoc (route_is k) db.routes _

store_message-backed :
    (k : Text) (p : Push) (db : Db)
    → (has_route k db || text_eq p.route_key k) ≡ (has_message k db || text_eq p.route_key k)
    → has_route p.route_key db ≡ true
    → has_route k (insert_message p db) ≡ has_message k (insert_message p db)
store_message-backed k p db backed there = elim (Bool-cases (text_eq p.route_key k)) [
  | inl same ↦ rw (has_message-insert_message k p db) (
      unfold insert_message in
      ground (arith, ap (λ j. has_route j db) ((text_eq_iff p.route_key k).0 same)))
  | inr other ↦ rw (has_message-insert_message k p db) (unfold insert_message in ground arith)
]

insert_message-IsValid :
    (p : Push) (db : Db)
    → ((k : Text)
        → (has_route k db || text_eq p.route_key k) ≡ (has_message k db || text_eq p.route_key k))
    → has_route p.route_key db ≡ true
    → Unique (λ r. r.route_key) db.routes
    → Unique (λ i. i.slot_key) db.invites
    → Ordered 1 db.messages db.next_seq
    → All Tidy db.invites
    → IsValid (insert_message p db)
insert_message-IsValid p db backed there ru su o t = record {
  backed = λ k. store_message-backed k p db (backed k) there;
  routes_unique = unfold insert_message in ru;
  slots_unique = unfold insert_message in su;
  ordered = unfold insert_message in Ordered-append 1 db.messages _ o;
  tidy = unfold insert_message in t;
}

-- On a route that is there.
pub store_message-IsValid :
    (p : Push) (db : Db)
    → has_route p.route_key db ≡ true
    → IsValid db
    → IsValid (store_message p db)
unfolding store_message
store_message-IsValid p db there v = touch-IsValid p.route_key p.now (insert_message p db) (
    insert_message-IsValid p db (λ k. ap (λ b. b || text_eq p.route_key k) (v.backed k)) there
      v.routes_unique v.slots_unique v.ordered v.tidy)

-- On a route that the push creates.
pub store_message-insert_route-IsValid :
    (p : Push) (db : Db)
    → has_route p.route_key db ≡ false
    → IsValid db
    → IsValid (store_message p (insert_route p db))
unfolding store_message
store_message-insert_route-IsValid p db absent v =
    touch-IsValid p.route_key p.now (insert_message p (insert_route p db)) (
      insert_message-IsValid p (insert_route p db)
        (λ k.
          rw (has_route-insert_route k p db) (unfold insert_route in ground (arith, v.backed k)))
        (rw (has_route-insert_route p.route_key p db) (ground (arith, text_eq_refl p.route_key)))
        (unfold insert_route in Unique-append (λ r. r.route_key) db.routes _ absent v.routes_unique)
        (unfold insert_route in v.slots_unique) (unfold insert_route in v.ordered)
        (unfold insert_route in v.tidy))
