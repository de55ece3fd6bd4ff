-- ===== src/Store/Valid/Draining.antt =====
-- Deleting messages of one route, and then the route if it is empty, keeps the invariant.
use qsl_server.Base.{
  ℕ, Text, text_eq, text_eq_iff, text_eq_sym, ◌≡◌, refl, sym, subst, ap, ◌∙◌, Bool, true, false,
  not, List, [], ◌∷◌, arith, All, Bool-cases, inl, inr, ◌==◌, exists_where, count_where,
  count_where-zero, delete_where,
}
use qsl_server.Store.Schema.{Db, Message, route_is, message_on, has_route, delete_routes}
use qsl_server.Store.Pull.{settle}
use qsl_server.Store.Ack.{drain}
use qsl_server.Store.Valid.Unique.{Unique-select}
use qsl_server.Store.Valid.Order.{Ordered, Ordered-select}
use qsl_server.Store.Valid.Keys.{route-delete_where}
use qsl_server.Store.Valid.Cascade.{messages-delete_route}
use qsl_server.Store.Valid.Sweeping.{survivor}
use qsl_server.Store.Valid.Invariant.{
  IsValid, Tidy, RoutesUnique, SlotsUnique, has_message, touch-IsValid,
}

-- Valid but for the route `k`, which may have lost its last message.
pub record IsNearlyValid (k : Text) (db : Db) : Type 0 where
  pub others : (j : Text) → text_eq j k ≡ false → has_route j db ≡ has_message j db
  pub own : has_message k db ≡ true → has_route k db ≡ true
  pub routes_unique : RoutesUnique db
  pub slots_unique : SlotsUnique db
  pub ordered : Ordered 1 db.messages db.next_seq
  pub tidy : All Tidy db.invites

other_messages :
    (j k : Text) (p : Message → Bool) (ms : List Message)
    → ((m : Message) → p m ≡ true → message_on j m ≡ false)
    → exists_where (message_on j) (delete_where p ms) ≡ exists_where (message_on j) ms
other_messages j k p [] h = refl
other_messages j k p (m ∷ ms) h = ground (arith, other_messages j k p ms h, h m)

pub fewer_messages-IsNearlyValid :
    (k : Text) (ms : List Message) (db : Db)
    → ((j : Text) → text_eq j k ≡ false → exists_where (message_on j) ms ≡ has_message j db)
    → (exists_where (message_on k) ms ≡ true → has_message k db ≡ true)
    → Ordered 1 ms db.next_seq
    → IsValid db
    → IsNearlyValid k (record db { messages = ms })
fewer_messages-IsNearlyValid k ms db others own o v = record {
  others = λ j ne. v.backed j ∙ sym (others j ne);
  own = λ h. v.backed k ∙ own h;
  routes_unique = v.routes_unique;
  slots_unique = v.slots_unique;
  ordered = o;
  tidy = v.tidy;
}

-- A DELETE that meets messages of `k` only.
pub delete_messages-IsNearlyValid :
    (k : Text) (p : Message → Bool) (db : Db)
    → ((m : Message) → p m ≡ true → message_on k m ≡ true)
    → IsValid db
    → IsNearlyValid k (record db { messages = delete_where p db.messages })
delete_messages-IsNearlyValid k p db only v =
    fewer_messages-IsNearlyValid k (delete_where p db.messages) db
      (λ j ne. other_messages j k p db.messages λ m h.
        ground
          (arith, only m h, text_eq_iff m.route_key k, text_eq_iff m.route_key j, text_eq_iff j k))
      (survivor k p db.messages)
      (Ordered-select (λ m. not (p m)) 1 db.messages db.next_seq v.ordered) v

nonempty-IsValid : (k : Text) (db : Db) → has_message k db ≡ true → IsNearlyValid k db → IsValid db
nonempty-IsValid k db h v = record {
  backed = λ j. elim (Bool-cases (text_eq j k)) [
    | inl same ↦
        subst (λ i. has_route i db ≡ has_message i db) (sym ((text_eq_iff j k).0 same))
          (v.own h ∙ sym h)
    | inr other ↦ v.others j other
  ];
  routes_unique = v.routes_unique;
  slots_unique = v.slots_unique;
  ordered = v.ordered;
  tidy = v.tidy;
}

backed-delete_route :
    (k j : Text) (db : Db)
    → has_message k db ≡ false
    → IsNearlyValid k db
    → has_route j (delete_routes (route_is k) db) ≡ has_message j (delete_routes (route_is k) db)
backed-delete_route k j db h v = elim (Bool-cases (text_eq j k)) [
  | inl same ↦ rw (messages-delete_route k db h) (
      unfold delete_routes in
      ground (
        arith,
        route-delete_where k j db.routes,
        text_eq_sym k j,
        ap (λ i. has_message i db) ((text_eq_iff j k).0 same),
      ))
  | inr other ↦ rw (messages-delete_route k db h) (
      unfold delete_routes in
      ground (arith, route-delete_where k j db.routes, text_eq_sym k j, v.others j other))
]

empty-IsValid :
    (k : Text) (db : Db)
    → has_message k db ≡ false
    → IsNearlyValid k db
    → IsValid (delete_routes (route_is k) db)
empty-IsValid k db h v = record {
  backed = λ j. backed-delete_route k j db h v;
  routes_unique =
      unfold delete_routes in
      Unique-select (λ r. r.route_key) (λ r. not (route_is k r)) db.routes v.routes_unique;
  slots_unique = unfold delete_routes in v.slots_unique;
  ordered = rw (messages-delete_route k db h) (unfold delete_routes in v.ordered);
  tidy = unfold delete_routes in v.tidy;
}

emptied : (b : Bool) (n : Bool) → n ≡ not b → n ≡ true → b ≡ false
emptied b n e h = ground arith

not_emptied : (b : Bool) (n : Bool) → n ≡ not b → n ≡ false → b ≡ true
not_emptied b n e h = ground arith

pub settle-IsValid :
    (k : Text) (now : ℕ) (db : Db) → IsNearlyValid k db → IsValid (settle k now db).1
unfolding settle
settle-IsValid k now db v = elim (Bool-cases (count_where (message_on k) db.messages == 0)) [
  | inl none_left ↦
      rw none_left
        (empty-IsValid k db (emptied _ _ (count_where-zero (message_on k) db.messages) none_left) v)
  | inr some_left ↦ rw some_left (
      touch-IsValid k now db (
        nonempty-IsValid k db
          (not_emptied _ _ (count_where-zero (message_on k) db.messages) some_left) v))
]

pub drain-IsValid : (k : Text) (db : Db) → IsNearlyValid k db → IsValid (drain k db).1
unfolding drain
drain-IsValid k db v = elim (Bool-cases (count_where (message_on k) db.messages == 0)) [
  | inl none_left ↦
      rw none_left
        (empty-IsValid k db (emptied _ _ (count_where-zero (message_on k) db.messages) none_left) v)
  | inr some_left ↦ rw some_left (
      nonempty-IsValid k db
        (not_emptied _ _ (count_where-zero (message_on k) db.messages) some_left) v)
]
