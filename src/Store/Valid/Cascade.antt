-- ===== src/Store/Valid/Cascade.antt =====
-- The relay deletes a route only when it has no message, so ON DELETE CASCADE deletes none.
use qsl_server.Base.{
  Text, text_eq, text_eq_iff, text_eq_refl, ◌≡◌, refl, ap, true, false, ◌&&◌, List, [], ◌∷◌, arith,
  All, All-map, exists_where, delete_where_none, All-not-exists_where, inl, inr, Bool-cases,
}
use qsl_server.Store.Schema.{Db, Route, Message, route_is, message_on, delete_routes}
use qsl_server.Store.Sweep.{is_empty_route, delete_empty_routes}

no_empty_route_with_message :
    (ms : List Message) (k : Text) (rs : List Route)
    → exists_where (message_on k) ms ≡ true
    → exists_where (λ r. is_empty_route ms r && text_eq r.route_key k) rs ≡ false
no_empty_route_with_message ms k [] h = refl
no_empty_route_with_message ms k (r ∷ rs) h = elim (Bool-cases (text_eq r.route_key k)) [
  | inl same ↦
      let e : r.route_key ≡ k = (text_eq_iff r.route_key k).0 same in
      ground
        (arith, no_empty_route_with_message ms k rs h, ap (λ j. exists_where (message_on j) ms) e)
  | inr other ↦ ground (arith, no_empty_route_with_message ms k rs h)
]

-- Each message is a message on its own route.
pub has_own_route :
    (ms : List Message) → All (λ m. exists_where (message_on m.route_key) ms ≡ true) ms
has_own_route [] = tt
has_own_route (m ∷ ms) =
    (ground (arith, text_eq_refl m.route_key), All-map (λ x h. ground arith) ms (has_own_route ms))

pub messages-delete_empty_routes : (db : Db) → (delete_empty_routes db).messages ≡ db.messages
unfolding delete_empty_routes
messages-delete_empty_routes db = delete_where_none _ db.messages (
    All-map (λ m h. no_empty_route_with_message db.messages m.route_key db.routes h) db.messages
      (has_own_route db.messages))

other_route :
    (k j : Text) (rs : List Route)
    → text_eq j k ≡ false
    → exists_where (λ r. route_is k r && text_eq r.route_key j) rs ≡ false
other_route k j [] h = refl
other_route k j (r ∷ rs) h = ground (
  arith,
  other_route k j rs h,
  text_eq_iff r.route_key k,
  text_eq_iff r.route_key j,
  text_eq_iff j k,
)

pub messages-delete_route :
    (k : Text) (db : Db)
    → exists_where (message_on k) db.messages ≡ false
    → (delete_routes (route_is k) db).messages ≡ db.messages
unfolding delete_routes
messages-delete_route k db h = delete_where_none _ db.messages (
    All-map (λ m e. other_route k m.route_key db.routes e) db.messages
      (All-not-exists_where (message_on k) db.messages h))
