-- ===== src/Store/Valid/Keys.antt =====
-- Which keys the routes and the messages have after each statement.
use qsl_server.Base.{
  Text, text_eq, text_eq_iff, ◌≡◌, refl, false, ◌&&◌, List, [], ◌∷◌, arith, if◌then◌else◌,
  exists_where, delete_where, ap, inl, inr, Bool-cases,
}
use qsl_server.Store.Schema.{Route, Message, route_is, message_on}
use qsl_server.Store.Sweep.{is_empty_route}

pub route-delete_where :
    (j k : Text) (rs : List Route)
    → exists_where (route_is k) (delete_where (route_is j) rs)
      ≡ (if text_eq j k then false else exists_where (route_is k) rs)
route-delete_where j k [] = ground arith
route-delete_where j k (r ∷ rs) = ground (
  arith,
  route-delete_where j k rs,
  text_eq_iff r.route_key k,
  text_eq_iff r.route_key j,
  text_eq_iff j k,
)

pub route-delete_empty :
    (ms : List Message) (k : Text) (rs : List Route)
    → exists_where (route_is k) (delete_where (is_empty_route ms) rs)
      ≡ (exists_where (route_is k) rs && exists_where (message_on k) ms)
route-delete_empty ms k [] = refl
route-delete_empty ms k (r ∷ rs) = elim (Bool-cases (text_eq r.route_key k)) [
  | inl same ↦
      let e : r.route_key ≡ k = (text_eq_iff r.route_key k).0 same in
      ground (arith, route-delete_empty ms k rs, ap (λ j. exists_where (message_on j) ms) e)
  | inr other ↦ ground (arith, route-delete_empty ms k rs)
]
