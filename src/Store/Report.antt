-- ===== src/Store/Report.antt =====
-- The report of a sweep.
use qsl_server.Base.{
  ℕ, ◌+◌, Text, text_eq_sym, text_eq_iff, ◌≡◌, refl, sym, ap, ◌∙◌, inl, inr, Bool, true, false,
  ◌&&◌, ◌||◌, ◌==◌, List, [], ◌∷◌, arith, length, length-map, All, All-map, Bool-cases,
  exists_where, count_where, count_where-delete_where, delete_where, select,
}
use qsl_server.Store.Schema.{Db, Route, Message, message_on, route_is, delete_routes}
use qsl_server.Store.Sweep.{
  is_expired, expired_by_route, is_empty_route, sweep_stats, swept, collect, delete_expired,
  delete_empty_routes, delete_expired_invites, invite_expired,
}
use qsl_server.Store.Valid.Invariant.{IsValid}
use qsl_server.Store.Valid.Unique.{Unique}
use qsl_server.Store.Valid.Cascade.{has_own_route}
use qsl_server.Store.Queue.View.{messages-swept}
use qsl_server.Store.Slots.Never.{invites-collect}

abbrev pub total : List (Text × ℕ) → ℕ
total [] = 0
total (e ∷ es) = e.1 + total es

count_where-or :
    (p q : Message → Bool) (ms : List Message)
    → ((m : Message) → p m ≡ true → q m ≡ false)
    → count_where (λ m. p m || q m) ms ≡ count_where p ms + count_where q ms
count_where-or p q [] h = omega arith
count_where-or p q (m ∷ ms) h = ground (arith, count_where-or p q ms h, h m)

count_where_congr :
    (p q : Message → Bool) (ms : List Message)
    → All (λ m. p m ≡ q m) ms
    → count_where p ms ≡ count_where q ms
count_where_congr p q [] h = refl
count_where_congr p q (m ∷ ms) h = ground (arith, count_where_congr p q ms h.1)

-- Expired, and on one of the routes.
abbrev owned : ℕ → ℕ → List Route → Message → Bool
owned ttl now rs m = is_expired ttl now m && exists_where (route_is m.route_key) rs

abbrev RoutesDiffer : List Route → Type 0
RoutesDiffer = Unique (λ r. r.route_key)

disjoint :
    (ttl now : ℕ) (r : Route) (rs : List Route) (m : Message)
    → exists_where (route_is r.route_key) rs ≡ false
    → (is_expired ttl now m && message_on r.route_key m) ≡ true
    → owned ttl now rs m ≡ false
disjoint ttl now r rs m new h =
    let same : m.route_key ≡ r.route_key = (text_eq_iff m.route_key r.route_key).0 (ground arith) in
    let absent : exists_where (route_is m.route_key) rs ≡ false =
      ap (λ k. exists_where (route_is k) rs) same ∙ new in
    ground (arith, absent)

none_owned : (ttl now : ℕ) (ms : List Message) → count_where (owned ttl now []) ms ≡ 0
none_owned ttl now [] = refl
none_owned ttl now (m ∷ ms) = ground (arith, none_owned ttl now ms)

total-expired_by_route :
    (ttl now : ℕ) (ms : List Message) (rs : List Route)
    → RoutesDiffer rs
    → total (expired_by_route ttl now ms rs) ≡ count_where (owned ttl now rs) ms
unfolding expired_by_route
total-expired_by_route ttl now ms [] u = sym (none_owned ttl now ms)
total-expired_by_route ttl now ms (r ∷ rs) u =
    let here = count_where (λ m. is_expired ttl now m && message_on r.route_key m) ms in
    let split =
      count_where-or (λ m. is_expired ttl now m && message_on r.route_key m) (owned ttl now rs) ms
        (λ m h. disjoint ttl now r rs m u.0 h) in
    let both : count_where (owned ttl now (r ∷ rs)) ms ≡ here + count_where (owned ttl now rs) ms =
      count_where_congr _ _ ms (everywhere ms) ∙ split in
    ground (arith, both, total-expired_by_route ttl now ms rs u.1)
  where
    everywhere :
        (xs : List Message)
        → All
            (λ m.
              owned ttl now (r ∷ rs) m
              ≡ ((is_expired ttl now m && message_on r.route_key m) || owned ttl now rs m))
            xs
    everywhere [] = tt
    everywhere (x ∷ xs) = (ground (arith, text_eq_sym r.route_key x.route_key), everywhere xs)

-- In a valid store each message has its route.
owned-expired :
    (ttl now : ℕ) (db : Db)
    → IsValid db
    → count_where (owned ttl now db.routes) db.messages
      ≡ count_where (is_expired ttl now) db.messages
owned-expired ttl now db v = count_where_congr _ _ db.messages (
    All-map (λ m h. rw (v.backed m.route_key, h) (ground arith)) db.messages
      (has_own_route db.messages))

removed_keys :
    (ttl now : ℕ) (db : Db)
    → length (sweep_stats ttl now db).removed_route_keys + length (swept ttl now db).routes
      ≡ length db.routes
unfolding sweep_stats swept collect delete_expired delete_expired_invites delete_empty_routes
    delete_routes
removed_keys ttl now db = elim (Bool-cases (count_where (is_expired ttl now) db.messages == 0)) [
  | inl nothing ↦ rw nothing (omega arith)
  | inr some_gone ↦
      let after = delete_where (is_expired ttl now) db.messages in
      rw (some_gone, length-map (select (is_empty_route after) db.routes) (λ r. r.route_key))
        (count_where-delete_where (is_empty_route after) db.routes)
]

-- The report of a sweep is what the sweep does. In a valid store, the number of expired messages is the
-- number of messages that it deletes, and the sum of the numbers that it reports for the routes; it
-- names as many removed routes as it deletes; and it reports as many expired invites as it deletes.
pub sweep_stats-swept :
    (ttl now : ℕ) (db : Db)
    → IsValid db
    → let stats = sweep_stats ttl now db in
      let after = swept ttl now db in
      (stats.expired_messages + length after.messages ≡ length db.messages)
      × (total stats.expired_routes ≡ stats.expired_messages)
      × (length stats.removed_route_keys + length after.routes ≡ length db.routes)
      × (stats.expired_invites + length after.invites ≡ length db.invites)
sweep_stats-swept ttl now db v = (
  unfold sweep_stats in
      ap (λ ms. count_where (is_expired ttl now) db.messages + length ms)
        (messages-swept ttl now db)
      ∙ count_where-delete_where (is_expired ttl now) db.messages,
  unfold sweep_stats in
      total-expired_by_route ttl now db.messages db.routes v.routes_unique
      ∙ owned-expired ttl now db v,
  removed_keys ttl now db,
  unfold sweep_stats swept delete_expired_invites in
      ap
        (λ is.
          count_where (invite_expired now) db.invites
          + length (delete_where (invite_expired now) is))
        (invites-collect ttl now db)
      ∙ count_where-delete_where (invite_expired now) db.invites,
)
