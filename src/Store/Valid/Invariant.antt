-- ===== src/Store/Valid/Invariant.antt =====
-- What every reachable state of the tables satisfies.
use qsl_server.Base.{
  ℕ, Text, ◌≡◌, refl, ◌⊎◌, Bool, none, [], arith, All, exists_where, exists_where-update_where,
}
use qsl_server.Store.Schema.{
  Db, Invite, fresh, route_is, message_on, has_route, touch, invite_active, invite_consumed,
  invite_revoked,
}
use qsl_server.Store.Valid.Unique.{Unique, Unique-update_where}
use qsl_server.Store.Valid.Order.{Ordered}

abbrev pub has_message : Text → Db → Bool
has_message k db = exists_where (message_on k) db.messages

-- Only an active slot has blobs, and only a consumed one has a ticket.
abbrev pub Tidy : Invite → Type 0
Tidy i =
    ((i.state ≡ invite_active) × (i.ticket_hash ≡ none))
    ⊎ ((i.state ≡ invite_consumed) × (i.bundle ≡ []) × (i.invite_sig ≡ []))
    ⊎ ((i.state ≡ invite_revoked) × (i.bundle ≡ []) × (i.invite_sig ≡ []) × (i.ticket_hash ≡ none))

abbrev pub RoutesUnique : Db → Type 0
RoutesUnique db = Unique (λ r. r.route_key) db.routes

abbrev pub SlotsUnique : Db → Type 0
SlotsUnique db = Unique (λ i. i.slot_key) db.invites

-- `backed` is the foreign key and its converse: a key has a route exactly while it has a message.
pub record IsValid (db : Db) : Type 0 where
  pub backed : (k : Text) → has_route k db ≡ has_message k db
  pub routes_unique : RoutesUnique db
  pub slots_unique : SlotsUnique db
  pub ordered : Ordered 1 db.messages db.next_seq
  pub tidy : All Tidy db.invites

pub fresh-IsValid : IsValid fresh
fresh-IsValid = record {
  backed = λ k. refl;
  routes_unique = tt;
  slots_unique = tt;
  ordered = omega arith;
  tidy = tt;
}

pub has_route-touch :
    (j k : Text) (now : ℕ) (db : Db) → has_route k (touch j now db) ≡ has_route k db
unfolding touch
has_route-touch j k now db =
    exists_where-update_where (route_is k) (route_is j) (λ r. record r { last_touched = now })
      db.routes (λ r. refl)

pub touch-IsValid : (k : Text) (now : ℕ) (db : Db) → IsValid db → IsValid (touch k now db)
unfolding touch
touch-IsValid k now db v = record {
  backed = λ j. unfold touch in rw (has_route-touch k j now db) (v.backed j);
  routes_unique =
      Unique-update_where (λ r. r.route_key) (route_is k) (λ r. record r { last_touched = now })
        db.routes (λ r. refl) v.routes_unique;
  slots_unique = v.slots_unique;
  ordered = v.ordered;
  tidy = v.tidy;
}
