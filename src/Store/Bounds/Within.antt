-- ===== src/Store/Bounds/Within.antt =====
-- The caps over one transaction.
use qsl_server.Base.{
  ℕ, ◌≤◌, ◌<◌, ◌+◌, Text, text_eq, text_eq_iff, ◌≡◌, refl, ap, subst, false, Option, none, some,
  arith, leb, length, length-snoc, Bool-cases, inl, inr, count_where, count_where-snoc,
  count_where-zero, exists_where, length-update_where, if◌then◌else◌, if◌then◌else◌,
}
use qsl_server.Store.Schema.{
  Db, Store, Invite, SlotReject, has_route, route_is, message_on, invite_is, touch,
}
use qsl_server.Store.Transaction.{committed}
use qsl_server.Store.Sweep.{swept}
use qsl_server.Store.Invites.{NewInvite, invite_create_tx, insert_invite}
use qsl_server.Store.Enqueue.{
  Push, enqueue_slot, admit, place, slot_refusal, store_message, insert_route, insert_message,
  burn_ticket,
}
use qsl_server.Store.Calls.{Call, pushes, creates}
use qsl_server.Store.Valid.Invariant.{IsValid}
use qsl_server.Store.Valid.Slots.{burn_ticket-IsValid}
use qsl_server.Store.Bounds.Shrink.{Shrinks, swept-Shrinks}

-- The caps that the handlers pass: `Limits`, `ResourceControls` and `InviteLimits`.
pub record Caps : Type 0 where
  pub max_queue_depth : ℕ
  pub max_route_count : ℕ
  pub max_slots : ℕ

pub record IsWithin (c : Caps) (db : Db) : Type 0 where
  pub depth : (k : Text) → count_where (message_on k) db.messages ≤ c.max_queue_depth
  pub routes : length db.routes ≤ c.max_route_count
  pub slots : length db.invites ≤ c.max_slots

-- The call is made with these caps.
abbrev pub Uses : Caps → Call → Type 0
Uses c (pushes p) =
    (p.max_queue_depth ≡ c.max_queue_depth) × (p.max_route_count ≡ c.max_route_count)
Uses c (creates n now max_slots) = max_slots ≡ c.max_slots
Uses c _ = Unit

pub Shrinks-IsWithin :
    (c : Caps) (db after : Db) → Shrinks db after → IsWithin c db → IsWithin c after
Shrinks-IsWithin c db after s w = record {
  depth = λ k. omega (arith, s.depth k, w.depth k);
  routes = omega (arith, s.routes, w.routes);
  slots = omega (arith, s.slots, w.slots);
}

depth-store_message :
    (k : Text) (p : Push) (db : Db)
    → count_where (message_on k) (store_message p db).messages
      ≡ count_where (message_on k) db.messages + (if text_eq p.route_key k then 1 else 0)
unfolding store_message insert_message touch
depth-store_message k p db = count_where-snoc (message_on k) db.messages _

store_message-IsWithin :
    (c : Caps) (p : Push) (db : Db)
    → count_where (message_on p.route_key) db.messages < c.max_queue_depth
    → IsWithin c db
    → IsWithin c (store_message p db)
store_message-IsWithin c p db room w = record {
  depth = λ k. ground (
    arith,
    depth-store_message k p db,
    w.depth k,
    ap (λ j. count_where (message_on j) db.messages),
    text_eq_iff p.route_key k,
  );
  routes =
      unfold store_message insert_message touch in
      omega (arith, length-update_where (route_is p.route_key) _ db.routes, w.routes);
  slots = unfold store_message insert_message touch in w.slots;
}

depth_without_route :
    (k : Text) (db : Db)
    → IsValid db
    → has_route k db ≡ false
    → count_where (message_on k) db.messages ≡ 0
depth_without_route k db v absent =
    ground (arith, v.backed k, count_where-zero (message_on k) db.messages)

insert_route-IsWithin :
    (c : Caps) (p : Push) (db : Db)
    → length db.routes < c.max_route_count
    → IsWithin c db
    → IsWithin c (insert_route p db)
unfolding insert_route
insert_route-IsWithin c p db room w = record {
  depth = w.depth;
  routes = omega (arith, length-snoc db.routes);
  slots = w.slots;
}

room_left : (cap n : ℕ) → leb cap n ≡ false → n < cap
room_left cap n h = ground arith

place-IsWithin :
    (c : Caps) (p : Push) (db : Db)
    → 0 < c.max_queue_depth
    → Uses c (pushes p)
    → IsValid db
    → IsWithin c db
    → IsWithin c (committed (place p db).1 db)
unfolding place
place-IsWithin c p db pos uses v w = elim (Bool-cases (has_route p.route_key db)) [
  | inl there ↦
      elim (Bool-cases (leb p.max_queue_depth (count_where (message_on p.route_key) db.messages))) [
        | inl full ↦ rw (there, full) w
        | inr room ↦
            rw (there, room)
              (store_message-IsWithin c p db
                (omega (arith, room_left p.max_queue_depth _ room, uses.0)) w)
      ]
  | inr absent ↦ elim (Bool-cases (leb p.max_route_count (length db.routes))) [
    | inl full ↦ rw (absent, full) w
    | inr room ↦
        rw (absent, room)
          (store_message-IsWithin c p (insert_route p db)
            (unfold insert_route in omega (arith, depth_without_route p.route_key db v absent))
            (insert_route-IsWithin c p db
              (omega (arith, room_left p.max_route_count _ room, uses.1)) w))
  ]
]

burn_ticket-IsWithin :
    (c : Caps) (k : Text) (db : Db) → IsWithin c db → IsWithin c (burn_ticket k db)
unfolding burn_ticket
burn_ticket-IsWithin c k db w = record {
  depth = w.depth;
  routes = w.routes;
  slots = omega (arith, length-update_where (invite_is k) _ db.invites, w.slots);
}

pub enqueue_slot-IsWithin :
    (c : Caps) (p : Push) (db : Db) (slot : Option Invite)
    → 0 < c.max_queue_depth
    → Uses c (pushes p)
    → IsValid db
    → IsWithin c db
    → IsWithin c (committed (enqueue_slot p db slot).1 db)
unfolding enqueue_slot
enqueue_slot-IsWithin c p db none pos uses v w = place-IsWithin c p db pos uses v w
enqueue_slot-IsWithin c p db (some i) pos uses v w = go (slot_refusal p i)
  where
    burned : Db
    burned = burn_ticket p.route_key db

    placed : (r : Option Db) → (place p burned).1 ≡ r → IsWithin c (committed r db)
    placed none e = w
    placed (some after) e =
        subst (λ r. IsWithin c (committed r burned)) e
          (place-IsWithin c p burned pos uses (burn_ticket-IsValid p.route_key db v)
            (burn_ticket-IsWithin c p.route_key db w))

    go : (r : Option SlotReject) → IsWithin c (committed (admit p db r).1 db)
    go none = unfold admit in placed (place p burned).1 refl
    go (some reason) = unfold admit in w

pub invite_create_tx-IsWithin :
    (c : Caps) (st : Store) (n : NewInvite) (now max_slots : ℕ) (db : Db)
    → max_slots ≡ c.max_slots
    → IsWithin c db
    → IsWithin c (committed (invite_create_tx st n now max_slots db).1 db)
unfolding invite_create_tx
invite_create_tx-IsWithin c st n now max_slots db same w =
    elim (Bool-cases (exists_where (invite_is n.slot_key) after.invites)) [
      | inl there ↦ rw there w
      | inr absent ↦ elim (Bool-cases (leb max_slots (length after.invites))) [
        | inl full ↦ rw (absent, full) w
        | inr room ↦
            rw (absent, room)
              (unfold insert_invite in
                record {
                  depth = fewer.depth;
                  routes = fewer.routes;
                  slots = omega (arith, length-snoc after.invites, room_left max_slots _ room);
                })
      ]
    ]
  where
    after : Db
    after = swept st.retention_ttl_secs now db

    fewer : IsWithin c after
    fewer = Shrinks-IsWithin c db after (swept-Shrinks st.retention_ttl_secs now db) w
