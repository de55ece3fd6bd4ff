-- ===== src/Store/Keyed.antt =====
-- The keys of the tables: no transaction stores one that it is not given.
use qsl_server.Base.{◌≡◌, refl, Bool, true, false, not, exists_where}
use qsl_server.Secrets.Hex.{is_hex}
use qsl_server.Store.Schema.{Db, Store, Message, Invite, fresh}
use qsl_server.Store.Transaction.{Fault}
use qsl_server.Store.Calls.{
  Call, sweeps, statuses, pushes, pulls, acks, creates, redeems, revokes, step,
}
use qsl_server.Store.Slots.Never.{Harmless, step-Never}
use qsl_server.Store.Queue.Absent.{Foreign, step-Absent}

abbrev raw_message : Message → Bool
raw_message m = not (is_hex m.route_key)

abbrev raw_slot : Invite → Bool
raw_slot i = not (is_hex i.slot_key)

-- Every key of a message and of an invite slot is a text of hexadecimal digits.
pub record IsKeyed (db : Db) : Type 0 where
  pub messages : exists_where raw_message db.messages ≡ false
  pub slots : exists_where raw_slot db.invites ≡ false

-- A key that the call brings is one.
abbrev pub Hashed : Call → Type 0
Hashed (pushes p) = is_hex p.route_key ≡ true
Hashed (creates n now max_slots) = is_hex n.slot_key ≡ true
Hashed _ = Unit

foreign : (c : Call) (db : Db) → Hashed c → Foreign raw_message c db
foreign (sweeps now) db u = tt
foreign (statuses k now) db u = tt
foreign (pushes p) db u = rw u
foreign (pulls k max max_bytes now mode) db u = tt
foreign (acks k ids now) db u = tt
foreign (creates n now max_slots) db u = tt
foreign (redeems k now th verify) db u = tt
foreign (revokes k verify) db u = tt

harmless : (c : Call) → Hashed c → Harmless raw_slot c
harmless (sweeps now) u = tt
harmless (statuses k now) u = tt
harmless (pushes p) u = tt
harmless (pulls k max max_bytes now mode) u = tt
harmless (acks k ids now) u = tt
harmless (creates n now max_slots) u = rw u
harmless (redeems k now th verify) u = λ i active hexed. hexed
harmless (revokes k verify) u = tt

pub step-IsKeyed :
    (st : Store) (f : Fault) (c : Call) (db : Db) → Hashed c → IsKeyed db → IsKeyed (step st f c db)
step-IsKeyed st f c db u h = record {
  messages =
      step-Absent raw_message (λ deadline m hexed. hexed) st f c db (foreign c db u) h.messages;
  slots =
      step-Never raw_slot (λ i hexed. hexed) (λ i hexed. hexed) st f c db (harmless c u) h.slots;
}

pub fresh-IsKeyed : IsKeyed fresh
fresh-IsKeyed = record { messages = refl; slots = refl }
