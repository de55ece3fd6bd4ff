-- ===== src/Store/Slots/Find.antt =====
-- Looking a slot up after each statement.
use qsl_server.Base.{
  Text, ◌≡◌, refl, Bool, true, false, Option, some, List, [], ◌∷◌, ◌++◌, arith, count_where,
  exists_where, find_where, update_where, if◌then◌else◌, ◌==◌,
}
use mathlib.Core.Option
use qsl_server.Store.Schema.{Db, Invite, invite_is, invite_active}
use qsl_server.Store.Invites.{is_active_slot}

abbrev pub slot : Text → Db → Option Invite
slot k db = find_where (invite_is k) db.invites

pub find-update_where :
    (k : Text) (q : Invite → Bool) (f : Invite → Invite) (is : List Invite)
    → ((i : Invite) → (f i).slot_key ≡ i.slot_key)
    → find_where (invite_is k) (update_where q f is)
      ≡ Option.map (λ i. if q i then f i else i) (find_where (invite_is k) is)
find-update_where k q f [] same = refl
find-update_where k q f (i ∷ is) same = ground (arith, find-update_where k q f is same, same i)

pub find-snoc_self :
    (k : Text) (is : List Invite) (i : Invite)
    → exists_where (invite_is k) is ≡ false
    → invite_is k i ≡ true
    → find_where (invite_is k) (is ++ i ∷ []) ≡ some i
find-snoc_self k [] i h e = ground arith
find-snoc_self k (x ∷ is) i h e = ground (arith, find-snoc_self k is i)

pub find_sound :
    (k : Text) (is : List Invite) (i : Invite)
    → find_where (invite_is k) is ≡ some i
    → (invite_is k i ≡ true) × (exists_where (invite_is k) is ≡ true)
find_sound k [] i h = cc
find_sound k (x ∷ is) i h = ground (arith, find_sound k is i)

-- A slot that is found active is met by the compare-and-set.
pub active_is_met :
    (k : Text) (is : List Invite) (i : Invite)
    → find_where (invite_is k) is ≡ some i
    → i.state ≡ invite_active
    → (count_where (is_active_slot k) is == 0) ≡ false
active_is_met k [] i h a = cc
active_is_met k (x ∷ is) i h a = ground (arith, active_is_met k is i)
