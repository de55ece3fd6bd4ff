-- ===== src/Store/Delivery/Prefix.antt =====
-- The rows that `pull` delivers are the first ones that it may deliver.
use qsl_server.Base.{
  ℕ, ◌≤◌, ◌≡◌, refl, ◌∙◌, Bool, true, false, Text, List, [], ◌∷◌, arith, length, take, select,
  take-take_le, length-take_le,
}
use qsl_server.Store.Schema.{Db, Message}
use qsl_server.Store.Pull.{take_budget, deliver, is_visible, saturating_add}

-- The messages of a queue that a pull at this time may deliver, oldest first.
abbrev pub visible : Text → ℕ → Db → List Message
visible k now db = select (is_visible k now) db.messages

pub take_budget-IsPrefix :
    (max_bytes total : ℕ) (started : Bool) (ms : List Message)
    → take_budget max_bytes total started ms
      ≡ take (length (take_budget max_bytes total started ms)) ms
unfolding take_budget
take_budget-IsPrefix mb total started [] = refl
take_budget-IsPrefix mb total started (m ∷ ms) =
    ground (arith, take_budget-IsPrefix mb (saturating_add total (length m.body)) true ms)

length-take_budget :
    (max_bytes total : ℕ) (started : Bool) (ms : List Message)
    → length (take_budget max_bytes total started ms) ≤ length ms
unfolding take_budget
length-take_budget mb total started [] = omega arith
length-take_budget mb total started (m ∷ ms) =
    ground (arith, length-take_budget mb (saturating_add total (length m.body)) true ms)

pub length-deliver :
    (k : Text) (max max_bytes now : ℕ) (db : Db) → length (deliver k max max_bytes now db) ≤ max
unfolding deliver
length-deliver k max mb now db = omega (
  arith,
  length-take_budget mb 0 false (take max (visible k now db)),
  length-take_le max (visible k now db),
)

pub deliver-IsPrefix :
    (k : Text) (max max_bytes now : ℕ) (db : Db)
    → deliver k max max_bytes now db
      ≡ take (length (deliver k max max_bytes now db)) (visible k now db)
deliver-IsPrefix k max mb now db =
    let first : deliver k max mb now db
        ≡ take (length (deliver k max mb now db)) (take max (visible k now db)) =
      unfold deliver in take_budget-IsPrefix mb 0 false (take max (visible k now db)) in
    first
    ∙ take-take_le (length (deliver k max mb now db)) max (visible k now db)
        (length-deliver k max mb now db)
