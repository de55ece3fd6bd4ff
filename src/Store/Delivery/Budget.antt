-- ===== src/Store/Delivery/Budget.antt =====
-- How many bytes one pull delivers.
use qsl_server.Base.{
  ℕ, zero, suc, ◌+◌, ◌*◌, ◌^◌, ◌-◌, ◌≤◌, ◌<◌, Text, ◌≡◌, ◌≢◌, refl, ◌⊎◌, inl, inr, Bool, true,
  false, List, [], ◌∷◌, arith, All, All-select, length, take, Bool-cases, ltb,
}
use qsl_server.Store.Schema.{Db, Message}
use qsl_server.Store.Pull.{take_budget, deliver, is_visible, saturating_add}
use qsl_server.Store.Delivery.Prefix.{visible, length-deliver}

abbrev pub bytes : List Message → ℕ
bytes [] = 0
bytes (m ∷ ms) = length m.body + bytes ms

-- usize::MAX
abbrev pub usize_max : ℕ
usize_max = 2 ^ 64 - 1

budget_spent :
    (mb total : ℕ) (ms : List Message)
    → mb < usize_max
    → mb < total
    → take_budget mb total true ms ≡ []
unfolding take_budget
budget_spent mb total [] h g = refl
budget_spent mb total (m ∷ ms) h g = ground arith

budget_left :
    (mb total : ℕ) (ms : List Message)
    → mb < usize_max
    → total ≤ mb
    → total + bytes (take_budget mb total true ms) ≤ mb
unfolding take_budget
budget_left mb total [] h g = omega arith
budget_left mb total (m ∷ ms) h g =
    ground (arith, budget_left mb (saturating_add total (length m.body)) ms h)

started_bounds :
    (mb total : ℕ) (ms : List Message)
    → mb < usize_max
    → (total + bytes (take_budget mb total true ms) ≤ mb) ⊎ (take_budget mb total true ms ≡ [])
started_bounds mb total ms h = elim (Bool-cases (ltb mb total)) [
  | inl spent ↦ inr (budget_spent mb total ms h (ground arith))
  | inr left ↦ inl (budget_left mb total ms h (ground arith))
]

first_bounds :
    (mb : ℕ) (ms : List Message)
    → mb < usize_max
    → (bytes (take_budget mb 0 false ms) ≤ mb) ⊎ (length (take_budget mb 0 false ms) ≤ 1)
unfolding take_budget
first_bounds mb [] h = inr (omega arith)
first_bounds mb (m ∷ ms) h = elim (started_bounds mb (saturating_add 0 (length m.body)) ms h) [
  | inl fits ↦ inl (unfold saturating_add in omega arith)
  | inr spent ↦ inr (rw spent (omega arith))
]

budget_uncut :
    (mb total : ℕ) (started : Bool) (ms : List Message)
    → total + bytes ms ≤ mb
    → take_budget mb total started ms ≡ ms
unfolding take_budget
budget_uncut mb total started [] h = refl
budget_uncut mb total started (m ∷ ms) h =
    ground (arith, budget_uncut mb (saturating_add total (length m.body)) true ms)

deliver_progress :
    (mb max : ℕ) (ms : List Message) → 0 < max → ms ≢ [] → take_budget mb 0 false (take max ms) ≢ []
unfolding take_budget
deliver_progress mb zero ms h g = absurd (omega arith)
deliver_progress mb (suc n) [] h g = absurd (g refl)
deliver_progress mb (suc n) (m ∷ ms) h g = λ e. cc

-- One pull that asks for at least one message, under a budget below `usize::MAX`, delivers at most
-- what it asks for; more than one message only if all together fit the budget; at least one if
-- any is visible; and all that it asks for if together they fit the budget.
pub deliver_budget :
    (k : Text) (max max_bytes now : ℕ) (db : Db)
    → 0 < max
    → max_bytes < usize_max
    → let rows = deliver k max max_bytes now db in
      (length rows ≤ max)
      × ((bytes rows ≤ max_bytes) ⊎ (length rows ≤ 1))
      × (visible k now db ≢ [] → rows ≢ [])
      × (bytes (take max (visible k now db)) ≤ max_bytes → rows ≡ take max (visible k now db))
deliver_budget k max mb now db pos small = (
  length-deliver k max mb now db,
  unfold deliver in first_bounds mb (take max (visible k now db)) small,
  unfold deliver in deliver_progress mb max (visible k now db) pos,
  λ fits. unfold deliver in budget_uncut mb 0 false (take max (visible k now db)) (omega arith),
)

pub bytes-take :
    (n b : ℕ) (ms : List Message) → All (λ m. length m.body ≤ b) ms → bytes (take n ms) ≤ n * b
bytes-take zero b ms h = omega arith
bytes-take (suc n) b [] h = omega arith
bytes-take (suc n) b (m ∷ ms) h = grind (arith, bytes-take n b ms h.1)

-- If no body is longer than `b` and `max` of them fit the budget, a pull is never cut short.
pub deliver_whole_batch :
    (k : Text) (max max_bytes now b : ℕ) (db : Db)
    → All (λ m. length m.body ≤ b) db.messages
    → max * b ≤ max_bytes
    → deliver k max max_bytes now db ≡ take max (visible k now db)
unfolding deliver
deliver_whole_batch k max mb now b db small fits =
    budget_uncut mb 0 false (take max (visible k now db)) (
      omega (
        arith,
        bytes-take max b (visible k now db)
            (All-select (λ m. length m.body ≤ b) (is_visible k now) db.messages small),
      ))
