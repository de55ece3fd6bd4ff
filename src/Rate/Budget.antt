-- ===== src/Rate/Budget.antt =====
-- What a token bucket admits over any sequence of calls.
use native.Mathlib.Nat.{add-mul, mul-le-mul_right}
use qsl_server.Base.{
  ℕ, ◌+◌, ◌-◌, ◌*◌, ◌/◌, ◌≤◌, Bool, true, false, arith, List, [], ◌∷◌, All, subst,
}
use qsl_server.Config.Limits.{ResourceControls}
use qsl_server.Rate.Bucket.{PushRateBucket, refill, try_consume}

unfoldable pub spent : Bool → ℕ
spent true = 1
spent false = 0

-- The calls of `try_consume` at the given times: how many succeed, and the bucket they leave.
unfoldable pub consumes : ResourceControls → PushRateBucket → List ℕ → ℕ × PushRateBucket
unfolding try_consume spent
consumes controls b [] = (0, b)
consumes controls b (now ∷ times) =
    let (admitted, after) = try_consume controls now b in
    let (count, last) = consumes controls after times in (spent admitted + count, last)

-- The tokens of a bucket never exceed the burst.
pub try_consume-burst :
    (c : ResourceControls) (now : ℕ) (b : PushRateBucket)
    → b.tokens ≤ c.push_rate_burst
    → (try_consume c now b).1.tokens ≤ c.push_rate_burst
unfolding try_consume refill
try_consume-burst c now b h = ground arith

-- The time of a bucket's last refill never goes back.
pub try_consume-time :
    (c : ResourceControls) (now : ℕ) (b : PushRateBucket)
    → b.last_refill ≤ (try_consume c now b).1.last_refill
unfolding try_consume refill
try_consume-time c now b = ground arith

-- A call spends a token or none, and gains at most the seconds that passed times the rate.
pub try_consume-balance :
    (c : ResourceControls) (now : ℕ) (b : PushRateBucket)
    → spent (try_consume c now b).0 + (try_consume c now b).1.tokens
      ≤ b.tokens
        + ((try_consume c now b).1.last_refill - b.last_refill)
          / 1000000000
          * c.push_rate_refill_per_sec
unfolding try_consume refill spent
try_consume-balance c now b = ground arith

-- It stays at or before any time that it and the call stand at or before.
try_consume-until :
    (c : ResourceControls) (now t : ℕ) (b : PushRateBucket)
    → b.last_refill ≤ t
    → now ≤ t
    → (try_consume c now b).1.last_refill ≤ t
unfolding try_consume refill
try_consume-until c now t b h g = ground arith

-- Whole seconds of two stretches are at most those of both together.
stretches :
    (a b c r : ℕ)
    → a ≤ b
    → b ≤ c
    → (b - a) / 1000000000 * r + (c - b) / 1000000000 * r ≤ (c - a) / 1000000000 * r
stretches a b c r h g =
    subst (λ x. x ≤ (c - a) / 1000000000 * r)
      (add-mul ((b - a) / 1000000000) ((c - b) / 1000000000) r) (mul-le-mul_right r (omega arith))

-- Calls at times up to `t` succeed at most as often as the bucket has tokens, and once more for each
-- token that the seconds from its last refill to `t` bring.
pub consumes_budget :
    (c : ResourceControls) (t : ℕ) (times : List ℕ) (b : PushRateBucket)
    → All (λ now. now ≤ t) times
    → b.last_refill ≤ t
    → (consumes c b times).0
      ≤ b.tokens + (t - b.last_refill) / 1000000000 * c.push_rate_refill_per_sec
unfolding consumes
consumes_budget c t [] b h g = omega arith
consumes_budget c t (now ∷ times) b h g =
    let after = (try_consume c now b).1 in
    let until = try_consume-until c now t b g h.0 in
    let rest = consumes_budget c t times after h.1 until in
    let one = try_consume-balance c now b in
    let gap =
      stretches b.last_refill after.last_refill t c.push_rate_refill_per_sec
        (try_consume-time c now b) until in
    omega (arith, rest, one, gap)
