-- ===== src/Rate/Bucket.antt =====
-- src/lib.rs: `PushRateBucket`. An `Instant` is a number of nanoseconds; a difference that would be
-- negative counts as zero. A `usize` has 64 bits, and its arithmetic saturates.
use qsl_server.Base.{
  ℕ, ◌+◌, ◌-◌, ◌*◌, ◌/◌, ◌^◌, min, Bool, true, false, ◌||◌, leb, ◌==◌, if◌then◌else◌,
}
use qsl_server.Config.Limits.{ResourceControls}

pub record PushRateBucket : Type 0 where
  pub tokens : ℕ
  pub last_refill : ℕ

abbrev pub usize_max : ℕ
usize_max = 2 ^ 64 - 1

abbrev pub saturating_mul : ℕ → ℕ → ℕ
saturating_mul a b = min (a * b) usize_max

abbrev pub saturating_add : ℕ → ℕ → ℕ
saturating_add a b = min (a + b) usize_max

-- checked_duration_since(..).unwrap_or(Duration::ZERO).as_secs()
abbrev pub elapsed_secs : ℕ → ℕ → ℕ
elapsed_secs last now = (now - last) / 1000000000

-- PushRateBucket::new
unfoldable pub new_bucket : ℕ → ResourceControls → PushRateBucket
new_bucket now controls = record { tokens = controls.push_rate_burst; last_refill = now }

unfoldable pub refill : ResourceControls → ℕ → PushRateBucket → PushRateBucket
refill controls now b =
    if (controls.push_rate_refill_per_sec == 0) || leb controls.push_rate_burst b.tokens
    then b
    else if elapsed_secs b.last_refill now == 0
    then b
    else record {
      tokens =
          min
            (saturating_add b.tokens
              (saturating_mul (elapsed_secs b.last_refill now) controls.push_rate_refill_per_sec))
            controls.push_rate_burst;
      last_refill = now;
    }

abbrev take_token : PushRateBucket → Bool × PushRateBucket
take_token b =
    if b.tokens == 0
    then (false, b)
    else (true, record { tokens = b.tokens - 1; last_refill = b.last_refill })

unfoldable pub try_consume : ResourceControls → ℕ → PushRateBucket → Bool × PushRateBucket
unfolding refill
try_consume controls now b = take_token (refill controls now b)
