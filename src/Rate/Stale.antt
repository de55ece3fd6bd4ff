-- ===== src/Rate/Stale.antt =====
-- What a full bucket admits at one instant.
use native.Mathlib.Nat.{mul-le-mul}
use qsl_server.Base.{
  ℕ, zero, suc, ◌+◌, ◌-◌, ◌*◌, ◌/◌, ◌^◌, ◌≤◌, ◌<◌, ◌≡◌, refl, List, [], ◌∷◌, arith, true,
}
use qsl_server.Config.Limits.{ResourceControls}
use qsl_server.Rate.Bucket.{PushRateBucket, refill, try_consume}
use qsl_server.Rate.Budget.{consumes, spent}

-- The same time, over and over.
abbrev pub repeated : ℕ → ℕ → List ℕ
repeated zero now = []
repeated (suc n) now = now ∷ repeated n now

abbrev pub at_tokens : ℕ → ℕ → PushRateBucket
at_tokens n last = record { tokens = n; last_refill = last }

fresh_step :
    (c : ResourceControls) (now t : ℕ)
    → try_consume c now (at_tokens (suc t) now) ≡ (true, at_tokens t now)
unfolding try_consume refill
fresh_step c now t = ground arith

-- A bucket that was refilled at this instant gives its tokens.
fresh_gives :
    (c : ResourceControls) (now n : ℕ) → (consumes c (at_tokens n now) (repeated n now)).0 ≡ n
unfolding consumes spent
fresh_gives c now zero = refl
fresh_gives c now (suc n) = rw (fresh_step c now n) (omega (arith, fresh_gives c now n))

full_step :
    (c : ResourceControls) (now last b : ℕ)
    → c.push_rate_burst ≡ suc b
    → try_consume c now (at_tokens (suc b) last) ≡ (true, at_tokens b last)
unfolding try_consume refill
full_step c now last b e = ground arith

earned : (x r : ℕ) → 0 < x → 0 < r → 1 ≤ x * r
earned x r h g = omega (arith, one)
  where
    one : 1 * 1 ≤ x * r
    one = mul-le-mul {n₁ = 1} {m₁ = 1} (omega arith) (omega arith)

stale_step :
    (c : ResourceControls) (now last b : ℕ)
    → c.push_rate_burst ≡ suc b
    → 0 < c.push_rate_refill_per_sec
    → suc b < 2 ^ 64
    → last + 1000000000 ≤ now
    → try_consume c now (at_tokens b last) ≡ (true, at_tokens b now)
unfolding try_consume refill
stale_step c now last b e p small old =
    ground (arith, earned ((now - last) / 1000000000) c.push_rate_refill_per_sec (omega arith) p)

-- A bucket with refill that is full, and whose last refill is a second or more ago, admits one call
-- more than its burst at a single instant: the call that finds it full does not move the time of the
-- refill, so the next one still earns the past seconds.
pub full_bucket_admits_extra :
    (c : ResourceControls) (now last : ℕ)
    → 0 < c.push_rate_burst
    → c.push_rate_burst < 2 ^ 64
    → 0 < c.push_rate_refill_per_sec
    → last + 1000000000 ≤ now
    → (consumes c (at_tokens c.push_rate_burst last) (repeated (suc c.push_rate_burst) now)).0
      ≡ suc c.push_rate_burst
unfolding consumes spent
full_bucket_admits_extra c now last p small r old = go c.push_rate_burst refl p small
  where
    go :
        (burst : ℕ)
        → c.push_rate_burst ≡ burst
        → 0 < burst
        → burst < 2 ^ 64
        → (consumes c (at_tokens burst last) (repeated (suc burst) now)).0 ≡ suc burst
    go zero e q s = absurd (omega arith)
    go (suc b) e q s =
        rw (full_step c now last b e)
          (rw (stale_step c now last b e r s old) (omega (arith, fresh_gives c now b)))
