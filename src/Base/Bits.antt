-- ===== src/Base/Bits.antt =====
-- Laws of the bit operations that base64 and the secret comparison use. The native operations run
-- over the binary digits, lowest first, with the first number for fuel.
use Prim.Native.Nat.{
  ℕ, zero, suc, ◌+◌, ◌-◌, ◌*◌, ◌/◌, ◌%◌, ◌^◌, ◌≤◌, ◌<◌, min, max, digits, differ, bit_and, bit_or,
  bit_xor, bit_and-bitwise, bit_or-bitwise, bit_xor-bitwise,
}
use native.Mathlib.Nat.{pow-suc, one-le-pow}
use native.Mathlib.Omega.{arith}
use mathlib.Core.Logic.{◌↔◌}
use mathlib.Core.Path.{◌≡◌, refl, ap, ◌∙◌, sym}

module _ (rest : ℕ → ℕ) (op : ℕ → ℕ → ℕ) where
  enough_fuel : (n m a b : ℕ) → a ≤ n → a ≤ m → digits rest op n a b ≡ digits rest op m a b
  enough_fuel zero zero a b h g = refl
  enough_fuel n m zero b h g = by_fuel n m
    where
      one : (n : ℕ) → digits rest op n zero b ≡ rest b
      one zero = refl
      one (suc n) = refl

      by_fuel : (n m : ℕ) → digits rest op n zero b ≡ digits rest op m zero b
      by_fuel n m = one n ∙ sym (one m)
  enough_fuel zero m (suc a) b h g = absurd (omega arith)
  enough_fuel (suc n) zero (suc a) b h g = absurd (omega arith)
  enough_fuel (suc n) (suc m) (suc a) b h g =
      ap (λ (t : ℕ). t * 2 + op (suc a % 2) (b % 2))
        (enough_fuel n m (suc a / 2) (b / 2) (omega arith) (omega arith))

  -- One digit off, the fuel kept at the first number.
  low_digit :
      (a b : ℕ)
      → digits rest op (suc a) (suc a) b
        ≡ digits rest op (suc a / 2) (suc a / 2) (b / 2) * 2 + op (suc a % 2) (b % 2)
  low_digit a b =
      ap (λ (t : ℕ). t * 2 + op (suc a % 2) (b % 2))
        (enough_fuel a (suc a / 2) (suc a / 2) (b / 2) (omega arith) (omega arith))

or_digit : (a b : ℕ) → bit_or a b ≡ bit_or (a / 2) (b / 2) * 2 + max (a % 2) (b % 2)
or_digit zero b = omega (arith, bit_or-bitwise 0 b, bit_or-bitwise 0 (b / 2))
or_digit (suc a) b = omega (
  arith,
  bit_or-bitwise (suc a) b,
  bit_or-bitwise (suc a / 2) (b / 2),
  low_digit (λ y. y) max a b,
)

and_digit : (a b : ℕ) → bit_and a b ≡ bit_and (a / 2) (b / 2) * 2 + min (a % 2) (b % 2)
and_digit zero b = omega (arith, bit_and-bitwise 0 b, bit_and-bitwise 0 (b / 2))
and_digit (suc a) b = omega (
  arith,
  bit_and-bitwise (suc a) b,
  bit_and-bitwise (suc a / 2) (b / 2),
  low_digit (λ y. 0) min a b,
)

xor_digit : (a b : ℕ) → bit_xor a b ≡ bit_xor (a / 2) (b / 2) * 2 + differ (a % 2) (b % 2)
xor_digit zero b = omega (arith, bit_xor-bitwise 0 b, bit_xor-bitwise 0 (b / 2))
xor_digit (suc a) b = omega (
  arith,
  bit_xor-bitwise (suc a) b,
  bit_xor-bitwise (suc a / 2) (b / 2),
  low_digit (λ y. y) differ a b,
)

or_nothing : (n a : ℕ) → a ≤ n → bit_or a 0 ≡ a
or_nothing n zero h = bit_or-bitwise 0 0
or_nothing zero (suc a) h = absurd (omega arith)
or_nothing (suc n) (suc a) h =
    omega (arith, or_digit (suc a) 0, or_nothing n (suc a / 2) (omega arith))

and_nothing : (n a : ℕ) → a ≤ n → bit_and a 0 ≡ 0
and_nothing n zero h = bit_and-bitwise 0 0
and_nothing zero (suc a) h = absurd (omega arith)
and_nothing (suc n) (suc a) h =
    omega (arith, and_digit (suc a) 0, and_nothing n (suc a / 2) (omega arith))

shift_suc : (q k : ℕ) → q * 2 ^ suc k ≡ q * 2 ^ k * 2
shift_suc q k = omega (arith, ap (λ (t : ℕ). q * t) (pow-suc 2 k))

-- `q << k | r` is a sum if `r` fits `k` bits.
pub bit_or_shift : (k q r : ℕ) → r < 2 ^ k → bit_or (q * 2 ^ k) r ≡ q * 2 ^ k + r
bit_or_shift zero q zero h = or_nothing (q * 1) (q * 1) (omega arith) ∙ omega arith
bit_or_shift zero q (suc r) h = absurd (omega arith)
bit_or_shift (suc k) q r h = ground (
  arith,
  or_digit (q * 2 ^ suc k) r,
  shift_suc q k,
  bit_or_shift k q (r / 2) (omega (arith, pow-suc 2 k)),
)

and_fields : (k q r : ℕ) → r < 2 ^ k → bit_and (q * 2 ^ k + r) (2 ^ k - 1) ≡ r
and_fields zero q zero h = and_nothing (q * 1 + 0) (q * 1 + 0) (omega arith)
and_fields zero q (suc r) h = absurd (omega arith)
and_fields (suc k) q r h = ground (
  arith,
  and_digit (q * 2 ^ suc k + r) (2 ^ suc k - 1),
  shift_suc q k,
  pow-suc 2 k,
  and_fields k q (r / 2) (omega (arith, pow-suc 2 k)),
)

-- A mask of `k` ones keeps the remainder by `2 ^ k`.
pub bit_and_ones : (k a : ℕ) → bit_and a (2 ^ k - 1) ≡ a % 2 ^ k
bit_and_ones k a = ground (arith, one-le-pow k 2, and_fields k (a / 2 ^ k) (a % 2 ^ k))

same_digit : (a b : ℕ) → a < 2 → b < 2 → differ a b ≡ 0 → a ≡ b
same_digit zero b h g e = sym e
same_digit (suc zero) zero h g e = e
same_digit (suc zero) (suc zero) h g e = refl
same_digit (suc zero) (suc (suc b)) h g e = absurd (omega arith)
same_digit (suc (suc a)) b h g e = absurd (omega arith)

no_difference : (a : ℕ) → differ a a ≡ 0
no_difference zero = refl
no_difference (suc a) = no_difference a

xor_same_below : (n a : ℕ) → a ≤ n → bit_xor a a ≡ 0
xor_same_below n zero h = bit_xor-bitwise 0 0
xor_same_below zero (suc a) h = absurd (omega arith)
xor_same_below (suc n) (suc a) h = omega (
  arith,
  xor_digit (suc a) (suc a),
  no_difference (suc a % 2),
  xor_same_below n (suc a / 2) (omega arith),
)

xor_zero_below : (n a b : ℕ) → a ≤ n → bit_xor a b ≡ 0 → a ≡ b
xor_zero_below n zero b h e = sym (omega (arith, bit_xor-bitwise 0 b))
xor_zero_below zero (suc a) b h e = absurd (omega arith)
xor_zero_below (suc n) (suc a) b h e =
    let top : bit_xor (suc a / 2) (b / 2) ≡ 0 = omega (arith, xor_digit (suc a) b) in
    let low : differ (suc a % 2) (b % 2) ≡ 0 = omega (arith, xor_digit (suc a) b) in
    omega (
      arith,
      same_digit (suc a % 2) (b % 2) (omega arith) (omega arith) low,
      xor_zero_below n (suc a / 2) (b / 2) (omega arith) top,
    )

-- `a ^ b` is zero exactly when the two are equal.
pub bit_xor-zero_iff : (a b : ℕ) → (bit_xor a b ≡ 0) ↔ (a ≡ b)
bit_xor-zero_iff a b =
    (xor_zero_below a a b (omega arith), λ e. rw e (xor_same_below b b (omega arith)))

or_zero_below : (n a b : ℕ) → a ≤ n → bit_or a b ≡ 0 → (a ≡ 0) × (b ≡ 0)
or_zero_below n zero b h e = (refl, omega (arith, bit_or-bitwise 0 b))
or_zero_below zero (suc a) b h e = absurd (omega arith)
or_zero_below (suc n) (suc a) b h e =
    let top : bit_or (suc a / 2) (b / 2) ≡ 0 = omega (arith, or_digit (suc a) b) in
    let (x, y) = or_zero_below n (suc a / 2) (b / 2) (omega arith) top in
    (omega (arith, or_digit (suc a) b), omega (arith, or_digit (suc a) b))

-- `a | b` is zero exactly when both are.
pub bit_or-zero_iff : (a b : ℕ) → (bit_or a b ≡ 0) ↔ ((a ≡ 0) × (b ≡ 0))
bit_or-zero_iff a b = (or_zero_below a a b (omega arith), λ e. rw (e.0, e.1) (bit_or-bitwise 0 0))
