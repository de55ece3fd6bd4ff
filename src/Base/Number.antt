-- ===== src/Base/Number.antt =====
-- The integer parsers of the standard library: `str::parse` at an unsigned type, whose values are
-- below `bound`.
use Prim.Native.Nat.{ℕ, ◌+◌, ◌-◌, ◌*◌, ◌≤◌, ◌<◌}
use mathlib.Core.Path.{◌≡◌, refl}
use mathlib.Core.Logic.{inl, inr}
use mathlib.Core.Bool.{Bool, true, false, ◌&&◌}
use mathlib.Core.Option.{Option, none, some}
use mathlib.Core.List.{[], ◌∷◌}
use native.Mathlib.Omega.{arith}
use qsl_server.Base.Tests.{leb, ltb, ◌==◌, if◌then◌else◌, Bool-cases}
use qsl_server.Base.Bytes.{Text}

abbrev pub is_digit : ℕ → Bool
is_digit c = leb b'0' c && leb c b'9'

-- `checked_mul` by ten and `checked_add` of the digit, for each character.
unfoldable pub digits_onto : ℕ → ℕ → Text → Option ℕ
digits_onto bound n [] = some n
digits_onto bound n (c ∷ cs) =
    let next = n * 10 + (c - b'0') in
    let rest = digits_onto bound next cs in if is_digit c && ltb next bound then rest else none

unfoldable pub number : ℕ → Text → Option ℕ
unfolding digits_onto
number bound [] = none
number bound (c ∷ cs) = digits_onto bound 0 (c ∷ cs)

-- A sign `+` may stand in front of the digits.
unfoldable pub parse_unsigned : ℕ → Text → Option ℕ
unfolding number
parse_unsigned bound [] = none
parse_unsigned bound (c ∷ cs) = if c == b'+' then number bound cs else number bound (c ∷ cs)

-- The number that digits spell behind `n`, however large.
abbrev pub value : ℕ → Text → ℕ
value n [] = n
value n (c ∷ cs) = value (n * 10 + (c - b'0')) cs

abbrev pub all_digits : Text → Bool
all_digits [] = true
all_digits (c ∷ cs) = is_digit c && all_digits cs

le-value : (n : ℕ) (cs : Text) → n ≤ value n cs
le-value n [] = omega arith
le-value n (c ∷ cs) = omega (arith, le-value (n * 10 + (c - b'0')) cs)

digits_onto_lem :
    (bound n : ℕ) (cs : Text)
    → n < bound
    → digits_onto bound n cs
      ≡ (if all_digits cs && ltb (value n cs) bound then some (value n cs) else none)
unfolding digits_onto
digits_onto_lem bound n [] h = ground arith
digits_onto_lem bound n (c ∷ cs) h =
    let next = n * 10 + (c - b'0') in
    ground (arith, le-value next cs, digits_onto_lem bound next cs)

-- The digits, without a sign.
abbrev pub unsigned : Text → Text
unsigned [] = []
unsigned (c ∷ cs) = if c == b'+' then cs else c ∷ cs

-- Some digits and nothing else, for a number below `bound`.
abbrev pub spells : ℕ → Text → Bool
spells bound [] = false
spells bound (c ∷ cs) = all_digits (c ∷ cs) && ltb (value 0 (c ∷ cs)) bound

number-spells :
    (bound : ℕ) (cs : Text)
    → 0 < bound
    → number bound cs ≡ (if spells bound cs then some (value 0 cs) else none)
unfolding number
number-spells bound [] h = refl
number-spells bound (c ∷ cs) h = digits_onto_lem bound 0 (c ∷ cs) h

pub parse_unsigned-spells :
    (bound : ℕ) (s : Text)
    → 0 < bound
    → parse_unsigned bound s
      ≡ (if spells bound (unsigned s) then some (value 0 (unsigned s)) else none)
unfolding parse_unsigned
parse_unsigned-spells bound [] h = refl
parse_unsigned-spells bound (c ∷ cs) h = elim (Bool-cases (c == b'+')) [
  | inl sign ↦ rw sign (number-spells bound cs h)
  | inr digit ↦ rw digit (number-spells bound (c ∷ cs) h)
]
