-- ===== src/Base64/Loop.antt =====
-- The loop of `b64_decode` on digits: what it emits for two, three and four of them.
use Prim.Native.Nat.{bit_and, bit_or}
use mathlib.Core.List.{append_assoc}
use qsl_server.Base.{
  ℕ, ◌+◌, ◌*◌, ◌/◌, ◌%◌, ◌^◌, ◌<◌, ◌≡◌, ap, ◌∙◌, some, List, [], ◌∷◌, ◌++◌, arith, Text,
}
use qsl_server.Base.Bits.{bit_or_shift, bit_and_ones}
use qsl_server.Base64.Digits.{digit, val-digit}
use qsl_server.Base64.Codec.{Decoder, shl32, feed, decode_loop, finish}

pub shl32_or : (a v : ℕ) → v < 64 → bit_or (shl32 a 6) v ≡ (a * 64) % 2 ^ 32 + v
unfolding shl32
shl32_or a v h =
    omega (arith, bit_or_shift 6 (a % 2 ^ 26) v h, ap (λ (t : ℕ). bit_or t v) (shape a))
  where
    shape : (a : ℕ) → (a * 64) % 2 ^ 32 ≡ (a % 2 ^ 26) * 2 ^ 6
    shape a = omega arith

-- A step of the loop on a digit.
pub loop_digit :
    (d : Decoder) (n : ℕ) (cs : Text)
    → n < 64
    → decode_loop d (digit n ∷ cs) ≡ decode_loop (feed d n) cs
unfolding decode_loop
loop_digit d n cs h = rw (val-digit n h, decode_loop)

abbrev pub at_bits : List ℕ → ℕ → ℕ → Decoder
at_bits out acc bits = record { out = out; acc = acc; bits = bits }

-- The accumulator after one more digit.
abbrev pub shifted : ℕ → ℕ → ℕ
shifted acc v = (acc * 64) % 2 ^ 32 + v

pub feed_keep :
    (out : List ℕ) (acc v : ℕ) → v < 64 → feed (at_bits out acc 0) v ≡ at_bits out (shifted acc v) 6
unfolding feed
feed_keep out acc v h = ap (λ a. at_bits out a 6) (shl32_or acc v h)

pub feed_emit_6 :
    (out : List ℕ) (acc v : ℕ)
    → v < 64
    → feed (at_bits out acc 6) v
      ≡ at_bits (out ++ (shifted acc v / 2 ^ 4 % 256) ∷ []) (shifted acc v) 4
unfolding feed
feed_emit_6 out acc v h =
    ap (λ a. at_bits (out ++ bit_and (a / 2 ^ 4) 0xff ∷ []) a 4) (shl32_or acc v h)
    ∙ ap (λ x. at_bits (out ++ x ∷ []) (shifted acc v) 4) (bit_and_ones 8 (shifted acc v / 2 ^ 4))

pub feed_emit_4 :
    (out : List ℕ) (acc v : ℕ)
    → v < 64
    → feed (at_bits out acc 4) v
      ≡ at_bits (out ++ (shifted acc v / 2 ^ 2 % 256) ∷ []) (shifted acc v) 2
unfolding feed
feed_emit_4 out acc v h =
    ap (λ a. at_bits (out ++ bit_and (a / 2 ^ 2) 0xff ∷ []) a 2) (shl32_or acc v h)
    ∙ ap (λ x. at_bits (out ++ x ∷ []) (shifted acc v) 2) (bit_and_ones 8 (shifted acc v / 2 ^ 2))

pub feed_emit_2 :
    (out : List ℕ) (acc v : ℕ)
    → v < 64
    → feed (at_bits out acc 2) v
      ≡ at_bits (out ++ (shifted acc v / 2 ^ 0 % 256) ∷ []) (shifted acc v) 0
unfolding feed
feed_emit_2 out acc v h =
    ap (λ a. at_bits (out ++ bit_and (a / 2 ^ 0) 0xff ∷ []) a 0) (shl32_or acc v h)
    ∙ ap (λ x. at_bits (out ++ x ∷ []) (shifted acc v) 0) (bit_and_ones 8 (shifted acc v / 2 ^ 0))

-- The two, three or four digits of a chunk through the loop.
pub two_digits :
    (out : List ℕ) (acc u v : ℕ) (cs : Text)
    → u < 64
    → v < 64
    → let a = shifted (shifted acc u) v in
      decode_loop (at_bits out acc 0) (digit u ∷ digit v ∷ cs)
      ≡ decode_loop (at_bits (out ++ (a / 2 ^ 4 % 256) ∷ []) a 4) cs
two_digits out acc u v cs h g =
    loop_digit (at_bits out acc 0) u (digit v ∷ cs) h
    ∙ ap (λ d. decode_loop d (digit v ∷ cs)) (feed_keep out acc u h)
    ∙ loop_digit (at_bits out (shifted acc u) 6) v cs g
    ∙ ap (λ d. decode_loop d cs) (feed_emit_6 out (shifted acc u) v g)

pub third_digit :
    (out : List ℕ) (acc v : ℕ) (cs : Text)
    → v < 64
    → decode_loop (at_bits out acc 4) (digit v ∷ cs)
      ≡ decode_loop (at_bits (out ++ (shifted acc v / 2 ^ 2 % 256) ∷ []) (shifted acc v) 2) cs
third_digit out acc v cs h =
    loop_digit (at_bits out acc 4) v cs h ∙ ap (λ d. decode_loop d cs) (feed_emit_4 out acc v h)

pub fourth_digit :
    (out : List ℕ) (acc v : ℕ) (cs : Text)
    → v < 64
    → decode_loop (at_bits out acc 2) (digit v ∷ cs)
      ≡ decode_loop (at_bits (out ++ (shifted acc v / 2 ^ 0 % 256) ∷ []) (shifted acc v) 0) cs
fourth_digit out acc v cs h =
    loop_digit (at_bits out acc 2) v cs h ∙ ap (λ d. decode_loop d cs) (feed_emit_2 out acc v h)

-- Leftover bits that are zero pass the last check.
pub finish_clean :
    (out : List ℕ) (acc bits : ℕ)
    → bits < 6
    → acc % 2 ^ bits ≡ 0
    → finish (at_bits out acc bits) ≡ some out
unfolding finish
finish_clean out acc bits h e = ground (arith, bit_and_ones bits acc)

-- What the loop emits for two, three and four digits, whatever the accumulator held.
pub first_byte :
    (acc u v : ℕ) → u < 64 → v < 64 → shifted (shifted acc u) v / 2 ^ 4 % 256 ≡ u * 4 + v / 16
first_byte acc u v h g = omega arith

pub second_byte :
    (acc v w : ℕ) → v < 64 → w < 64 → shifted (shifted acc v) w / 2 ^ 2 % 256 ≡ v % 16 * 16 + w / 4
second_byte acc v w h g = omega arith

pub third_byte :
    (acc w x : ℕ) → w < 64 → x < 64 → shifted (shifted acc w) x / 2 ^ 0 % 256 ≡ w % 4 * 64 + x
third_byte acc w x h g = omega arith

pub append-one : (out ys : List ℕ) {y z : ℕ} → y ≡ z → (out ++ ys) ++ y ∷ [] ≡ out ++ (ys ++ z ∷ [])
append-one out ys {y} {z} e = append_assoc out ys (y ∷ []) ∙ ap (λ x. out ++ (ys ++ x ∷ [])) e

-- The accumulator after the digits of a chunk is not needed to say what the loop emitted.
pub two_emit :
    (out : List ℕ) (acc u v : ℕ) (cs : Text)
    → u < 64
    → v < 64
    → decode_loop (at_bits out acc 0) (digit u ∷ digit v ∷ cs)
      ≡ decode_loop (at_bits (out ++ (u * 4 + v / 16) ∷ []) (shifted (shifted acc u) v) 4) cs
two_emit out acc u v cs h g =
    two_digits out acc u v cs h g
    ∙ ap (λ x. decode_loop (at_bits (out ++ x ∷ []) (shifted (shifted acc u) v) 4) cs)
        (first_byte acc u v h g)

pub three_emit :
    (out : List ℕ) (acc u v w : ℕ) (cs : Text)
    → u < 64
    → v < 64
    → w < 64
    → decode_loop (at_bits out acc 0) (digit u ∷ digit v ∷ digit w ∷ cs)
      ≡ decode_loop
          (at_bits
            (out ++ (u * 4 + v / 16) ∷ (v % 16 * 16 + w / 4) ∷ [])
            (shifted (shifted (shifted acc u) v) w)
            2)
          cs
three_emit out acc u v w cs h g k =
    two_emit out acc u v (digit w ∷ cs) h g
    ∙ third_digit (out ++ (u * 4 + v / 16) ∷ []) (shifted (shifted acc u) v) w cs k
    ∙ ap (λ o. decode_loop (at_bits o (shifted (shifted (shifted acc u) v) w) 2) cs)
        (append-one out ((u * 4 + v / 16) ∷ []) (second_byte (shifted acc u) v w g k))

pub four_emit :
    (out : List ℕ) (acc u v w x : ℕ) (cs : Text)
    → u < 64
    → v < 64
    → w < 64
    → x < 64
    → decode_loop (at_bits out acc 0) (digit u ∷ digit v ∷ digit w ∷ digit x ∷ cs)
      ≡ decode_loop
          (at_bits
            (out ++ (u * 4 + v / 16) ∷ (v % 16 * 16 + w / 4) ∷ (w % 4 * 64 + x) ∷ [])
            (shifted (shifted (shifted (shifted acc u) v) w) x)
            0)
          cs
four_emit out acc u v w x cs h g k l =
    three_emit out acc u v w (digit x ∷ cs) h g k
    ∙ fourth_digit (out ++ (u * 4 + v / 16) ∷ (v % 16 * 16 + w / 4) ∷ [])
        (shifted (shifted (shifted acc u) v) w) x cs l
    ∙ ap (λ o. decode_loop (at_bits o (shifted (shifted (shifted (shifted acc u) v) w) x) 0) cs)
        (append-one out ((u * 4 + v / 16) ∷ (v % 16 * 16 + w / 4) ∷ [])
          (third_byte (shifted (shifted acc u) v) w x k l))
