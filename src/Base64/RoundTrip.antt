-- ===== src/Base64/RoundTrip.antt =====
-- Decoding after encoding.
use Prim.Native.Nat.{bit_and}
use mathlib.Core.List.{append_assoc, append-nil}
use qsl_server.Base.{
  ℕ, ◌+◌, ◌*◌, ◌/◌, ◌%◌, ◌^◌, ◌<◌, ◌≡◌, refl, sym, ap, ap₂, ◌∙◌, false, some, List, [], ◌∷◌, ◌++◌,
  arith, All, ◌==◌, Text,
}
use qsl_server.Base64.Digits.{digit}
use qsl_server.Base64.Codec.{
  shr, decode_loop, finish_loop, trim_padding, trim_one, start, b64_decode, b64_encode, word,
  sextet,
}
use qsl_server.Base64.Loop.{at_bits, shifted, finish_clean, two_emit, three_emit, four_emit}
use qsl_server.Base64.Words.{IsByte, encode_one, encode_two, encode_three}

finish_some :
    (out bs : List ℕ) (acc bits : ℕ)
    → bits < 6
    → acc % 2 ^ bits ≡ 0
    → out ≡ bs
    → finish_loop (some (at_bits out acc bits)) ≡ some bs
unfolding finish_loop
finish_some out bs acc bits h e f = finish_clean out acc bits h e ∙ ap some f

-- The sextets of bytes, and the bytes back from them.
high : (a : ℕ) → IsByte a → a / 4 < 64
high a h = omega arith

middle : (a b : ℕ) → IsByte b → a % 4 * 16 + b / 16 < 64
middle a b h = omega arith

low : (b c : ℕ) → IsByte c → b % 16 * 4 + c / 64 < 64
low b c h = omega arith

from_12 : (a b : ℕ) → IsByte b → a / 4 * 4 + (a % 4 * 16 + b / 16) / 16 ≡ a
from_12 a b h = omega arith

from_23 :
    (a b c : ℕ)
    → IsByte b
    → IsByte c
    → (a % 4 * 16 + b / 16) % 16 * 16 + (b % 16 * 4 + c / 64) / 4 ≡ b
from_23 a b c h g = omega arith

from_34 : (b c : ℕ) → IsByte c → (b % 16 * 4 + c / 64) % 4 * 64 + c % 64 ≡ c
from_34 b c h = omega arith

clean_4 : (acc u a : ℕ) → shifted (shifted acc u) (a % 4 * 16 + 0 / 16) % 2 ^ 4 ≡ 0
clean_4 acc u a = omega arith

clean_2 : (acc b : ℕ) → shifted acc (b % 16 * 4 + 0 / 64) % 2 ^ 2 ≡ 0
clean_2 acc b = omega arith

decode_chunks :
    (bs : List ℕ) (out : List ℕ) (acc : ℕ)
    → All IsByte bs
    → finish_loop (decode_loop (at_bits out acc 0) (b64_encode bs)) ≡ some (out ++ bs)
unfolding decode_loop b64_encode
decode_chunks [] out acc h =
    finish_some out (out ++ []) acc 0 (omega arith) (omega arith) (sym (append-nil out))
decode_chunks (a ∷ []) out acc h =
    ap (λ cs. finish_loop (decode_loop (at_bits out acc 0) cs)) (encode_one a h.0)
    ∙ ap finish_loop
        (two_emit out acc (a / 4) (a % 4 * 16 + 0 / 16) [] (high a h.0) (middle a 0 (omega arith)))
    ∙ finish_some (out ++ (a / 4 * 4 + (a % 4 * 16 + 0 / 16) / 16) ∷ []) (out ++ a ∷ [])
        (shifted (shifted acc (a / 4)) (a % 4 * 16 + 0 / 16)) 4 (omega arith)
        (clean_4 acc (a / 4) a) (ap (λ x. out ++ x ∷ []) (from_12 a 0 (omega arith)))
decode_chunks (a ∷ b ∷ []) out acc h =
    ap (λ cs. finish_loop (decode_loop (at_bits out acc 0) cs)) (encode_two a b h.0 h.1.0)
    ∙ ap finish_loop (
        three_emit out acc (a / 4) (a % 4 * 16 + b / 16) (b % 16 * 4 + 0 / 64) [] (high a h.0)
          (middle a b h.1.0) (low b 0 (omega arith)))
    ∙ finish_some _ (out ++ a ∷ b ∷ [])
        (shifted (shifted (shifted acc (a / 4)) (a % 4 * 16 + b / 16)) (b % 16 * 4 + 0 / 64)) 2
        (omega arith) (clean_2 (shifted (shifted acc (a / 4)) (a % 4 * 16 + b / 16)) b)
        (ap₂ (λ x y. out ++ x ∷ y ∷ []) (from_12 a b h.1.0) (from_23 a b 0 h.1.0 (omega arith)))
decode_chunks (a ∷ b ∷ c ∷ rest) out acc h =
    ap (λ cs. finish_loop (decode_loop (at_bits out acc 0) cs))
      (encode_three a b c rest h.0 h.1.0 h.1.1.0)
    ∙ ap finish_loop (
        four_emit out acc (a / 4) (a % 4 * 16 + b / 16) (b % 16 * 4 + c / 64) (c % 64)
          (b64_encode rest) (high a h.0) (middle a b h.1.0) (low b c h.1.1.0) (omega arith))
    ∙ ap₂ (λ o z. finish_loop (decode_loop (at_bits (out ++ o) z 0) (b64_encode rest)))
        (ap₂ (λ x y. x ∷ y ∷ ((b % 16 * 4 + c / 64) % 4 * 64 + c % 64) ∷ []) (from_12 a b h.1.0)
            (from_23 a b c h.1.0 h.1.1.0)
          ∙ ap (λ z. a ∷ b ∷ z ∷ []) (from_34 b c h.1.1.0))
        refl
    ∙ decode_chunks rest (out ++ a ∷ b ∷ c ∷ []) _ h.1.1.1
    ∙ ap some (append_assoc out (a ∷ b ∷ c ∷ []) rest)

-- No digit is the padding character.
digit-not_pad : (n : ℕ) → (digit n == b'=') ≡ false
unfolding digit
digit-not_pad n = ground arith

trim_digit : (n : ℕ) (cs : Text) → trim_padding cs ≡ cs → trim_padding (digit n ∷ cs) ≡ digit n ∷ cs
unfolding trim_padding
trim_digit n [] e = rw (digit-not_pad n)
trim_digit n (x ∷ xs) e = ap (trim_one (digit n)) e

trim_sextet :
    (n k : ℕ) (cs : Text) → trim_padding cs ≡ cs → trim_padding (sextet n k ∷ cs) ≡ sextet n k ∷ cs
unfolding sextet
trim_sextet n k cs e = trim_digit (bit_and (shr n k) 63) cs e

trim_two :
    (n : ℕ) (cs : Text)
    → trim_padding cs ≡ cs
    → trim_padding (sextet n 18 ∷ sextet n 12 ∷ cs) ≡ sextet n 18 ∷ sextet n 12 ∷ cs
trim_two n cs e = trim_sextet n 18 (sextet n 12 ∷ cs) (trim_sextet n 12 cs e)

trim_encoded : (bs : List ℕ) → trim_padding (b64_encode bs) ≡ b64_encode bs
unfolding b64_encode trim_padding
trim_encoded [] = refl
trim_encoded (a ∷ []) = trim_two (word a 0 0) [] refl
trim_encoded (a ∷ b ∷ []) =
    trim_two (word a b 0) (sextet (word a b 0) 6 ∷ []) (trim_sextet (word a b 0) 6 [] refl)
trim_encoded (a ∷ b ∷ c ∷ rest) =
    trim_two (word a b c) (sextet (word a b c) 6 ∷ sextet (word a b c) 0 ∷ b64_encode rest) (
      trim_sextet (word a b c) 6 (sextet (word a b c) 0 ∷ b64_encode rest)
        (trim_sextet (word a b c) 0 (b64_encode rest) (trim_encoded rest)))

-- Decoding the encoding of bytes gives the bytes back, for any number of them.
pub b64_decode-b64_encode : (bs : List ℕ) → All IsByte bs → b64_decode (b64_encode bs) ≡ some bs
unfolding b64_decode
b64_decode-b64_encode bs h =
    ap (λ cs. finish_loop (decode_loop start cs)) (trim_encoded bs) ∙ decode_chunks bs [] 0 h
