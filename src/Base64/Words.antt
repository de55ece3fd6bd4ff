-- ===== src/Base64/Words.antt =====
-- The words that `b64_encode` cuts into digits, in plain arithmetic.
use Prim.Native.Nat.{bit_or}
use qsl_server.Base.{ℕ, ◌+◌, ◌*◌, ◌/◌, ◌%◌, ◌^◌, ◌<◌, ◌≡◌, ap, ap₂, ◌∙◌, List, [], ◌∷◌, arith}
use qsl_server.Base.Bits.{bit_or_shift, bit_and_ones}
use qsl_server.Base64.Digits.{digit}
use qsl_server.Base64.Codec.{shl32, shr, b64_encode, word, sextet}

abbrev pub IsByte : ℕ → Type 0
IsByte x = x < 256

pub shl_16 : (x : ℕ) → x < 256 → shl32 x 16 ≡ x * 2 ^ 16
unfolding shl32
shl_16 x h = omega arith

pub shl_8 : (x : ℕ) → x < 256 → shl32 x 8 ≡ x * 2 ^ 8
unfolding shl32
shl_8 x h = omega arith

pub word_sum : (a b c : ℕ) → a < 256 → b < 256 → c < 256 → word a b c ≡ a * 65536 + b * 256 + c
unfolding word
word_sum a b c h g k =
    ap₂ (λ (x y : ℕ). bit_or (bit_or x y) c) (shl_16 a h) (shl_8 b g)
    ∙ ap (λ (x : ℕ). bit_or x c) (bit_or_shift 16 a (b * 2 ^ 8) (omega arith) ∙ regroup)
    ∙ bit_or_shift 8 (a * 256 + b) c (omega arith)
    ∙ omega arith
  where
    regroup : a * 2 ^ 16 + b * 2 ^ 8 ≡ (a * 256 + b) * 2 ^ 8
    regroup = omega arith

pub sextet-digit : (n k : ℕ) → sextet n k ≡ digit (shr n k % 64)
unfolding sextet
sextet-digit n k = ap digit (bit_and_ones 6 (shr n k))

-- The digits of a word, from its bytes.
pub sextet_18 :
    (a b c : ℕ) → IsByte a → IsByte b → IsByte c → sextet (word a b c) 18 ≡ digit (a / 4)
sextet_18 a b c h g k =
    sextet-digit (word a b c) 18
    ∙ ap (λ n. digit (n / 2 ^ 18 % 64)) (word_sum a b c h g k)
    ∙ ap digit (omega arith)

pub sextet_12 :
    (a b c : ℕ)
    → IsByte a
    → IsByte b
    → IsByte c
    → sextet (word a b c) 12 ≡ digit (a % 4 * 16 + b / 16)
sextet_12 a b c h g k =
    sextet-digit (word a b c) 12
    ∙ ap (λ n. digit (n / 2 ^ 12 % 64)) (word_sum a b c h g k)
    ∙ ap digit (omega arith)

pub sextet_6 :
    (a b c : ℕ)
    → IsByte a
    → IsByte b
    → IsByte c
    → sextet (word a b c) 6 ≡ digit (b % 16 * 4 + c / 64)
sextet_6 a b c h g k =
    sextet-digit (word a b c) 6
    ∙ ap (λ n. digit (n / 2 ^ 6 % 64)) (word_sum a b c h g k)
    ∙ ap digit (omega arith)

pub sextet_0 : (a b c : ℕ) → IsByte a → IsByte b → IsByte c → sextet (word a b c) 0 ≡ digit (c % 64)
sextet_0 a b c h g k =
    sextet-digit (word a b c) 0
    ∙ ap (λ n. digit (n / 2 ^ 0 % 64)) (word_sum a b c h g k)
    ∙ ap digit (omega arith)

pub encode_one :
    (a : ℕ) → IsByte a → b64_encode (a ∷ []) ≡ digit (a / 4) ∷ digit (a % 4 * 16 + 0 / 16) ∷ []
unfolding b64_encode
encode_one a h =
    ap₂ (λ x y. x ∷ y ∷ []) (sextet_18 a 0 0 h (omega arith) (omega arith))
      (sextet_12 a 0 0 h (omega arith) (omega arith))

pub encode_two :
    (a b : ℕ)
    → IsByte a
    → IsByte b
    → b64_encode (a ∷ b ∷ [])
      ≡ digit (a / 4) ∷ digit (a % 4 * 16 + b / 16) ∷ digit (b % 16 * 4 + 0 / 64) ∷ []
unfolding b64_encode
encode_two a b h g =
    ap₂ (λ x y. x ∷ y ∷ sextet (word a b 0) 6 ∷ []) (sextet_18 a b 0 h g (omega arith))
      (sextet_12 a b 0 h g (omega arith))
    ∙ ap (λ z. digit (a / 4) ∷ digit (a % 4 * 16 + b / 16) ∷ z ∷ [])
        (sextet_6 a b 0 h g (omega arith))

pub encode_three :
    (a b c : ℕ) (rest : List ℕ)
    → IsByte a
    → IsByte b
    → IsByte c
    → b64_encode (a ∷ b ∷ c ∷ rest)
      ≡ digit (a / 4)
        ∷ digit (a % 4 * 16 + b / 16)
        ∷ digit (b % 16 * 4 + c / 64)
        ∷ digit (c % 64)
        ∷ b64_encode rest
unfolding b64_encode
encode_three a b c rest h g k =
    ap₂ (λ x y. x ∷ y ∷ sextet (word a b c) 6 ∷ sextet (word a b c) 0 ∷ b64_encode rest)
      (sextet_18 a b c h g k) (sextet_12 a b c h g k)
    ∙ ap₂ (λ z t. digit (a / 4) ∷ digit (a % 4 * 16 + b / 16) ∷ z ∷ t ∷ b64_encode rest)
        (sextet_6 a b c h g k) (sextet_0 a b c h g k)
