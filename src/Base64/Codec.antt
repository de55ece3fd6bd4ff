-- ===== src/Base64/Codec.antt =====
-- src/lib.rs: `b64_decode` and `b64_encode`.
use Prim.Native.Nat.{bit_and, bit_or}
use qsl_server.Base.{
  ℕ, ◌+◌, ◌-◌, ◌*◌, ◌/◌, ◌%◌, ◌^◌, ◌≡◌, refl, ◌||◌, not, Option, none, some, List, [], ◌∷◌, ◌++◌,
  leb, ◌==◌, if◌then◌else◌, Text,
}
use qsl_server.Base64.Digits.{val, digit}

-- `x << k` on a `u32`: bits above the 32nd are lost.
unfoldable pub shl32 : ℕ → ℕ → ℕ
shl32 x k = (x * 2 ^ k) % 2 ^ 32

-- `x >> k`
abbrev pub shr : ℕ → ℕ → ℕ
shr x k = x / 2 ^ k

-- The state of the loop of `b64_decode`.
pub record Decoder : Type 0 where
  pub out : List ℕ
  pub acc : ℕ
  pub bits : ℕ

-- One turn of the loop on a character's value.
unfoldable pub feed : Decoder → ℕ → Decoder
unfolding shl32
feed d v =
    let acc = bit_or (shl32 d.acc 6) v in
    let bits = d.bits + 6 in
    if leb 8 bits
    then record {
      out = d.out ++ bit_and (shr acc (bits - 8)) 0xff ∷ [];
      acc = acc;
      bits = bits - 8;
    }
    else record { out = d.out; acc = acc; bits = bits }

unfoldable pub decode_loop : Decoder → Text → Option Decoder
unfolding feed
decode_loop d [] = some d
decode_loop d (c ∷ cs) = elim (val c) [ none ↦ none | some v ↦ decode_loop (feed d v) cs ]

-- The check behind the loop.
unfoldable pub finish : Decoder → Option (List ℕ)
finish d = if leb 6 d.bits || not (bit_and d.acc (2 ^ d.bits - 1) == 0) then none else some d.out

unfoldable pub finish_loop : Option Decoder → Option (List ℕ)
unfolding finish
finish_loop none = none
finish_loop (some d) = finish d

abbrev pub trim_one : ℕ → Text → Text
trim_one c [] = if c == b'=' then [] else c ∷ []
trim_one c (x ∷ xs) = c ∷ x ∷ xs

-- s.trim_end_matches('=')
unfoldable pub trim_padding : Text → Text
trim_padding [] = []
trim_padding (c ∷ cs) = trim_one c (trim_padding cs)

abbrev pub start : Decoder
start = record { out = []; acc = 0; bits = 0 }

unfoldable pub b64_decode : Text → Option (List ℕ)
unfolding decode_loop finish_loop trim_padding val
b64_decode s = finish_loop (decode_loop start (trim_padding s))

-- n = b[0] << 16 | b[1] << 8 | b[2]
unfoldable pub word : ℕ → ℕ → ℕ → ℕ
unfolding shl32
word a b c = bit_or (bit_or (shl32 a 16) (shl32 b 8)) c

-- T[((n >> k) & 63)]
unfoldable pub sextet : ℕ → ℕ → ℕ
unfolding digit
sextet n k = digit (bit_and (shr n k) 63)

-- `bytes.chunks(3)`: whole chunks, and one of one or two bytes.
unfoldable pub b64_encode : List ℕ → Text
unfolding word sextet
b64_encode [] = []
b64_encode (a ∷ []) = let n = word a 0 0 in sextet n 18 ∷ sextet n 12 ∷ []
b64_encode (a ∷ b ∷ []) = let n = word a b 0 in sextet n 18 ∷ sextet n 12 ∷ sextet n 6 ∷ []
b64_encode (a ∷ b ∷ c ∷ rest) =
    let n = word a b c in sextet n 18 ∷ sextet n 12 ∷ sextet n 6 ∷ sextet n 0 ∷ b64_encode rest

encode_test : b64_encode (1 ∷ 250 ∷ 77 ∷ 255 ∷ []) ≡ b'A' ∷ b'f' ∷ b'p' ∷ b'N' ∷ b'_' ∷ b'w' ∷ []
unfolding b64_encode
encode_test = refl

decode_test :
    b64_decode (b'A' ∷ b'f' ∷ b'p' ∷ b'N' ∷ b'_' ∷ b'w' ∷ b'=' ∷ [])
    ≡ some (1 ∷ 250 ∷ 77 ∷ 255 ∷ [])
unfolding b64_decode
decode_test = refl
