-- ===== src/Secrets/Hex.antt =====
-- src/lib.rs: `sha256_hex`, `route_key_for` and `channel_log_id`. SHA-256 is a parameter.
use Prim.Native.Nat.{bit_xor}
use qsl_server.Base.{
  ℕ, ◌+◌, ◌-◌, ◌*◌, ◌/◌, ◌%◌, ◌^◌, List, [], ◌∷◌, ◌++◌, Text, ltb, if◌then◌else◌, ◌≡◌, refl, suc,
  zero, ◌<◌, leb, Bool, true, ◌&&◌, ◌||◌, arith,
}

-- A digit of `{:x}`.
abbrev pub hex_digit : ℕ → ℕ
hex_digit n = if ltb n 10 then b'0' + n else b'a' + (n - 10)

-- `{b:02x}` of each byte.
unfoldable pub hex : List ℕ → Text
hex [] = []
hex (b ∷ bs) = hex_digit (b / 16 % 16) ∷ hex_digit (b % 16) ∷ hex bs

-- A text of digits of `{:x}`.
abbrev is_hex_digit : ℕ → Bool
is_hex_digit c = (leb b'0' c && leb c b'9') || (leb b'a' c && leb c b'f')

abbrev pub is_hex : Text → Bool
is_hex [] = true
is_hex (c ∷ cs) = is_hex_digit c && is_hex cs

is_hex_digit-hex_digit : (n : ℕ) → n < 16 → is_hex_digit (hex_digit n) ≡ true
is_hex_digit-hex_digit n h = ground arith

is_hex-hex : (bs : List ℕ) → is_hex (hex bs) ≡ true
unfolding hex
is_hex-hex [] = refl
is_hex-hex (b ∷ bs) = ground (
  arith,
  is_hex_digit-hex_digit (b / 16 % 16) (omega arith),
  is_hex_digit-hex_digit (b % 16) (omega arith),
  is_hex-hex bs,
)

unfoldable pub sha256_hex : (Text → List ℕ) → Text → Text
unfolding hex
sha256_hex sha256 s = hex (sha256 s)

unfoldable pub route_key_for : (Text → List ℕ) → Text → Text
unfolding hex
route_key_for sha256 channel = hex (sha256 channel)

pub is_hex-route_key_for :
    (sha256 : Text → List ℕ) (channel : Text) → is_hex (route_key_for sha256 channel) ≡ true
unfolding route_key_for
is_hex-route_key_for sha256 channel = is_hex-hex (sha256 channel)

-- The loop of `channel_log_id`: FNV-1a on a `u64`.
unfoldable pub fnv : ℕ → Text → ℕ
fnv state [] = state
fnv state (b ∷ bs) = fnv (bit_xor state b * 0x100000001b3 % 2 ^ 64) bs

-- `{state:016x}`: the last `n` digits, the highest first.
unfoldable pub hex_digits : ℕ → ℕ → Text
hex_digits zero state = []
hex_digits (suc n) state = hex_digits n (state / 16) ++ hex_digit (state % 16) ∷ []

unfoldable pub channel_log_id : Text → Text
unfolding fnv hex_digits
channel_log_id channel = hex_digits 16 (fnv 0xcbf29ce484222325 channel)

hex_test : hex (0x0a ∷ 0xff ∷ []) ≡ b'0' ∷ b'a' ∷ b'f' ∷ b'f' ∷ []
unfolding hex
hex_test = refl
