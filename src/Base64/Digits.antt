-- ===== src/Base64/Digits.antt =====
-- src/lib.rs: the alphabet, `val` of `b64_decode` and the table `T` of `b64_encode`.
use qsl_server.Base.{
  ℕ, ◌+◌, ◌-◌, ◌<◌, ◌≡◌, Bool, ◌&&◌, Option, none, some, arith, leb, ltb, ◌==◌, if◌then◌else◌,
}

abbrev between : ℕ → ℕ → ℕ → Bool
between lo hi c = leb lo c && leb c hi

unfoldable pub val : ℕ → Option ℕ
val c =
    if between b'A' b'Z' c
    then some (c - b'A')
    else if between b'a' b'z' c
    then some (c - b'a' + 26)
    else if between b'0' b'9' c
    then some (c - b'0' + 52)
    else if c == b'-'
    then some 62
    else if c == b'_'
    then some 63
    else none

-- T[n], for n below 64.
unfoldable pub digit : ℕ → ℕ
digit n =
    if ltb n 26
    then b'A' + n
    else if ltb n 52
    then b'a' + (n - 26)
    else if ltb n 62
    then b'0' + (n - 52)
    else if n == 62
    then b'-'
    else b'_'

pub val-digit : (n : ℕ) → n < 64 → val (digit n) ≡ some n
unfolding val digit
val-digit n h = ground arith

pub digit-val : (c n : ℕ) → val c ≡ some n → digit n ≡ c
unfolding val digit
digit-val c n h = ground arith

pub val-lt : (c n : ℕ) → val c ≡ some n → n < 64
unfolding val
val-lt c n h = ground arith
