-- ===== src/Secrets/Trim.antt =====
-- `str::trim` of the standard library, which the handlers call: White_Space characters at both ends,
-- on the UTF-8 bytes of a text.
use qsl_server.Base.{
  ℕ, zero, suc, Bool, true, false, ◌&&◌, ◌||◌, List, [], ◌∷◌, Text, leb, ◌==◌, if◌then◌else◌, drop,
  length, ◌≡◌, refl,
}

abbrev between : ℕ → ℕ → ℕ → Bool
between lo hi c = leb lo c && leb c hi

-- U+0009..U+000D and U+0020; U+0085 and U+00A0; U+1680, U+2000..U+200A, U+2028, U+2029, U+202F,
-- U+205F and U+3000.
abbrev is_space_1 : ℕ → Bool
is_space_1 a = between 9 13 a || (a == 32)

abbrev is_space_2 : ℕ → ℕ → Bool
is_space_2 a b = (a == 0xc2) && ((b == 0x85) || (b == 0xa0))

abbrev is_space_3 : ℕ → ℕ → ℕ → Bool
is_space_3 a b c =
    ((a == 0xe1) && (b == 0x9a) && (c == 0x80))
    || ((a == 0xe2)
        && (b == 0x80)
        && (between 0x80 0x8a c || (c == 0xa8) || (c == 0xa9) || (c == 0xaf)))
    || ((a == 0xe2) && (b == 0x81) && (c == 0x9f))
    || ((a == 0xe3) && (b == 0x80) && (c == 0x80))

-- How many bytes the space at the front of a text has; zero when there is none.
unfoldable pub space_width : Text → ℕ
space_width [] = 0
space_width (a ∷ []) = if is_space_1 a then 1 else 0
space_width (a ∷ b ∷ []) = if is_space_1 a then 1 else if is_space_2 a b then 2 else 0
space_width (a ∷ b ∷ c ∷ s) =
    if is_space_1 a then 1 else if is_space_2 a b then 2 else if is_space_3 a b c then 3 else 0

unfoldable pub skip_spaces : ℕ → Text → Text
unfolding space_width
skip_spaces zero s = s
skip_spaces (suc n) s =
    let rest = skip_spaces n (drop (space_width s) s) in if space_width s == 0 then s else rest

-- Each turn drops at least a byte, so the length is fuel enough.
unfoldable pub trim_start : Text → Text
unfolding skip_spaces
trim_start s = skip_spaces (length s) s

abbrev pub is_empty {ℓ} : {A : Type ℓ} → List A → Bool
is_empty [] = true
is_empty (x ∷ xs) = false

-- A suffix that is all spaces begins at a character, since no space begins with a continuation byte.
unfoldable pub trim_end : Text → Text
unfolding trim_start
trim_end [] = []
trim_end (c ∷ cs) =
    let rest = trim_end cs in if is_empty (trim_start (c ∷ cs)) then [] else c ∷ rest

unfoldable pub trim : Text → Text
unfolding trim_end trim_start
trim s = trim_end (trim_start s)

-- s.trim().is_empty()
unfoldable pub is_blank : Text → Bool
unfolding trim
is_blank s = is_empty (trim s)

trim_test :
    trim (b' ' ∷ 0xc2 ∷ 0xa0 ∷ b'a' ∷ b' ' ∷ b'b' ∷ 0xe3 ∷ 0x80 ∷ 0x80 ∷ b' ' ∷ [])
    ≡ b'a' ∷ b' ' ∷ b'b' ∷ []
unfolding trim
trim_test = refl
