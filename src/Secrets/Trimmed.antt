-- ===== src/Secrets/Trimmed.antt =====
-- The loop of `trim_start` in Secrets.Trim ends before its fuel does.
use qsl_server.Base.{
  ℕ, zero, suc, ◌+◌, ◌≤◌, false, [], ◌∷◌, Text, ◌==◌, drop, length, ◌≡◌, refl, arith, Bool-cases,
  inl, inr,
}
use qsl_server.Secrets.Trim.{space_width, skip_spaces, trim_start}

space_width-le : (s : Text) → space_width s ≤ length s
unfolding space_width
space_width-le [] = omega arith
space_width-le (a ∷ []) = ground arith
space_width-le (a ∷ b ∷ []) = ground arith
space_width-le (a ∷ b ∷ c ∷ s) = ground arith

length-drop : (n : ℕ) (s : Text) → n ≤ length s → length (drop n s) + n ≡ length s
length-drop zero s h = omega arith
length-drop (suc n) [] h = absurd (omega arith)
length-drop (suc n) (x ∷ s) h = omega (arith, length-drop n s (omega arith))

-- Once no space is at the front, the loop stays where it is.
settled : (n : ℕ) (s : Text) → space_width s ≡ 0 → skip_spaces n s ≡ s
unfolding skip_spaces
settled zero s h = refl
settled (suc n) s h = rw h

further :
    (n : ℕ) (s : Text)
    → (space_width s == 0) ≡ false
    → ((m : ℕ)
        → n ≤ m
        → skip_spaces m (drop (space_width s) s) ≡ skip_spaces n (drop (space_width s) s))
    → (m : ℕ) → suc n ≤ m
    → skip_spaces m s ≡ skip_spaces n (drop (space_width s) s)
unfolding skip_spaces
further n s space more zero le = absurd (omega arith)
further n s space more (suc m) le = rw space (more m (omega arith))

skip_spaces-done :
    (n : ℕ) (s : Text)
    → length s ≤ n
    → (space_width (skip_spaces n s) ≡ 0) × ((m : ℕ) → n ≤ m → skip_spaces m s ≡ skip_spaces n s)
unfolding skip_spaces
skip_spaces-done zero [] h =
    (unfold space_width in refl, λ m le. settled m [] (unfold space_width in refl))
skip_spaces-done zero (c ∷ cs) h = absurd (omega arith)
skip_spaces-done (suc n) s h = elim (Bool-cases (space_width s == 0)) [
  | inl none_left ↦ rw none_left (ground arith, λ m le. settled m s (ground arith))
  | inr space ↦
      let w = space_width s in
      let shorter : length (drop w s) ≤ n =
        ground (arith, space_width-le s, length-drop w s (space_width-le s)) in
      let (done, more) = skip_spaces-done n (drop w s) shorter in
      rw space (done, further n s space more)
]

-- The loop of `trim_start` ends: with the length of the text for fuel, or more, it gives the same, and no
-- space is left at the front.
pub trim_start-done :
    (s : Text) (n : ℕ)
    → length s ≤ n
    → (space_width (trim_start s) ≡ 0) × (skip_spaces n s ≡ trim_start s)
unfolding trim_start
trim_start-done s n h =
    let (done, more) = skip_spaces-done (length s) s (omega arith) in (done, more n h)
