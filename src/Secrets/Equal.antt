-- ===== src/Secrets/Equal.antt =====
-- What the folded comparison of two secrets decides.
use Prim.Native.Nat.{bit_xor, bit_or}
use qsl_server.Base.{
  ℕ, zero, suc, ◌+◌, ◌≤◌, ◌<◌, ◌≡◌, refl, sym, ap, ap₂, subst, ◌∙◌, ◌↔◌, ◌⊎◌, inl, inr, true, List,
  [], ◌∷◌, length, arith, Text, ==_iff,
}
use qsl_server.Base.Bits.{bit_xor-zero_iff, bit_or-zero_iff}
use qsl_server.Secrets.Compare.{byte_at, fold_diff, ct_eq_secret}

here_or_later : (i j : ℕ) → i ≤ j → (j ≡ i) ⊎ (i + 1 ≤ j)
here_or_later i j h = ground arith

-- A fold that ends at zero began there, and met equal bytes only.
fold_diff-bytes :
    (da db : List ℕ) (i n diff : ℕ)
    → fold_diff da db i n diff ≡ 0
    → (diff ≡ 0) × ((j : ℕ) → i ≤ j → j < i + n → byte_at j da ≡ byte_at j db)
unfolding fold_diff
fold_diff-bytes da db i zero diff e = (e, λ j h g. absurd (omega arith))
fold_diff-bytes da db i (suc n) diff e =
    let (both, later) =
      fold_diff-bytes da db (i + 1) n (bit_or diff (bit_xor (byte_at i da) (byte_at i db))) e in
    let (first, here) = (bit_or-zero_iff diff (bit_xor (byte_at i da) (byte_at i db))).0 both in
    let equal = (bit_xor-zero_iff (byte_at i da) (byte_at i db)).0 here in
    (first, λ j h g. either j h g equal later)
  where
    either :
        (j : ℕ)
        → i ≤ j
        → j < i + suc n
        → byte_at i da ≡ byte_at i db
        → ((k : ℕ) → i + 1 ≤ k → k < i + 1 + n → byte_at k da ≡ byte_at k db)
        → byte_at j da ≡ byte_at j db
    either j h g equal later = elim (here_or_later i j h) [
      | inl e ↦ subst (λ k. byte_at k da ≡ byte_at k db) (sym e) equal
      | inr l ↦ later j l (omega arith)
    ]

fold_diff-same : (d : List ℕ) (i n : ℕ) → fold_diff d d i n 0 ≡ 0
unfolding fold_diff
fold_diff-same d i zero = refl
fold_diff-same d i (suc n) =
    ap (fold_diff d d (i + 1) n) (
      (bit_or-zero_iff 0 (bit_xor (byte_at i d) (byte_at i d))).1
        (refl, (bit_xor-zero_iff (byte_at i d) (byte_at i d)).1 refl))
    ∙ fold_diff-same d (i + 1) n

byte_at-ext :
    (xs ys : List ℕ)
    → length xs ≡ length ys
    → ((j : ℕ) → j < length xs → byte_at j xs ≡ byte_at j ys)
    → xs ≡ ys
byte_at-ext [] [] e h = refl
byte_at-ext [] (y ∷ ys) e h = absurd (omega arith)
byte_at-ext (x ∷ xs) [] e h = absurd (omega arith)
byte_at-ext (x ∷ xs) (y ∷ ys) e h =
    ap₂ (λ (z : ℕ) (zs : List ℕ). z ∷ zs) (h 0 (omega arith))
      (byte_at-ext xs ys (omega arith) (λ j g. h (suc j) (omega arith)))

-- Over a digest function whose values have 32 bytes, the comparison of two secrets holds exactly if
-- their digests are equal.
pub ct_eq_secret_iff :
    (sha256 : Text → List ℕ) (a b : Text)
    → length (sha256 a) ≡ 32
    → length (sha256 b) ≡ 32
    → (ct_eq_secret sha256 a b ≡ true) ↔ (sha256 a ≡ sha256 b)
unfolding ct_eq_secret
ct_eq_secret_iff sha256 a b h g = (
  λ e. byte_at-ext (sha256 a) (sha256 b) (h ∙ sym g) (λ j l.
      (fold_diff-bytes (sha256 a) (sha256 b) 0 32 0 ((==_iff _ 0).0 e)).1 j (omega arith)
        (omega arith)),
  λ e.
      (==_iff _ 0).1
        (subst (λ d. fold_diff (sha256 a) d 0 32 0 ≡ 0) e (fold_diff-same (sha256 a) 0 32)),
)

-- A secret equals itself.
pub ct_eq_secret-same : (sha256 : Text → List ℕ) (a : Text) → ct_eq_secret sha256 a a ≡ true
unfolding ct_eq_secret
ct_eq_secret-same sha256 a = (==_iff _ 0).1 (fold_diff-same (sha256 a) 0 32)
