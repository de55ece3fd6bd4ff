-- ===== src/Secrets/Compare.antt =====
-- src/lib.rs: `ct_eq_secret`, over a digest function that is a parameter.
use Prim.Native.Nat.{bit_xor, bit_or}
use qsl_server.Base.{ℕ, zero, suc, ◌+◌, Bool, List, [], ◌∷◌, Text, ◌==◌}

-- d[i]; a digest has 32 bytes, so the source never indexes out of range.
abbrev pub byte_at : ℕ → List ℕ → ℕ
byte_at n [] = 0
byte_at zero (b ∷ bs) = b
byte_at (suc n) (b ∷ bs) = byte_at n bs

-- diff after the indices from `i` on, `n` of them.
unfoldable pub fold_diff : List ℕ → List ℕ → ℕ → ℕ → ℕ → ℕ
fold_diff da db i zero diff = diff
fold_diff da db i (suc n) diff =
    fold_diff da db (i + 1) n (bit_or diff (bit_xor (byte_at i da) (byte_at i db)))

unfoldable pub ct_eq_secret : (Text → List ℕ) → Text → Text → Bool
unfolding fold_diff
ct_eq_secret sha256 a b = fold_diff (sha256 a) (sha256 b) 0 32 0 == 0
