-- ===== src/Base64/Size.antt =====
-- How long an encoded text is.
use qsl_server.Base.{ℕ, ◌+◌, ◌*◌, ◌/◌, ◌≡◌, refl, List, [], ◌∷◌, arith, length}
use qsl_server.Base64.Codec.{b64_encode}

pub length-b64_encode : (bs : List ℕ) → length (b64_encode bs) ≡ (4 * length bs + 2) / 3
unfolding b64_encode
length-b64_encode [] = refl
length-b64_encode (a ∷ []) = refl
length-b64_encode (a ∷ b ∷ []) = refl
length-b64_encode (a ∷ b ∷ c ∷ rest) = omega (arith, length-b64_encode rest)
