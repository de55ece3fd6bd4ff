-- ===== src/Base64/Tests.antt =====
-- The theorem on what the decoder accepts, at a padded text.
use qsl_server.Base.{Text, ◌≡◌, refl, List, ℕ, [], ◌∷◌, All}
use qsl_server.Base64.Codec.{b64_encode, b64_decode, trim_padding}
use qsl_server.Base64.Words.{IsByte}
use qsl_server.Base64.Canonical.{b64_decode-canonical}

abbrev padded : Text
padded = b'A' ∷ b'f' ∷ b'p' ∷ b'N' ∷ b'_' ∷ b'w' ∷ b'=' ∷ b'=' ∷ []

abbrev decoded : List ℕ
decoded = 1 ∷ 250 ∷ 77 ∷ 255 ∷ []

b64_decode-canonical_example : All IsByte decoded × (b64_encode decoded ≡ trim_padding padded)
unfolding b64_decode
b64_decode-canonical_example = b64_decode-canonical padded decoded refl
