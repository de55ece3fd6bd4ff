-- ===== src/Secrets/Headers.antt =====
-- src/lib.rs: `auth_ok` and `resolve_route_token`. `HeaderValue::to_str` is a parameter.
use qsl_server.Base.{
  ℕ, Bool, true, false, Option, some, none, List, [], ◌∷◌, Text, if◌then◌else◌, ◌==◌,
}
use qsl_server.Secrets.Trim.{trim, is_empty}
use qsl_server.Secrets.Compare.{ct_eq_secret}

-- The headers that the handlers read, each with its raw value.
pub record HeaderMap : Type 0 where
  pub authorization : Option (List ℕ)
  pub route_token : Option (List ℕ)
  pub msg_id : Option (List ℕ)
  pub invite_ticket : Option (List ℕ)

-- headers.get(..).and_then(|v| v.to_str().ok())
abbrev pub header_text : (List ℕ → Option Text) → Option (List ℕ) → Option Text
header_text to_str none = none
header_text to_str (some raw) = to_str raw

-- str::strip_prefix
abbrev pub strip_prefix : Text → Text → Option Text
strip_prefix [] s = some s
strip_prefix (p ∷ ps) [] = none
strip_prefix (p ∷ ps) (c ∷ cs) = if p == c then strip_prefix ps cs else none

abbrev pub bearer : Text
bearer = b'B' ∷ b'e' ∷ b'a' ∷ b'r' ∷ b'e' ∷ b'r' ∷ b' ' ∷ []

abbrev pub check_bearer : (Text → List ℕ) → Text → Option Text → Bool
check_bearer sha256 token none = false
check_bearer sha256 token (some raw) = elim (strip_prefix bearer raw) [
  | none ↦ false
  | some provided ↦ ct_eq_secret sha256 provided token
]

unfoldable pub auth_ok : (Text → List ℕ) → (List ℕ → Option Text) → HeaderMap → Option Text → Bool
unfolding ct_eq_secret
auth_ok sha256 to_str headers none = true
auth_ok sha256 to_str headers (some token) =
    check_bearer sha256 token (header_text to_str headers.authorization)

pub data TokenError : Type 0 where
  missing_route_token bad_route_token : TokenError

pub data RouteToken : Type 0 where
  token : Text → RouteToken
  refused : TokenError → RouteToken

abbrev trimmed_token : Option Text → RouteToken
trimmed_token none = refused bad_route_token
trimmed_token (some raw) =
    if is_empty (trim raw) then refused missing_route_token else token (trim raw)

unfoldable pub resolve_route_token : (List ℕ → Option Text) → HeaderMap → RouteToken
unfolding trim
resolve_route_token to_str headers = elim headers.route_token [
  | none ↦ refused missing_route_token
  | some raw ↦ trimmed_token (to_str raw)
]
