-- ===== src/Relay/Authorized.antt =====
-- What the bearer check of src/lib.rs keeps from the handlers.
use qsl_server.Base.{
  ℕ, ◌≡◌, refl, sym, ap, ap₂, subst, ◌⊎◌, ◌↔◌, inl, inr, true, false, Bool-cases, Option, some,
  none, List, [], ◌∷◌, ◌++◌, Text, length, ◌==◌, ==_iff, arith,
}
use qsl_server.Secrets.Equal.{ct_eq_secret_iff}
use qsl_server.Secrets.Headers.{HeaderMap, header_text, strip_prefix, bearer, check_bearer, auth_ok}
use qsl_server.Relay.State.{Settings, Relay, Deps, Meets, Code, failure}
use qsl_server.Relay.Push.{push_message}
use qsl_server.Relay.Queues.{pull_message, ack_messages}
use qsl_server.Relay.Slots.{invite_create, invite_redeem, invite_revoke}
use qsl_server.Relay.Info.{server_info, probe}
use qsl_server.Relay.Requests.{
  Parsers, Request, post_push, get_pull, post_pull_ack, get_server_info, post_invite_create,
  post_invite_redeem, post_invite_revoke, Response, replied, informed, serve,
}

abbrev pub headers_of : Request → HeaderMap
headers_of (post_push headers body) = headers
headers_of (get_pull headers query) = headers
headers_of (post_pull_ack headers body) = headers
headers_of (get_server_info headers) = headers
headers_of (post_invite_create headers body) = headers
headers_of (post_invite_redeem headers body) = headers
headers_of (post_invite_revoke headers body) = headers

-- The capability route answers with its fixed probe, every other with status 401.
abbrev pub refusal : Request → Response
refusal (post_push headers body) = replied (failure 401 Code.err_unauthorized)
refusal (get_pull headers query) = replied (failure 401 Code.err_unauthorized)
refusal (post_pull_ack headers body) = replied (failure 401 Code.err_unauthorized)
refusal (get_server_info headers) = informed probe
refusal (post_invite_create headers body) = replied (failure 401 Code.err_unauthorized)
refusal (post_invite_redeem headers body) = replied (failure 401 Code.err_unauthorized)
refusal (post_invite_revoke headers body) = replied (failure 401 Code.err_unauthorized)

-- The authorization header is `Bearer ` and a text with the digest of `secret`.
abbrev pub Carries : Deps → Text → HeaderMap → Type 0
Carries deps secret headers =
    (provided : Text) × (header_text deps.to_str headers.authorization ≡ some (bearer ++ provided))
    × (deps.sha256 provided ≡ deps.sha256 secret)

strip_prefix-some : (p s rest : Text) → strip_prefix p s ≡ some rest → s ≡ p ++ rest
strip_prefix-some [] s rest e = cc
strip_prefix-some (p ∷ ps) [] rest e = cc
strip_prefix-some (p ∷ ps) (c ∷ cs) rest e = elim (Bool-cases (p == c)) [
  | inl same ↦
      ap₂ (λ (x : ℕ) (xs : Text). x ∷ xs) (sym ((==_iff p c).0 same))
        (strip_prefix-some ps cs rest (ground (arith, e, same)))
  | inr other ↦ ground (arith, e, other)
]

provided-Carries :
    (sha256 : Text → List ℕ) (secret raw : Text) (left : Option Text)
    → ((s : Text) → length (sha256 s) ≡ 32)
    → strip_prefix bearer raw ≡ left
    → check_bearer sha256 secret (some raw) ≡ true
    → (provided : Text) × (raw ≡ bearer ++ provided) × (sha256 provided ≡ sha256 secret)
provided-Carries sha256 secret raw none size split e = ground (arith, e, split)
provided-Carries sha256 secret raw (some provided) size split e = (
  provided,
  strip_prefix-some bearer raw provided split,
  (ct_eq_secret_iff sha256 provided secret (size provided) (size secret)).0
      (ground (arith, e, split)),
)

check-Carries :
    (sha256 : Text → List ℕ) (secret : Text) (given : Option Text)
    → ((s : Text) → length (sha256 s) ≡ 32)
    → check_bearer sha256 secret given ≡ true
    → (provided : Text) × (given ≡ some (bearer ++ provided)) × (sha256 provided ≡ sha256 secret)
check-Carries sha256 secret none size e = cc
check-Carries sha256 secret (some raw) size e =
    let (provided, parts, same) =
      provided-Carries sha256 secret raw (strip_prefix bearer raw) size refl e in
    (provided, ap some parts, same)

Carries-check :
    (sha256 : Text → List ℕ) (secret provided : Text)
    → ((s : Text) → length (sha256 s) ≡ 32)
    → sha256 provided ≡ sha256 secret
    → check_bearer sha256 secret (some (bearer ++ provided)) ≡ true
Carries-check sha256 secret provided size same =
    (ct_eq_secret_iff sha256 provided secret (size provided) (size secret)).1 same

check_iff :
    (sha256 : Text → List ℕ) (secret : Text) (given : Option Text)
    → ((s : Text) → length (sha256 s) ≡ 32)
    → (check_bearer sha256 secret given ≡ true) ↔ (
        (provided : Text) × (given ≡ some (bearer ++ provided)) × (sha256 provided ≡ sha256 secret))
check_iff sha256 secret given size = (
  check-Carries sha256 secret given size,
  λ (provided, parts, same).
      subst (λ g. check_bearer sha256 secret g ≡ true) (sym parts)
        (Carries-check sha256 secret provided size same),
)

refused :
    (st : Settings) (deps : Deps) (parse : Parsers) (w : Meets) (q : Request) (r : Relay)
    → auth_ok deps.sha256 deps.to_str (headers_of q) st.relay_token ≡ false
    → serve st deps parse w q r ≡ (refusal q, r)
unfolding serve push_message pull_message ack_messages invite_create invite_redeem invite_revoke
    server_info
refused st deps parse w (post_push headers body) r h = rw h
refused st deps parse w (get_pull headers query) r h = rw h
refused st deps parse w (post_pull_ack headers body) r h = rw h
refused st deps parse w (get_server_info headers) r h = rw h
refused st deps parse w (post_invite_create headers body) r h = rw h
refused st deps parse w (post_invite_redeem headers body) r h = rw h
refused st deps parse w (post_invite_revoke headers body) r h = rw h

-- Exactly a bearer of the token gets past the check. Where a token is configured and the digests have
-- 32 bytes, the check of a request's headers passes if and only if the authorization header is
-- `Bearer ` with a text that has the token's digest; and every request of the seven routes either
-- carries such a header, or gets the refusal, which is status 401 and for the capability route its fixed
-- probe, and changes nothing.
pub serve-authorized :
    (st : Settings) (deps : Deps) (parse : Parsers) (w : Meets) (q : Request) (r : Relay)
    (secret : Text)
    → ((s : Text) → length (deps.sha256 s) ≡ 32)
    → st.relay_token ≡ some secret
    → ((auth_ok deps.sha256 deps.to_str (headers_of q) st.relay_token ≡ true)
        ↔ Carries deps secret (headers_of q))
      × (Carries deps secret (headers_of q) ⊎ (serve st deps parse w q r ≡ (refusal q, r)))
unfolding auth_ok
serve-authorized st deps parse w q r secret size configured =
    let given = header_text deps.to_str (headers_of q).authorization in
    let passes = auth_ok deps.sha256 deps.to_str (headers_of q) in
    let checked : (passes st.relay_token ≡ true) ↔ Carries deps secret (headers_of q) =
      subst (λ t. (passes t ≡ true) ↔ Carries deps secret (headers_of q)) (sym configured)
        (check_iff deps.sha256 secret given size) in
    (
      checked,
      elim (Bool-cases (passes st.relay_token)) [
        | inl passed ↦ inl (checked.0 passed)
        | inr failed ↦ inr (refused st deps parse w q r failed)
      ],
    )
