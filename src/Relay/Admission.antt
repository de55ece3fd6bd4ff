-- ===== src/Relay/Admission.antt =====
-- What the handlers let through before the store is asked.
use qsl_server.Base.{ℕ, ◌+◌, ◌-◌, ◌^◌, ◌≤◌, ◌<◌, ◌≡◌, some, List, arith, length}
use qsl_server.Config.Limits.{InviteLimits}
use qsl_server.Base64.Codec.{b64_encode}
use qsl_server.Base64.Size.{length-b64_encode}
use qsl_server.Relay.Slots.{at_second, clamp_expiry, invite_create_body_cap}

-- With a positive lifetime and a clock below its last second, an expiry that the handler accepts lies
-- after now, at most the lifetime after it, and is neither later than the one asked for nor beyond the
-- range of a signed 64-bit number.
pub clamp_expiry-window :
    (l : InviteLimits) (now e n : ℕ)
    → clamp_expiry l now (at_second n) ≡ some e
    → 0 < l.max_expiry_secs
    → now < 2 ^ 63 - 1
    → (now < e) × (e ≤ now + l.max_expiry_secs) × (e ≤ n) × (e < 2 ^ 63)
unfolding clamp_expiry
clamp_expiry-window l now e n h p small = ground arith

-- The byte limit of a create request lets every pair of blobs through whose bytes are at most the
-- configured maximum, with 4096 bytes for the frame around their encodings.
pub body_cap-admits :
    (max : ℕ) (bundle sig : List ℕ)
    → length bundle ≤ max
    → length sig ≤ max
    → length (b64_encode bundle) + length (b64_encode sig) + 4096 ≤ invite_create_body_cap max
unfolding invite_create_body_cap
body_cap-admits max bundle sig h g = omega (arith, length-b64_encode bundle, length-b64_encode sig)
