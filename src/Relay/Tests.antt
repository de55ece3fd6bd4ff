-- ===== src/Relay/Tests.antt =====
-- The theorems on the handlers, the secrets, base64, the buckets and the configuration, at concrete
-- values. The digest here is a stand-in of 32 bytes.
use qsl_server.Base.{
  ℕ, zero, suc, ◌+◌, ◌-◌, ◌*◌, ◌/◌, ◌≤◌, Text, ◌≡◌, ◌≢◌, ◌↔◌, ◌⊎◌, refl, true, false, Option, some,
  none, List, [], ◌∷◌, arith, length, ascii,
}
use qsl_server.Base64.Codec.{b64_encode, b64_decode}
use qsl_server.Base64.RoundTrip.{b64_decode-b64_encode}
use qsl_server.Config.Limits.{default_limits, default_controls, default_invite_limits}
use qsl_server.Config.Resolve.{Cli, EnvVals, Config, assemble}
use qsl_server.Rate.Bucket.{PushRateBucket}
use qsl_server.Rate.Budget.{consumes, consumes_budget}
use qsl_server.Rate.Stale.{repeated, at_tokens, full_bucket_admits_extra}
use qsl_server.Secrets.Compare.{ct_eq_secret}
use qsl_server.Secrets.Equal.{ct_eq_secret_iff}
use qsl_server.Secrets.Headers.{HeaderMap, auth_ok}
use qsl_server.Store.Schema.{fresh}
use qsl_server.Store.Transaction.{healthy}
use qsl_server.Relay.State.{Settings, Relay, Deps, Meets, Code, failure}
use qsl_server.Relay.Push.{push_message}
use qsl_server.Relay.Queues.{PullQuery}
use qsl_server.Relay.Expiry.{push_message-never_expired}
use qsl_server.Relay.Requests.{Parsers, post_push, replied, serve}
use qsl_server.Relay.Authorized.{Carries, serve-authorized}

abbrev pub copies : ℕ → ℕ → List ℕ
copies zero b = []
copies (suc n) b = b ∷ copies n b

abbrev pub digest : Text → List ℕ
digest s = copies 32 (length s)

abbrev pub deps : Deps
deps = record { sha256 = digest; to_str = λ raw. some raw }

abbrev pub headers : HeaderMap
headers = record {
  authorization = none;
  route_token = some (b'r' ∷ []);
  msg_id = some (b'i' ∷ []);
  invite_ticket = none;
}

abbrev pub settings : Option Text → Settings
settings relay_token = record {
  limits = default_limits;
  controls = default_controls;
  relay_token = relay_token;
  retention_ttl_secs = 100;
  server_info = record { name = none; attachments_service_url = none; min_client_version = none };
  invite_limits = default_invite_limits;
  store = record { retention_ttl_secs = 100; pull_lease_secs = 10 };
}

abbrev pub meets : Meets
meets = record {
  now = 5;
  mono_now = 1000;
  random = b'u' ∷ [];
  lock_ok = true;
  first = healthy;
  second = healthy;
}

abbrev pub relay : Relay
relay = record {
  db = fresh;
  push_rates = [];
  invite_create_rate = record { tokens = 32; last_refill = 0 };
}

abbrev query : PullQuery
query = record { max = none; ack = none }

push_message-never_expired_example :
    (push_message (settings none) deps meets headers (1 ∷ []) relay).0
    ≢ failure 410 Code.err_invite_expired
push_message-never_expired_example =
    push_message-never_expired (settings none) deps meets headers (1 ∷ []) relay

abbrev parsers : Parsers
parsers = record { ids = λ b. none; create = λ b. none; redeem = λ b. none; revoke = λ b. none }

serve-authorized_example :
    let st = settings (some (b'k' ∷ [])) in
    ((auth_ok digest (λ raw. some raw) headers (some (b'k' ∷ [])) ≡ true)
      ↔ Carries deps (b'k' ∷ []) headers)
    × (Carries deps (b'k' ∷ []) headers
        ⊎ (serve st deps parsers meets (post_push headers (1 ∷ [])) relay
            ≡ (replied (failure 401 Code.err_unauthorized), relay)))
serve-authorized_example =
    serve-authorized (settings (some (b'k' ∷ []))) deps parsers meets (post_push headers (1 ∷ []))
      relay (b'k' ∷ []) (λ s. refl) refl

b64_decode-b64_encode_example :
    b64_decode (b64_encode (1 ∷ 250 ∷ 77 ∷ 255 ∷ [])) ≡ some (1 ∷ 250 ∷ 77 ∷ 255 ∷ [])
b64_decode-b64_encode_example =
    b64_decode-b64_encode (1 ∷ 250 ∷ 77 ∷ 255 ∷ [])
      (omega arith, (omega arith, (omega arith, (omega arith, tt))))

abbrev drained : PushRateBucket
drained = record { tokens = 1; last_refill = 1000 }

consumes_budget_example :
    (consumes default_controls drained (2000 ∷ 3000 ∷ 1000005000 ∷ [])).0
    ≤ 1 + (2000000000 - 1000) / 1000000000 * 257
consumes_budget_example =
    consumes_budget default_controls 2000000000 (2000 ∷ 3000 ∷ 1000005000 ∷ []) drained
      (omega arith, (omega arith, (omega arith, tt))) (omega arith)

full_bucket_admits_extra_example :
    (consumes default_controls (at_tokens 257 0) (repeated 258 1000000000)).0 ≡ 258
full_bucket_admits_extra_example =
    full_bucket_admits_extra default_controls 1000000000 0 (omega arith) (omega arith) (omega arith)
      (omega arith)

ct_eq_secret_iff_example :
    (ct_eq_secret digest (b'a' ∷ []) (b'b' ∷ b'c' ∷ []) ≡ true)
    ↔ (digest (b'a' ∷ []) ≡ digest (b'b' ∷ b'c' ∷ []))
ct_eq_secret_iff_example = ct_eq_secret_iff digest (b'a' ∷ []) (b'b' ∷ b'c' ∷ []) refl refl

abbrev cli : Cli
cli = record {
  bind = none;
  port = some 9000;
  max_body_bytes = some 5000000;
  max_queue_depth = none;
  max_route_count = none;
  push_rate_burst = none;
  push_rate_refill_per_sec = some 0;
  route_idle_ttl_ms = none;
  store_path = none;
  retention_ttl_secs = some 99;
  pull_lease_secs = none;
  max_invite_slots = none;
  max_invite_bundle_bytes = none;
  max_invite_expiry_secs = none;
  invite_create_burst = none;
  invite_create_refill_per_sec = none;
}

abbrev env : EnvVals
env = record {
  bind = none;
  port = none;
  max_body_bytes = none;
  max_queue_depth = some 7;
  max_route_count = none;
  push_rate_burst = none;
  push_rate_refill_per_sec = none;
  route_idle_ttl_ms_present = false;
  store_path = some (ascii "queue.db");
  retention_ttl_secs = none;
  pull_lease_secs = none;
  max_invite_slots = none;
  max_invite_bundle_bytes = none;
  max_invite_expiry_secs = none;
  invite_create_burst = none;
  invite_create_refill_per_sec = none;
}

abbrev config : Config
config =
    assemble cli env (ascii "queue.db") 99 60 default_invite_limits
      (record { max_body_bytes = 1048576; max_queue_depth = 7 })
      (record default_controls { push_rate_refill_per_sec = 0 })
