-- ===== src/Relay/State.antt =====
-- src/lib.rs: `AppState`, the replies of the handlers, and `run_store`. The state that changes is the
-- database and the rate buckets; the settings do not. A request is handled as one sequence of steps.
use qsl_server.Base.{ℕ, ◌*◌, Text, Bool, Option, List}
use qsl_server.Base.Result.{Result, ok, err}
use qsl_server.Config.Limits.{Limits, InviteLimits, ResourceControls}
use qsl_server.Store.Schema.{Db, Store}
use qsl_server.Store.Transaction.{Fault}
use qsl_server.Rate.Bucket.{PushRateBucket}

pub record ServerInfoCfg : Type 0 where
  pub name : Option Text
  pub attachments_service_url : Option Text
  pub min_client_version : Option Text

-- The fields of `AppState` that no request changes.
pub record Settings : Type 0 where
  pub limits : Limits
  pub controls : ResourceControls
  pub relay_token : Option Text
  pub retention_ttl_secs : ℕ
  pub server_info : ServerInfoCfg
  pub invite_limits : InviteLimits
  pub store : Store

-- `push_rates` is the map as an association list.
pub record Relay : Type 0 where
  pub db : Db
  pub push_rates : List (Text × PushRateBucket)
  pub invite_create_rate : PushRateBucket

-- What the libraries do: SHA-256, and `HeaderValue::to_str`.
pub record Deps : Type 0 where
  pub sha256 : Text → List ℕ
  pub to_str : List ℕ → Option Text

-- What a request meets: the two clocks, a fresh random text, whether the lock of the rate buckets can
-- be taken, and the faults of its first and its second call of the store.
pub record Meets : Type 0 where
  pub now : ℕ
  pub mono_now : ℕ
  pub random : Text
  pub lock_ok : Bool
  pub first : Fault
  pub second : Fault

-- The fixed error codes of the replies.
pub data Code : Type 0 where
  err_unauthorized err_missing_route_token err_bad_route_token err_empty_body err_too_large : Code
  err_store err_overloaded err_route_cap err_lock_poison err_rate_limited : Code
  err_invite_expired err_invite_revoked err_invite_ticket_invalid : Code
  err_bad_max err_bad_ack_mode err_bad_ack_body err_bad_ack_ids : Code
  err_invite_too_large err_invite_bad_body err_invite_duplicate err_invite_cap_full : Code
  err_invite_not_found err_invite_already_used err_invite_cap_invalid err_invite_revoke_invalid :
      Code

-- The replies: a status with a code, the JSON bodies of status 200, and 204.
pub data Reply : Type 0 where
  failure : ℕ → Code → Reply
  posted : Text → Reply
  pulled : List (Text × List ℕ) → Reply
  no_content : Reply
  acked : ℕ → Reply
  invite_created : Text → Reply
  invite_opened : Text → Text → Text → Reply
  invite_revoked : Reply

-- The errors of the store and of the task that runs it have one code.
pub data Stored {ℓ} (A : Type ℓ) : Type ℓ where
  stored : A → Stored A
  store_failed : Stored A

unfoldable pub run_store {ℓ} : {A : Type ℓ} → Result A → Stored A
run_store (ok v) = stored v
run_store (err e) = store_failed

-- The byte limits of the JSON routes.
abbrev pub invite_redeem_body_cap : ℕ
invite_redeem_body_cap = 4 * 1024

abbrev pub invite_revoke_body_cap : ℕ
invite_revoke_body_cap = 4 * 1024

abbrev pub ack_body_cap : ℕ
ack_body_cap = 1024 * 1024
