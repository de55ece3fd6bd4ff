-- ===== src/Relay/Info.antt =====
-- src/lib.rs: `server_info`. The two JSON documents, without the version that the build gives.
use qsl_server.Base.{ℕ, Text, Option, some, none, List, [], ◌∷◌, String, if◌then◌else◌}
use qsl_server.Secrets.Headers.{HeaderMap, auth_ok}
use qsl_server.Relay.State.{Settings, Deps}

pub data AuthMode : Type 0 where
  bearer open_relay : AuthMode

pub record Capabilities : Type 0 where
  pub name : Text
  pub api : List String
  pub auth : AuthMode
  pub max_body_bytes : ℕ
  pub max_queue_depth : ℕ
  pub max_invite_bundle_bytes : ℕ
  pub max_expiry_secs : ℕ
  pub max_slots : ℕ
  pub ttl_secs : ℕ
  pub attachments : Option Text
  pub min_client_version : Option Text

-- `probe` is the fixed document of status 401.
pub data InfoReply : Type 0 where
  probe : InfoReply
  document : Capabilities → InfoReply

abbrev auth_mode : Option Text → AuthMode
auth_mode none = open_relay
auth_mode (some token) = bearer

abbrev or_default : Option Text → Text
or_default none = []
or_default (some t) = t

unfoldable pub server_info : Settings → Deps → HeaderMap → InfoReply
unfolding auth_ok
server_info st deps headers =
    if auth_ok deps.sha256 deps.to_str headers st.relay_token
    then document (record {
      name = or_default st.server_info.name;
      api = "push_v1" ∷ "pull_v1" ∷ "pull_ack_lease_v1" ∷ "invite_v1" ∷ [];
      auth = auth_mode st.relay_token;
      max_body_bytes = st.limits.max_body_bytes;
      max_queue_depth = st.limits.max_queue_depth;
      max_invite_bundle_bytes = st.invite_limits.max_bundle_bytes;
      max_expiry_secs = st.invite_limits.max_expiry_secs;
      max_slots = st.invite_limits.max_slots;
      ttl_secs = st.retention_ttl_secs;
      attachments = st.server_info.attachments_service_url;
      min_client_version = st.server_info.min_client_version;
    })
    else probe
