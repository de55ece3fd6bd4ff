-- ===== src/Store/Schema.antt =====
-- src/store.rs: the tables that `Store::open` creates, the invite states, and the types that the
-- operations return. A table is the list of its rows in the order of its integer key. Times are
-- Unix seconds, which `now_unix_secs` never makes negative.
use qsl_server.Base.{
  ℕ, Text, text_eq, Bool, Option, List, [], exists_where, ◌&&◌, delete_where, update_where,
}

-- INVITE_ACTIVE, INVITE_CONSUMED, INVITE_REVOKED
abbrev pub invite_active : ℕ
invite_active = 0

abbrev pub invite_consumed : ℕ
invite_consumed = 1

abbrev pub invite_revoked : ℕ
invite_revoked = 2

-- MAX_ACK_IDS
abbrev pub max_ack_ids : ℕ
max_ack_ids = 4096

pub record Route : Type 0 where
  pub route_key : Text
  pub log_id : Text
  pub created_at : ℕ
  pub last_touched : ℕ

pub record Message : Type 0 where
  pub seq : ℕ
  pub msg_id : Text
  pub route_key : Text
  pub body : List ℕ
  pub enqueued_at : ℕ
  pub leased_until : Option ℕ

pub record Invite : Type 0 where
  pub slot_key : Text
  pub log_id : Text
  pub cap_hash : Text
  pub revoke_hash : Text
  pub bundle : List ℕ
  pub invite_sig : List ℕ
  pub expiry : ℕ
  pub created_at : ℕ
  pub state : ℕ
  pub consumed_at : Option ℕ
  pub ticket_hash : Option Text

-- `next_seq` is the counter behind AUTOINCREMENT.
pub record Db : Type 0 where
  pub routes : List Route
  pub messages : List Message
  pub invites : List Invite
  pub next_seq : ℕ

-- The tables as `Store::open` creates them.
abbrev pub fresh : Db
fresh = record { routes = []; messages = []; invites = []; next_seq = 1 }

-- WHERE route_key = ?1, over each table.
abbrev pub route_is : Text → Route → Bool
route_is k r = text_eq r.route_key k

abbrev pub message_on : Text → Message → Bool
message_on k m = text_eq m.route_key k

abbrev pub invite_is : Text → Invite → Bool
invite_is k i = text_eq i.slot_key k

abbrev pub has_route : Text → Db → Bool
has_route k db = exists_where (route_is k) db.routes

-- UPDATE routes SET last_touched = ?2 WHERE route_key = ?1
unfoldable pub touch : Text → ℕ → Db → Db
touch k now db = record db {
  routes = update_where (route_is k) (λ r. record r { last_touched = now }) db.routes;
}

-- DELETE FROM routes WHERE p, with the messages' ON DELETE CASCADE.
unfoldable pub delete_routes : (Route → Bool) → Db → Db
delete_routes p db = record db {
  routes = delete_where p db.routes;
  messages =
      delete_where (λ m. exists_where (λ r. p r && text_eq r.route_key m.route_key) db.routes)
        db.messages;
}

-- The open store: the file, and the two validated durations.
pub record Store : Type 0 where
  pub retention_ttl_secs : ℕ
  pub pull_lease_secs : ℕ

pub record StoredMsg : Type 0 where
  pub msg_id : Text
  pub body : List ℕ

pub record SweepStats : Type 0 where
  pub expired_messages : ℕ
  pub expired_routes : List (Text × ℕ)
  pub removed_route_keys : List Text
  pub expired_invites : ℕ

pub data SlotReject : Type 0 where
  expired revoked ticket_invalid : SlotReject

pub data EnqueueOutcome : Type 0 where
  accepted : EnqueueOutcome
  overloaded : ℕ → EnqueueOutcome
  route_cap : ℕ → EnqueueOutcome
  slot_rejected : SlotReject → EnqueueOutcome

-- `legacy` deletes on delivery; `lease` hides what it delivers until a deadline.
pub data PullMode : Type 0 where
  legacy lease : PullMode

pub record PullOutcome : Type 0 where
  pub items : List StoredMsg
  pub route_drained : Bool
  pub sweep : SweepStats

pub record AckOutcome : Type 0 where
  pub acked : ℕ
  pub route_drained : Bool
  pub sweep : SweepStats

pub record RouteStatus : Type 0 where
  pub route_exists : Bool
  pub depth : ℕ
  pub live_routes : ℕ
  pub sweep : SweepStats

pub data InviteCreateOutcome : Type 0 where
  created duplicate : InviteCreateOutcome
  cap_full : ℕ → InviteCreateOutcome

pub data InviteRedeemOutcome : Type 0 where
  redeemed : List ℕ → List ℕ → InviteRedeemOutcome
  not_found revoked expired already_used cap_invalid : InviteRedeemOutcome

pub data InviteRevokeOutcome : Type 0 where
  revoked already_revoked not_found token_invalid : InviteRevokeOutcome
