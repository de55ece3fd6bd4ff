-- ===== src/Store/Calls.antt =====
-- The transactions of the store as values. One mutex holds the connection, so concurrent requests
-- reach the database as some sequence of these, whatever their handlers do in between.
use qsl_server.Base.{ℕ, Text, Bool, List, [], ◌∷◌}
use qsl_server.Store.Schema.{Db, Store, PullMode}
use qsl_server.Store.Transaction.{Fault}
use qsl_server.Store.Sweep.{retention_sweep}
use qsl_server.Store.Status.{route_status}
use qsl_server.Store.Invites.{NewInvite, invite_create, invite_redeem, invite_revoke}
use qsl_server.Store.Enqueue.{Push, enqueue}
use qsl_server.Store.Pull.{pull}
use qsl_server.Store.Ack.{ack}

pub data Call : Type 0 where
  sweeps : ℕ → Call
  statuses : Text → ℕ → Call
  pushes : Push → Call
  pulls : Text → ℕ → ℕ → ℕ → PullMode → Call
  acks : Text → List Text → ℕ → Call
  creates : NewInvite → ℕ → ℕ → Call
  redeems : Text → ℕ → Text → (Text → Bool) → Call
  revokes : Text → (Text → Bool) → Call

unfoldable pub step : Store → Fault → Call → Db → Db
unfolding retention_sweep route_status enqueue pull ack invite_create invite_redeem invite_revoke
step st f (sweeps now) db = (retention_sweep f st now db).1
step st f (statuses k now) db = (route_status f st k now db).1
step st f (pushes p) db = (enqueue f p db).1
step st f (pulls k max max_bytes now mode) db = (pull f st k max max_bytes now mode db).1
step st f (acks k ids now) db = (ack f st k ids now db).1
step st f (creates n now max_slots) db = (invite_create f st n now max_slots db).1
step st f (redeems k now ticket_hash verify) db = (invite_redeem f k now ticket_hash verify db).1
step st f (revokes k verify) db = (invite_revoke f k verify db).1

unfoldable pub run : Store → List (Fault × Call) → Db → Db
unfolding step
run st [] db = db
run st ((f, c) ∷ cs) db = run st cs (step st f c db)
