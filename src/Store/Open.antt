-- ===== src/Store/Open.antt =====
-- src/store.rs: `Store::open` and `write_schema_version`. The file is what SQLite keeps in it: each table
-- if it is there, with its rows, the indexes, and the journal mode. A file that is not there yet is one
-- without tables. A table of the name that is there is one with the columns that this build expects.
use qsl_server.Base.{
  ℕ, ◌+◌, ◌^◌, Text, Bool, true, false, Option, some, none, List, [], ◌∷◌, String, take, ltb, ◌==◌,
  if◌then◌else◌,
}
use qsl_server.Base.Number.{number}
use qsl_server.Base.Result.{Result, ok, err, ◌>>=◌}
use qsl_server.Config.Limits.{StoreConfig, retention_ttl_or_error, pull_lease_or_error}
use qsl_server.Store.Schema.{Db, Route, Message, Invite, Store}
use qsl_server.Store.Transaction.{map_err}

-- `meta` has at most the row of the schema marker; `next_seq` is the counter behind AUTOINCREMENT.
pub record File : Type 0 where
  pub wal : Bool
  pub meta : Option (Option Text)
  pub routes : Option (List Route)
  pub messages : Option (List Message)
  pub invites : Option (List Invite)
  pub idx_messages_route_seq : Bool
  pub idx_messages_enqueued : Bool
  pub idx_invites_expiry : Bool
  pub next_seq : ℕ

-- The marker that the file has, if any.
abbrev pub marker_in : Option (Option Text) → Option Text
marker_in none = none
marker_in (some m) = m

abbrev pub marker : File → Option Text
marker f = marker_in f.meta

abbrev pub rows : {A : Type 0} → Option (List A) → List A
rows none = []
rows (some xs) = xs

-- The rows that the file has.
abbrev pub tables : File → Db
tables f = record {
  routes = rows f.routes;
  messages = rows f.messages;
  invites = rows f.invites;
  next_seq = f.next_seq;
}

-- CREATE TABLE IF NOT EXISTS, for a table that is new with `empty`.
abbrev pub create : {A : Type 0} → A → Option A → Option A
create empty none = some empty
create empty (some t) = some t

-- What the statements before the marker is checked do to the file, each in a transaction of its own: the
-- three pragmas, of which the first is kept in the file, the seven of the batch, and the SELECT of the
-- marker.
abbrev pub statements : List (File → File)
statements =
    (λ f. record f { wal = true })
    ∷ (λ f. f)
    ∷ (λ f. f)
    ∷ (λ f. record f { meta = create none f.meta })
    ∷ (λ f. record f { routes = create [] f.routes })
    ∷ (λ f. record f { messages = create [] f.messages })
    ∷ (λ f. record f { idx_messages_route_seq = true })
    ∷ (λ f. record f { idx_messages_enqueued = true })
    ∷ (λ f. record f { invites = create [] f.invites })
    ∷ (λ f. record f { idx_invites_expiry = true })
    ∷ (λ f. f)
    ∷ []

abbrev pub run_all : List (File → File) → File → File
run_all [] f = f
run_all (s ∷ ss) f = run_all ss (s f)

-- What the open meets: whether SQLite opens the file, the first of `statements` that fails, if any, by
-- its place and with SQLite's message, and the error of writing the marker.
pub record Setup : Type 0 where
  pub opened : Bool
  pub prepare : Option (ℕ × String)
  pub write : Option String

-- An `i64`: `minus n` is below zero or zero.
pub data Signed : Type 0 where
  plus minus : ℕ → Signed

abbrev positive : Option ℕ → Option Signed
positive none = none
positive (some n) = some (plus n)

abbrev negative : Option ℕ → Option Signed
negative none = none
negative (some n) = some (minus n)

-- str::parse::<i64>
unfoldable pub parse_i64 : Text → Option Signed
unfolding number
parse_i64 [] = none
parse_i64 (c ∷ cs) =
    if c == b'-'
    then negative (number (2 ^ 63 + 1) cs)
    else if c == b'+'
    then positive (number (2 ^ 63) cs)
    else positive (number (2 ^ 63) (c ∷ cs))

-- SCHEMA_VERSION
abbrev pub schema_version : ℕ
schema_version = 2

-- `SCHEMA_VERSION.to_string()`
abbrev pub schema_text : Text
schema_text = b'2' ∷ []

abbrev pub write_marker : Option String → File → Result Text × File
write_marker none f = (ok schema_text, record f { meta = some (some schema_text) })
write_marker (some e) f = (err (map_err e), f)

unfoldable pub write_schema_version : Setup → File → Result Text × File
unfolding map_err
write_schema_version w f = write_marker w.write f

abbrev pub is_newer : Signed → Bool
is_newer (plus n) = ltb schema_version n
is_newer (minus n) = false

abbrev pub is_older : Signed → Bool
is_older (plus n) = ltb n schema_version
is_older (minus n) = true

abbrev pub opened_as : Store → Result Text × File → Result Store × File
opened_as st (ok t, f) = (ok st, f)
opened_as st (err e, f) = (err e, f)

-- The version that a marker says.
unfoldable pub version : Option Text → Option Signed
unfolding parse_i64
version none = none
version (some raw) = parse_i64 raw

-- The marker that was stored, if any.
unfoldable pub check_version : Setup → Store → File → Option Signed → Result Store × File
unfolding write_schema_version
check_version w st f none = (err "ERR_STORE_VERSION", f)
check_version w st f (some v) =
    if is_newer v
    then (err "ERR_STORE_VERSION", f)
    else if is_older v
    then opened_as st (write_schema_version w f)
    else (ok st, f)

unfoldable pub open_version : Setup → Store → File → Option Text → Result Store × File
unfolding write_schema_version check_version parse_i64
open_version w st f none = opened_as st (write_schema_version w f)
open_version w st f (some raw) = check_version w st f (parse_i64 raw)

-- A statement that fails leaves what those before it did.
abbrev pub prepared :
    Option (ℕ × String) → (File → Result Store × File) → File → Result Store × File
prepared none go f = go (run_all statements f)
prepared (some (n, e)) go f = (err (map_err e), run_all (take n statements) f)

unfoldable pub open_file : Setup → Store → File → Result Store × File
unfolding open_version map_err
open_file w st f =
    if w.opened
    then prepared w.prepare (λ g. open_version w st g (marker g)) f
    else (err "ERR_INVALID_CONFIG_STORE_PATH", f)

abbrev pub with_store : Result Store → (Store → Result Store × File) → File → Result Store × File
with_store (ok st) go f = go st
with_store (err e) go f = (err e, f)

unfoldable pub durations : StoreConfig → Result Store
unfolding retention_ttl_or_error pull_lease_or_error
durations cfg = do
  ttl ← retention_ttl_or_error cfg.retention_ttl_secs
  lease ← pull_lease_or_error cfg.pull_lease_secs
  ok (record { retention_ttl_secs = ttl; pull_lease_secs = lease })

unfoldable pub open_store : StoreConfig → Setup → File → Result Store × File
unfolding durations open_file
open_store cfg w f = with_store (durations cfg) (λ st. open_file w st f) f
