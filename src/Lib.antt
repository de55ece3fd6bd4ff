-- ===== src/Lib.antt =====
-- A model of qsl-server, a store-and-forward relay for opaque messages, with proofs.
--
-- The program has three source files. src/store.rs keeps the queue in SQLite: routes, messages and
-- invite slots. src/lib.rs has the limits, the rate buckets, the handling of secrets, a base64 codec
-- and the HTTP handlers, which check a request, ask the store, and turn its outcome into a reply.
-- src/main.rs resolves the configuration from the command line and the environment.
--
-- Base passes library names on and has the shared lemmas: lists (Base.Lists), texts as UTF-8 bytes
-- (Base.Bytes), tables as lists of rows (Base.Table), `Result` (Base.Result), the bit operations
-- (Base.Bits) and the parsing of unsigned integers (Base.Number).
--
-- Store models src/store.rs. Store.Schema has the tables and the outcome types; Store.Transaction the
-- shape of a transaction; Store.Open `Store::open`; Store.Sweep `sweep_expired` and
-- `retention_sweep`; Store.Status `route_status`; Store.Invites `invite_create`, `invite_redeem` and
-- `invite_revoke`; Store.Enqueue `enqueue`; Store.Pull `pull`; Store.Ack `ack`. Store.Calls has the
-- transactions as values and a run of them. Store.Valid is about the invariant of the tables,
-- Store.Bounds about the caps, Store.Delivery about the rows that a pull picks, Store.Queue about the
-- queue that a route shows, the messages that last and the rows that are gone, Store.Mailbox about an
-- abstract store of mailboxes, without tables, numbers and routes (Mailbox.Letters and
-- Mailbox.Promises are that specification), Store.Report about the report of a sweep, Store.Keyed
-- about the keys that are stored, Store.Slots about the life of an invite slot, Store.Prepared
-- about the statements of an open that come before the check of the schema marker, Store.Version and
-- Store.Reopen about that marker and the file that an open leaves.
--
-- Config models the limits of src/lib.rs, `resolve_config` of src/main.rs (Config.Resolve) and what
-- both files read from the environment (Config.Env). Rate models `PushRateBucket`. Base64 models
-- `b64_decode` and `b64_encode`. Secrets models `sha256_hex`, `route_key_for`, `channel_log_id`,
-- `ct_eq_secret`, `auth_ok` and `resolve_route_token`. Relay models `AppState` and the handlers:
-- Relay.Push `push_message`, Relay.Queues `pull_message` and `ack_messages`, Relay.Slots the three
-- invite handlers, Relay.Info `server_info`, Relay.Buckets the sweep and the map of buckets,
-- Relay.Start `new_full` and the other constructors. Relay.Main is the `main` of src/main.rs up to
-- the state that it serves; Relay.Requests has the routes of `app` and the ticks of the sweep,
-- Relay.Sweeper the times of these ticks; Relay.Actions the accesses to the shared state that
-- requests and sweeps make, each under one lock. Relay.Posted, Relay.Delivered, Relay.Created,
-- Relay.Published, Relay.Admitted and Relay.Handshake are about requests that follow each other: a
-- push and a pull, and an invite from its publication to the push that its ticket admits.
-- Relay.Authorized is about the bearer check in front of all routes, Relay.Admission about the bounds
-- of a create request.
-- Relay.Interrupted has `push_message` again, with what other requests do between its accesses as an
-- argument. Relay.Steps takes each handler apart into its accesses, Relay.Reach has the states that
-- accesses reach in any order, Relay.Sound is about their invariant, Relay.Started about a start, and
-- Relay.Lives about the relay from one start to the next.
--
-- How the model stands to the code:
--   * A table is the list of its rows in the order of its key, and an SQL statement is the list
--     function that it describes. `ORDER BY seq` is the order of the list, since the numbers of the
--     rows increase. `next_seq` is the counter of AUTOINCREMENT.
--   * A transaction is a function of the tables. It commits what it computed, or returns early and
--     rolls everything back, a sweep or a spent ticket included. A poisoned lock and an SQLite error
--     are arguments; either ends the transaction before its commit, so one fault stands for an error
--     of any statement.
--   * One mutex holds the connection, so the transactions of concurrent requests are some sequence of
--     transactions; a theorem on a run holds for every interleaving. A handler of Relay is one
--     request without another between its steps; Relay.Interrupted lets others come between those of
--     a push, and Relay.Reach lets the accesses of any requests come in any order.
--   * Times are Unix seconds in ℕ: `now_unix_secs` is never negative. `enqueued_at <= now - ttl` is
--     written as a sum. The clock is far below 2^63, so a lease's deadline does not overflow. An
--     `Instant` is a number of nanoseconds. A `usize` has 64 bits.
--   * The order in which SQL groups the expired routes is not specified; the model has that of the
--     routes.
--   * SHA-256, `HeaderValue::to_str`, the JSON parsers and the random tokens are arguments. The error
--     codes of the replies are constructors. Log lines are left out.
--   * `Store::open` is a sequence of statements on the file, each a transaction of its own; one that
--     fails leaves what those before it did. A file knows which tables it has.
--   * Loops are recursion on lists or on a number of turns. `str::trim` of the standard library is
--     written for what the handlers use of it; its loop has the length of the text for fuel, and each
--     turn drops a byte at least.
--
-- Not modelled: the decoding of HTTP, the accept loop and the parsing of the command line, and the
-- libraries that do this (axum, tokio, clap). The libraries that the model has as arguments are
-- rusqlite, serde, sha2, uuid and the timer of tokio; `std::env::var`, the parsing of a socket
-- address and binding it are arguments too.
pub mod Base
pub mod Store
pub mod Base64
pub mod Config
pub mod Rate
pub mod Secrets
pub mod Relay
