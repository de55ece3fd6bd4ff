-- ===== src/Store/Mailbox/Promises.antt =====
-- What each transaction of the store promises of the mailboxes, and of the messages that it returns.
use qsl_server.Base.{
  ℕ, ◌+◌, ◌≤◌, ◌<◌, min, Text, text_eq, ◌≡◌, ◌⊎◌, none, List, [], ◌∷◌, ◌++◌, map, take, length,
  if◌then◌else◌,
}
use qsl_server.Store.Schema.{Store, StoredMsg, legacy, lease}
use qsl_server.Store.Transaction.{Fault, healthy, lock_poisoned, sql_error}
use qsl_server.Store.Enqueue.{Push}
use qsl_server.Store.Calls.{Call, sweeps, statuses, pushes, pulls, acks, creates, redeems, revokes}
use qsl_server.Store.Delivery.Budget.{usize_max}
use qsl_server.Store.Mailbox.Letters.{
  Letter, Boxes, unexpired, shown, hand_over, lend, discard, content, weight,
}

abbrev pub Unmoved : Boxes → Boxes → Type 0
Unmoved before after = (k : Text) → after k ≡ before k

abbrev pub Cleaned : ℕ → ℕ → Boxes → Boxes → Type 0
Cleaned ttl now before after = (k : Text) → after k ≡ unexpired ttl now (before k)

abbrev pub letter_of : Push → Letter
letter_of p = record { msg_id = p.msg_id; body = p.body; posted_at = p.now; hidden_until = none }

abbrev pub Posted : Push → Boxes → Boxes → Type 0
Posted p before after =
    (k : Text)
    → after k ≡ (if text_eq p.route_key k then before k ++ letter_of p ∷ [] else before k)

-- How many of the shown letters a pull may return: no more than asked, at least one if there is one,
-- and more than one only if together they fit the budget.
abbrev pub Granted : ℕ → ℕ → List Letter → ℕ → Type 0
Granted max max_bytes ls n =
    (n ≤ max) × (min 1 (length ls) ≤ n) × ((weight (take n ls) ≤ max_bytes) ⊎ (n ≤ 1))

abbrev pub OnlyAt : Text → (List Letter → List Letter) → ℕ → ℕ → Boxes → Boxes → Type 0
OnlyAt k change ttl now before after =
    (j : Text)
    → after j ≡ (
        if text_eq j k then change (unexpired ttl now (before j)) else unexpired ttl now (before j))

-- The promise of a transaction that meets a fault is that nothing happens.
abbrev pub Promises : Store → Fault → Call → Boxes → List StoredMsg → Boxes → Type 0
Promises st lock_poisoned c before out after = (out ≡ []) × Unmoved before after
Promises st (sql_error e) c before out after = (out ≡ []) × Unmoved before after
Promises st healthy (sweeps now) before out after =
    (out ≡ []) × Cleaned st.retention_ttl_secs now before after
Promises st healthy (statuses k now) before out after =
    (out ≡ []) × Cleaned st.retention_ttl_secs now before after
Promises st healthy (pushes p) before out after =
    (out ≡ []) × (Unmoved before after ⊎ Posted p before after)
Promises st healthy (pulls k max max_bytes now legacy) before out after =
    let ls = shown now (unexpired st.retention_ttl_secs now (before k)) in
    (n : ℕ) × Granted max max_bytes ls n
    × (out ≡ map content (take n ls))
    × OnlyAt k (hand_over now n) st.retention_ttl_secs now before after
Promises st healthy (pulls k max max_bytes now lease) before out after =
    let ls = shown now (unexpired st.retention_ttl_secs now (before k)) in
    (n : ℕ) × Granted max max_bytes ls n
    × (out ≡ map content (take n ls))
    × OnlyAt k (lend now (now + st.pull_lease_secs) n) st.retention_ttl_secs now before after
Promises st healthy (acks k ids now) before out after =
    (out ≡ []) × OnlyAt k (discard ids) st.retention_ttl_secs now before after
Promises st healthy (creates n now max_slots) before out after =
    (out ≡ []) × (Unmoved before after ⊎ Cleaned st.retention_ttl_secs now before after)
Promises st healthy (redeems k now ticket_hash verify) before out after =
    (out ≡ []) × Unmoved before after
Promises st healthy (revokes k verify) before out after = (out ≡ []) × Unmoved before after

-- A pull asks for something, under a budget that the sum of two sizes cannot reach by saturation.
abbrev pub Asks : Call → Type 0
Asks (pulls k max max_bytes now mode) = (0 < max) × (max_bytes < usize_max)
Asks _ = Unit

-- A history of transactions with what they returned, from some boxes to others.
abbrev pub Honours : Store → List (Fault × Call) → Boxes → List (List StoredMsg) → Boxes → Type 0
Honours st [] before [] after = Unmoved before after
Honours st [] before (out ∷ outs) after = ⊥
Honours st (x ∷ cs) before [] after = ⊥
Honours st ((f, c) ∷ cs) before (out ∷ outs) after =
    (between : Boxes) × Promises st f c before out between × Honours st cs between outs after
