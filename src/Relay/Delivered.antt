-- ===== src/Relay/Delivered.antt =====
-- A pushed message, pulled.
use qsl_server.Base.{
  select_every, ℕ, zero, suc, ◌+◌, ◌≤◌, ◌<◌, min, max, Text, ◌≡◌, refl, sym, ap, subst, ◌∙◌, Bool,
  true, false, not, ◌&&◌, none, some, List, [], ◌∷◌, ◌++◌, map, arith, All, All-append, length,
  length-append, take, ◌==◌, select, select-select, select_congr,
}
use qsl_server.Base.Result.{Result, ok, err, ok-inj}
use qsl_server.Secrets.Hex.{route_key_for}
use qsl_server.Secrets.Trim.{is_empty}
use qsl_server.Secrets.Headers.{HeaderMap, auth_ok, token, resolve_route_token}
use qsl_server.Store.Schema.{Db, Store, Message, StoredMsg, PullOutcome, legacy, message_on}
use qsl_server.Store.Transaction.{healthy}
use qsl_server.Store.Sweep.{swept, is_expired}
use qsl_server.Store.Pull.{pull, deliver, is_visible, is_free, stored_msg}
use qsl_server.Store.Delivery.Prefix.{visible}
use qsl_server.Store.Delivery.Budget.{bytes, usize_max, deliver_budget}
use qsl_server.Store.Queue.View.{queue, messages-swept}
use qsl_server.Store.Queue.Push.{new_message}
use qsl_server.Store.Queue.Take.{pull_items}
use qsl_server.Relay.State.{Settings, Relay, Deps, Meets, posted, pulled, stored, run_store}
use qsl_server.Relay.Push.{push_of, push_message}
use qsl_server.Relay.Posted.{push_message-kept}
use qsl_server.Relay.Queues.{
  PullQuery, pull_budget_bytes, pull_reply, pull_mode_given, pull_mode, pull_token, pull_message,
}

-- A message that a pull at this time delivers, if it is on the route.
abbrev pub ready : ℕ → ℕ → Message → Bool
ready ttl now m = is_free now m.leased_until && not (is_expired ttl now m)

-- What is visible after a sweep, from the queue before it.
visible-swept :
    (k : Text) (ttl now : ℕ) (db : Db)
    → visible k now (swept ttl now db) ≡ select (ready ttl now) (queue k db)
visible-swept k ttl now db =
    ap (select (is_visible k now)) (messages-swept ttl now db)
    ∙ select-select (is_visible k now) (λ m. not (is_expired ttl now m)) db.messages
    ∙ select_congr _ _ db.messages (λ m. ground arith)
    ∙ sym (select-select (ready ttl now) (message_on k) db.messages)

take_enough : (n : ℕ) (ms : List Message) → length ms ≤ n → take n ms ≡ ms
take_enough zero [] h = refl
take_enough zero (m ∷ ms) h = absurd (omega arith)
take_enough (suc n) [] h = refl
take_enough (suc n) (m ∷ ms) h = ap (◌∷◌ m) (take_enough n ms (omega arith))

-- A pull that may return the whole queue delivers it.
deliver-queue :
    (st : Store) (k : Text) (n max_bytes now : ℕ) (db : Db)
    → All (λ m. ready st.retention_ttl_secs now m ≡ true) (queue k db)
    → 0 < n
    → length (queue k db) ≤ n
    → bytes (queue k db) ≤ max_bytes
    → max_bytes < usize_max
    → deliver k n max_bytes now (swept st.retention_ttl_secs now db) ≡ queue k db
deliver-queue st k n mb now db fine pos room fits small =
    let after = swept st.retention_ttl_secs now db in
    let shown : visible k now after ≡ queue k db =
      visible-swept k st.retention_ttl_secs now db ∙ select_every _ (queue k db) fine in
    let all : take n (visible k now after) ≡ queue k db =
      ap (take n) shown ∙ take_enough n (queue k db) room in
    let (a, b, c, uncut) = deliver_budget k n mb now after pos small in
    uncut (subst (λ ms. bytes ms ≤ mb) (sym all) fits) ∙ all

bytes-snoc : (ms : List Message) (m : Message) → bytes (ms ++ m ∷ []) ≡ bytes ms + length m.body
bytes-snoc [] m = omega arith
bytes-snoc (x ∷ ms) m = omega (arith, bytes-snoc ms m)

abbrev pub item_of : Message → Text × List ℕ
item_of m = (m.msg_id, m.body)

map-snoc :
    (ms : List Message) (m : Message)
    → map item_of (ms ++ m ∷ []) ≡ map item_of ms ++ item_of m ∷ []
map-snoc [] m = refl
map-snoc (x ∷ ms) m = ap (◌∷◌ (item_of x)) (map-snoc ms m)

map-items :
    (ms : List Message)
    → map (λ (i : StoredMsg). (i.msg_id, i.body)) (map stored_msg ms) ≡ map item_of ms
map-items [] = refl
map-items (x ∷ ms) = ap (◌∷◌ (item_of x)) (map-items ms)

not_empty : (ms : List Message) (m : Message) → is_empty (map stored_msg (ms ++ m ∷ [])) ≡ false
not_empty [] m = refl
not_empty (x ∷ ms) m = refl

some_items :
    (lock_ok : Bool) (k : Text) (out : PullOutcome) (r : Relay) (ms : List Message) (m : Message)
    → out.items ≡ map stored_msg (ms ++ m ∷ [])
    → (pull_reply lock_ok k (stored out) r).0 ≡ pulled (map item_of (ms ++ m ∷ []))
unfolding pull_reply
some_items lock_ok k out r ms m e = rw (e, not_empty ms m) (ap pulled (map-items (ms ++ m ∷ [])))

result_items :
    (lock_ok : Bool) (k : Text) (result : Result PullOutcome) (r : Relay) (out : PullOutcome)
    (ms : List Message) (m : Message)
    → result ≡ ok out
    → out.items ≡ map stored_msg (ms ++ m ∷ [])
    → (pull_reply lock_ok k (run_store result) r).0 ≡ pulled (map item_of (ms ++ m ∷ []))
unfolding run_store
result_items lock_ok k (ok x) r out ms m e items =
    let same : x ≡ out = ok-inj e in
    some_items lock_ok k x r ms m (ap (λ (o : PullOutcome). o.items) same ∙ items)
result_items lock_ok k (err x) r out ms m e items = cc

-- The store's part: the whole queue, which is ready, is delivered.
mode-pulled :
    (st : Settings) (w : Meets) (k : Text) (n : ℕ) (r : Relay) (before : List Message) (m : Message)
    → w.first ≡ healthy
    → let ms = before ++ m ∷ [] in
      queue k r.db ≡ ms
      → All (λ m. ready st.store.retention_ttl_secs w.now m ≡ true) ms
      → 0 < n
      → length ms ≤ n
      → bytes ms ≤ max pull_budget_bytes st.limits.max_body_bytes
      → st.limits.max_body_bytes < usize_max
      → (pull_mode_given st w k n (some legacy) r).0 ≡ pulled (map item_of ms)
unfolding pull_mode_given
mode-pulled st w k n r before m fine shown unexpired pos room fits small =
    let mb = max pull_budget_bytes st.limits.max_body_bytes in
    let (out, returned, items) = pull_items st.store k n mb w.now legacy r.db in
    let whole : deliver k n mb w.now (swept st.store.retention_ttl_secs w.now r.db) ≡ queue k r.db =
      deliver-queue st.store k n mb w.now r.db (rw shown unexpired) pos (rw shown room)
        (rw shown fits) (omega arith) in
    let answered : (pull w.first st.store k n mb w.now legacy r.db).0 ≡ ok out =
      ap (λ f. (pull f st.store k n mb w.now legacy r.db).0) fine ∙ returned in
    result_items w.lock_ok k (pull w.first st.store k n mb w.now legacy r.db).0 _ out before m
      answered (items ∙ ap (map stored_msg) (whole ∙ shown))

pos_length : (ms : List Message) (m : Message) → 0 < length (ms ++ m ∷ [])
pos_length ms m = omega (arith, length-append ms (m ∷ []))

-- The pull of a route whose queue ends in `m`, all of it ready.
pulled_queue :
    (st : Settings) (deps : Deps) (w : Meets) (headers : HeaderMap) (q : PullQuery) (r : Relay)
    (channel : Text) (n : ℕ) (before : List Message) (m : Message)
    → auth_ok deps.sha256 deps.to_str headers st.relay_token ≡ true
    → resolve_route_token deps.to_str headers ≡ token channel
    → q.max ≡ some n
    → q.ack ≡ none
    → w.first ≡ healthy
    → let ms = before ++ m ∷ [] in
      queue (route_key_for deps.sha256 channel) r.db ≡ ms
      → All (λ m. ready st.store.retention_ttl_secs w.now m ≡ true) ms
      → length ms ≤ min n st.limits.max_queue_depth
      → bytes ms ≤ max pull_budget_bytes st.limits.max_body_bytes
      → st.limits.max_body_bytes < usize_max
      → (pull_message st deps w headers q r).0 ≡ pulled (map item_of ms)
unfolding pull_message pull_token pull_mode
pulled_queue st deps w headers q r channel n before m auth tok asks plain fine shown unexpired room
      fits small =
    let k = route_key_for deps.sha256 channel in
    let pos = pos_length before m in
    let some_asked : (n == 0) ≡ false = ground arith in
    rw (auth, tok, asks, plain, some_asked)
      (mode-pulled st w k (min n st.limits.max_queue_depth) r before m fine shown unexpired
        (omega arith) room fits small)

-- What is pushed is pulled. After a push that no other request interrupts and that is answered with an
-- identifier, a delete-on-deliver pull with the same route token returns what was queued before, in
-- order, and behind it the pushed body with that identifier: if it passes the bearer check, meets no
-- fault, asks for enough messages for the whole queue, all of them fit the byte budget, none is under a
-- lease, and none is expired at the time of the pull.
pub pull_message-push_message :
    (st : Settings) (deps : Deps) (w w' : Meets) (headers headers' : HeaderMap) (body : List ℕ)
    (q : PullQuery) (r : Relay) (channel id : Text) (n : ℕ)
    → resolve_route_token deps.to_str headers ≡ token channel
    → (push_message st deps w headers body r).0 ≡ posted id
    → auth_ok deps.sha256 deps.to_str headers' st.relay_token ≡ true
    → resolve_route_token deps.to_str headers' ≡ token channel
    → q.max ≡ some n
    → q.ack ≡ none
    → w'.first ≡ healthy
    → let queued =
        queue (route_key_for deps.sha256 channel) (swept st.store.retention_ttl_secs w.now r.db) in
      All (λ m. ready st.store.retention_ttl_secs w'.now m ≡ true) queued
      → w'.now < w.now + st.store.retention_ttl_secs
      → length queued < min n st.limits.max_queue_depth
      → bytes queued + length body ≤ max pull_budget_bytes st.limits.max_body_bytes
      → st.limits.max_body_bytes < usize_max
      → (pull_message st deps w' headers' q (push_message st deps w headers body r).1).0
        ≡ pulled (map item_of queued ++ (id, body) ∷ [])
unfolding push_of
pull_message-push_message st deps w w' headers headers' body q r channel id n tok e auth tok' asks
      plain fine unexpired early room fits small =
    let p = push_of st deps w headers body channel in
    let before = swept st.store.retention_ttl_secs w.now r.db in
    let k = route_key_for deps.sha256 channel in
    let queued = queue k before in
    let m = new_message p before in
    let (named, kept) = push_message-kept st deps w headers body r channel id tok e in
    pulled_queue st deps w' headers' q (push_message st deps w headers body r).1 channel n queued m
      auth tok' asks plain fine kept (All-append _ queued (m ∷ []) unexpired (ground arith, tt))
      (omega (arith, length-append queued (m ∷ []))) (omega (arith, bytes-snoc queued m)) small
    ∙ ap pulled (map-snoc queued m ∙ ap (λ i. map item_of queued ++ (i, body) ∷ []) (sym named))
