-- ===== src/Store/Queue/Drained.antt =====
-- A client that goes on pulling.
use qsl_server.Base.{
  ℕ, zero, suc, ◌≤◌, ◌<◌, Text, ◌≡◌, refl, sym, ap, ap₂, ◌∙◌, subst, Bool, true, not, List, [], ◌∷◌,
  ◌++◌, arith, All, All-drop, All-selected, length, length-drop, take, drop, take-append-drop, map,
  map-append, select, select_every, select_swap,
}
use qsl_server.Store.Schema.{Db, Store, Message, StoredMsg, legacy}
use qsl_server.Store.Transaction.{Fault, healthy}
use qsl_server.Store.Sweep.{swept, is_expired}
use qsl_server.Store.Pull.{pull, deliver, is_visible, stored_msg}
use qsl_server.Store.Calls.{Call, pulls, step}
use qsl_server.Store.Valid.Invariant.{IsValid}
use qsl_server.Store.Valid.Steps.{step-IsValid}
use qsl_server.Store.Delivery.Prefix.{visible}
use qsl_server.Store.Delivery.Budget.{usize_max}
use qsl_server.Store.Queue.View.{messages-swept}
use qsl_server.Store.Queue.Take.{rows_legacy, pull_items}
use qsl_server.Store.Queue.Contract.{delivered-budget}
use qsl_server.Store.Mailbox.Handed.{items_of}
use qsl_server.Store.Mailbox.Simulates.{delivered, deliveries}

-- One after the other.
abbrev pub join : List (List StoredMsg) → List StoredMsg
join [] = []
join (xs ∷ xss) = xs ++ join xss

-- The same call, `n` times.
abbrev pub repeatedly : ℕ → Call → List (Fault × Call)
repeatedly zero c = []
repeatedly (suc n) c = (healthy, c) ∷ repeatedly n c

visible_unexpired :
    (k : Text) (ttl now : ℕ) (db : Db)
    → visible k now (swept ttl now db) ≡ select (λ m. not (is_expired ttl now m)) (visible k now db)
visible_unexpired k ttl now db =
    ap (select (is_visible k now)) (messages-swept ttl now db)
    ∙ select_swap (is_visible k now) (λ m. not (is_expired ttl now m)) db.messages

-- What a pull leaves visible, a second sweep at the same time leaves too.
visible_again :
    (st : Store) (k : Text) (max max_bytes now : ℕ) (db : Db)
    → IsValid db
    → let after = swept st.retention_ttl_secs now db in
      let final = (pull healthy st k max max_bytes now legacy db).1 in
      visible k now (swept st.retention_ttl_secs now final)
      ≡ drop (length (deliver k max max_bytes now after)) (visible k now after)
visible_again st k max mb now db v =
    let ttl = st.retention_ttl_secs in
    let after = swept ttl now db in
    let final = (pull healthy st k max mb now legacy db).1 in
    let n = length (deliver k max mb now after) in
    let young : Message → Bool = λ m. not (is_expired ttl now m) in
    let left = (rows_legacy st k max mb now db v).1 in
    let rest : All (λ m. young m ≡ true) (drop n (visible k now after)) =
      subst (λ ms. All (λ m. young m ≡ true) (drop n ms)) (sym (visible_unexpired k ttl now db))
        (All-drop (λ m. young m ≡ true) n (select young (visible k now db))
          (All-selected young (visible k now db))) in
    visible_unexpired k ttl now final
    ∙ ap (select young) left
    ∙ select_every young (drop n (visible k now after)) rest

nothing : (ms : List Message) → length ms ≤ 0 → [] ≡ map stored_msg ms
nothing [] h = refl
nothing (m ∷ ms) h = absurd (omega arith)

-- Pulling again and again gives everything. In a valid store, a client that repeats a delete-on-deliver
-- pull as often as messages are visible on its route, at one time and without faults, receives all of
-- them, each once and in the order of the queue, however small the positive count and the byte budget of
-- a single pull are.
pub deliveries-repeatedly :
    (st : Store) (k : Text) (max max_bytes now n : ℕ) (db : Db)
    → IsValid db
    → 0 < max
    → max_bytes < usize_max
    → length (visible k now (swept st.retention_ttl_secs now db)) ≤ n
    → join (deliveries st (repeatedly n (pulls k max max_bytes now legacy)) db)
      ≡ map stored_msg (visible k now (swept st.retention_ttl_secs now db))
unfolding deliveries
deliveries-repeatedly st k max mb now zero db v pos small enough = nothing _ enough
deliveries-repeatedly st k max mb now (suc n) db v pos small enough =
    let after = swept st.retention_ttl_secs now db in
    let shown = visible k now after in
    let rows = deliver k max mb now after in
    let final = (pull healthy st k max mb now legacy db).1 in
    let (a, b, progress, d) = delivered-budget k max mb now after pos small in
    let again = visible_again st k max mb now db v in
    let (out, returned, items) = pull_items st k max mb now legacy db in
    let valid : IsValid final =
      unfold step in step-IsValid st healthy (pulls k max mb now legacy) db v in
    let fewer : length (visible k now (swept st.retention_ttl_secs now final)) ≤ n =
      omega (arith, ap length again, length-drop (length rows) shown, progress, enough) in
    let first = ap items_of returned ∙ items ∙ (rows_legacy st k max mb now db v).0 in
    let rest =
      deliveries-repeatedly st k max mb now n final valid pos small fewer
      ∙ ap (map stored_msg) again in
    unfold step delivered in
    (ap₂ (λ (xs ys : List StoredMsg). xs ++ ys) first rest
      ∙ sym (map-append stored_msg (take (length rows) shown) (drop (length rows) shown))
      ∙ ap (map stored_msg) (take-append-drop (length rows) shown))
