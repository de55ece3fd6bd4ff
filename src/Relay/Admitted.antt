-- ===== src/Relay/Admitted.antt =====
-- The push that a redemption's ticket admits.
use qsl_server.Base.{
  ℕ, ◌<◌, Text, text_eq, text_eq_iff, ◌≡◌, refl, sym, ap, subst, ◌∙◌, ◌⊎◌, inl, inr, Bool, true,
  false, not, ◌&&◌, if◌then◌else◌, none, some, List, [], ◌∷◌, arith, length, leb, Bool-cases,
  count_where, find_where, delete_where, find_where-delete_where,
}
use qsl_server.Base.Result.{Result, ok}
use qsl_server.Config.Limits.{ResourceControls}
use qsl_server.Store.Schema.{
  Db, Invite, EnqueueOutcome, RouteStatus, invite_is, invite_consumed, SweepStats, has_route,
  message_on,
}
use qsl_server.Store.Transaction.{healthy, transact}
use qsl_server.Store.Sweep.{swept, delete_expired_invites, invite_expired, sweep_expired}
use qsl_server.Store.Status.{route_status, route_status_tx}
use qsl_server.Store.Enqueue.{Push, enqueue, burn_ticket}
use qsl_server.Store.Slots.Never.{invites-collect}
use qsl_server.Store.Slots.Opened.{ticketed_place}
use qsl_server.Store.Queue.Push.{HasRoom, place-accepts_iff}
use qsl_server.Rate.Bucket.{PushRateBucket, try_consume, refill, new_bucket}
use qsl_server.Relay.State.{Settings, Relay, Meets, Reply, posted, stored, run_store}
use qsl_server.Relay.Buckets.{
  get, remove, remove_all, bucket_or_new, consume_push, log_and_prune_sweep,
}
use qsl_server.Relay.Posted.{pruned_db}
use qsl_server.Relay.Push.{push_reply, push_store, push_rate, push_caps, push_status}

-- A slot with a ticket stays through a sweep before its expiry.
pub find-swept :
    (k : Text) (ttl now : ℕ) (db : Db) (i : Invite)
    → find_where (invite_is k) db.invites ≡ some i
    → now < i.expiry
    → find_where (invite_is k) (swept ttl now db).invites ≡ some i
unfolding swept delete_expired_invites
find-swept k ttl now db i e early =
    ap (λ is. find_where (invite_is k) (delete_where (invite_expired now) is))
      (invites-collect ttl now db)
    ∙ find_where-delete_where (invite_is k) (invite_expired now) db.invites i e (ground arith)

pub ticket_accepted :
    (p : Push) (db : Db) (i : Invite) (verify : Text → Bool) (th : Text)
    → find_where (invite_is p.route_key) db.invites ≡ some i
    → i.state ≡ invite_consumed
    → p.now < i.expiry
    → i.ticket_hash ≡ some th
    → p.ticket ≡ some verify
    → verify th ≡ true
    → HasRoom p db
    → (enqueue healthy p db).0 ≡ ok EnqueueOutcome.accepted
unfolding enqueue
ticket_accepted p db i verify th found c early has t good room =
    rw (found, ticketed_place p db i verify th c early has t good)
      (ap ok ((place-accepts_iff p (burn_ticket p.route_key db)).1 (unfold burn_ticket in room)))

-- The bucket of a key has a token.
abbrev pub HasToken : ResourceControls → ℕ → Text → List (Text × PushRateBucket) → Type 0
HasToken c now k es = 0 < (bucket_or_new c now (get k es)).tokens

get-remove :
    (j k : Text) (es : List (Text × PushRateBucket))
    → get k (remove j es) ≡ (if text_eq j k then none else get k es)
unfolding get remove
get-remove j k [] = ground arith
get-remove j k (e ∷ es) =
    ground (arith, get-remove j k es, text_eq_iff e.0 j, text_eq_iff e.0 k, text_eq_iff j k)

remove-HasToken :
    (c : ResourceControls) (now : ℕ) (j k : Text) (es : List (Text × PushRateBucket))
    → 0 < c.push_rate_burst
    → HasToken c now k es
    → HasToken c now k (remove j es)
unfolding new_bucket
remove-HasToken c now j k es pos h = elim (Bool-cases (text_eq j k)) [
  | inl same ↦ rw (get-remove j k es, same) pos
  | inr other ↦ rw (get-remove j k es, other) h
]

remove_all-HasToken :
    (c : ResourceControls) (now : ℕ) (js : List Text) (k : Text) (es : List (Text × PushRateBucket))
    → 0 < c.push_rate_burst
    → HasToken c now k es
    → HasToken c now k (remove_all js es)
unfolding remove_all
remove_all-HasToken c now [] k es pos h = h
remove_all-HasToken c now (j ∷ js) k es pos h =
    remove_all-HasToken c now js k (remove j es) pos (remove-HasToken c now j k es pos h)

pruned-HasToken :
    (c : ResourceControls) (now : ℕ) (stats : SweepStats) (k : Text) (r : Relay)
    → 0 < c.push_rate_burst
    → HasToken c now k r.push_rates
    → HasToken c now k (log_and_prune_sweep true stats r).push_rates
unfolding log_and_prune_sweep
pruned-HasToken c now stats k r pos h =
    remove_all-HasToken c now stats.removed_route_keys k r.push_rates pos h

consume_push-HasToken :
    (c : ResourceControls) (now : ℕ) (k : Text) (r : Relay)
    → HasToken c now k r.push_rates
    → (consume_push c now k r).0 ≡ true
unfolding consume_push try_consume refill
consume_push-HasToken c now k r h = ground arith

store-posted :
    (w : Meets) (p : Push) (r : Relay)
    → w.second ≡ healthy
    → (enqueue healthy p r.db).0 ≡ ok EnqueueOutcome.accepted
    → (push_store w p r).0 ≡ posted p.msg_id
unfolding push_store
store-posted w p r fine h =
    accepted_reply w.lock_ok p (enqueue w.second p r.db).0 _
      (ap (λ f. (enqueue f p r.db).0) fine ∙ h)
  where
    accepted_reply :
        (lock_ok : Bool) (p : Push) (result : Result EnqueueOutcome) (r : Relay)
        → result ≡ ok EnqueueOutcome.accepted
        → (push_reply lock_ok p (run_store result) r).0 ≡ posted p.msg_id
    accepted_reply lock_ok p result r e = unfold push_reply run_store in rw e

rate-posted :
    (st : Settings) (w : Meets) (p : Push) (r : Relay)
    → w.lock_ok ≡ true
    → w.second ≡ healthy
    → HasToken st.controls w.mono_now p.route_key r.push_rates
    → (enqueue healthy p r.db).0 ≡ ok EnqueueOutcome.accepted
    → (push_rate st w p r).0 ≡ posted p.msg_id
unfolding push_rate
rate-posted st w p r locked fine token h =
    let after = consume_push st.controls w.mono_now p.route_key r in
    let same : after.1.db ≡ r.db = unfold consume_push in refl in
    ground (
      arith,
      consume_push-HasToken st.controls w.mono_now p.route_key r token,
      store-posted w p after.1 fine (ap (λ db. (enqueue healthy p db).0) same ∙ h),
    )

-- The caps of the handler let through what the caps of the store would.
caps-posted :
    (st : Settings) (w : Meets) (p : Push) (status : RouteStatus) (r : Relay)
    → w.lock_ok ≡ true
    → w.second ≡ healthy
    → 0 < st.controls.push_rate_burst
    → HasToken st.controls w.mono_now p.route_key r.push_rates
    → (status.route_exists && leb st.limits.max_queue_depth status.depth) ≡ false
    → (not status.route_exists && leb st.controls.max_route_count status.live_routes) ≡ false
    → (enqueue healthy p r.db).0 ≡ ok EnqueueOutcome.accepted
    → (push_caps st w p (stored status) r).0 ≡ posted p.msg_id
unfolding push_caps
caps-posted st w p status r locked fine pos token deep many h =
    let after = log_and_prune_sweep w.lock_ok status.sweep r in
    let same : after.db ≡ r.db = pruned_db w.lock_ok status r in
    let left : HasToken st.controls w.mono_now p.route_key after.push_rates =
      subst
        (λ b.
          HasToken st.controls w.mono_now p.route_key
            (log_and_prune_sweep b status.sweep r).push_rates)
        (sym locked)
        (pruned-HasToken st.controls w.mono_now status.sweep p.route_key r pos token) in
    rw (deep, many)
      (rate-posted st w p after locked fine left (ap (λ db. (enqueue healthy p db).0) same ∙ h))

-- The caps of the handler are those of the push.
room_gates :
    (there : Bool) (depth max_depth max_depth' routes max_routes max_routes' : ℕ)
    → max_depth ≡ max_depth'
    → max_routes ≡ max_routes'
    → ((there ≡ true) × (depth < max_depth)) ⊎ ((there ≡ false) × (routes < max_routes))
    → ((there && leb max_depth' depth) ≡ false) × ((not there && leb max_routes' routes) ≡ false)
room_gates there depth max_depth max_depth' routes max_routes max_routes' e e' room =
    (ground arith, ground arith)

pub status-posted :
    (st : Settings) (w : Meets) (p : Push) (r : Relay)
    → w.lock_ok ≡ true
    → w.first ≡ healthy
    → w.second ≡ healthy
    → p.max_queue_depth ≡ st.limits.max_queue_depth
    → p.max_route_count ≡ st.controls.max_route_count
    → 0 < st.controls.push_rate_burst
    → HasToken st.controls w.mono_now p.route_key r.push_rates
    → let after = swept st.store.retention_ttl_secs w.now r.db in
      HasRoom p after
      → (enqueue healthy p after).0 ≡ ok EnqueueOutcome.accepted
      → (push_status st w p r).0 ≡ posted p.msg_id
unfolding push_status
status-posted st w p r locked fine fine' depth routes pos token room h =
    ap (λ f. through (route_status f st.store p.route_key w.now r.db)) fine
    ∙ (unfold route_status transact run_store route_status_tx sweep_expired in
        let (deep, many) =
          room_gates (has_route p.route_key after)
            (count_where (message_on p.route_key) after.messages) p.max_queue_depth
            st.limits.max_queue_depth (length after.routes) p.max_route_count
            st.controls.max_route_count depth routes room in
        caps-posted st w p (route_status_tx st.store p.route_key w.now r.db).0
          (record r { db = after }) locked fine' pos token deep many h)
  where
    after : Db
    after = swept st.store.retention_ttl_secs w.now r.db

    through : Result RouteStatus × Db → Reply
    through result = (push_caps st w p (run_store result.0) (record r { db = result.1 })).0
