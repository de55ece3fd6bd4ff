-- ===== src/Relay/Sound.antt =====
-- The invariant of the shared state of `AppState`.
use qsl_server.Base.{
  ℕ, ◌≤◌, ◌<◌, Text, text_eq, sym, subst, List, [], ◌∷◌, arith, All, Bool-cases, inl, inr,
}
use qsl_server.Config.Limits.{ResourceControls}
use qsl_server.Rate.Bucket.{PushRateBucket, new_bucket}
use qsl_server.Rate.Budget.{try_consume-burst}
use qsl_server.Store.Valid.Invariant.{IsValid}
use qsl_server.Store.Valid.Steps.{step-IsValid}
use qsl_server.Store.Bounds.Within.{IsWithin}
use qsl_server.Store.Bounds.Caps.{step-IsWithin}
use qsl_server.Store.Keyed.{IsKeyed, step-IsKeyed}
use qsl_server.Relay.State.{Settings, Relay}
use qsl_server.Relay.Buckets.{
  remove, remove_all, get, bucket_or_new, consume_push, invite_bucket_controls,
}
use qsl_server.Relay.Actions.{
  Action, transaction, forget, take_push, take_create, act, Allowed, caps_of,
}
use qsl_server.Relay.Reach.{Reaches, here, next}

-- No bucket has more tokens than the burst.
abbrev pub Poured : ℕ → List (Text × PushRateBucket) → Type 0
Poured burst = All (λ e. e.1.tokens ≤ burst)

-- The tables are well formed and within the caps, their keys are hexadecimal, and no bucket holds more
-- than its burst.
pub record IsSound (st : Settings) (r : Relay) : Type 0 where
  pub valid : IsValid r.db
  pub within : IsWithin (caps_of st) r.db
  pub keyed : IsKeyed r.db
  pub pushes : Poured st.controls.push_rate_burst r.push_rates
  pub creates : r.invite_create_rate.tokens ≤ st.invite_limits.create_burst

remove-Poured :
    (burst : ℕ) (k : Text) (es : List (Text × PushRateBucket))
    → Poured burst es
    → Poured burst (remove k es)
unfolding remove
remove-Poured burst k [] h = tt
remove-Poured burst k (e ∷ es) h = elim (Bool-cases (text_eq e.0 k)) [
  | inl same ↦ rw same (remove-Poured burst k es h.1)
  | inr other ↦ rw other (h.0, remove-Poured burst k es h.1)
]

remove_all-Poured :
    (burst : ℕ) (ks : List Text) (es : List (Text × PushRateBucket))
    → Poured burst es
    → Poured burst (remove_all ks es)
unfolding remove_all
remove_all-Poured burst [] es h = h
remove_all-Poured burst (k ∷ ks) es h =
    remove_all-Poured burst ks (remove k es) (remove-Poured burst k es h)

found-burst :
    (c : ResourceControls) (now : ℕ) (k : Text) (es : List (Text × PushRateBucket))
    → Poured c.push_rate_burst es
    → (bucket_or_new c now (get k es)).tokens ≤ c.push_rate_burst
unfolding get new_bucket
found-burst c now k [] h = omega arith
found-burst c now k (e ∷ es) h = elim (Bool-cases (text_eq e.0 k)) [
  | inl same ↦ rw same h.0
  | inr other ↦ rw other (found-burst c now k es h.1)
]

-- Every access keeps the invariant, if the depth cap is positive.
act-IsSound :
    (st : Settings) (a : Action) (r : Relay)
    → 0 < st.limits.max_queue_depth
    → Allowed st a
    → IsSound st r
    → IsSound st (act st a r)
unfolding act consume_push
act-IsSound st (transaction f c) r pos u s = record {
  valid = step-IsValid st.store f c r.db s.valid;
  within = step-IsWithin (caps_of st) st.store f c r.db pos u.0 s.valid s.within;
  keyed = step-IsKeyed st.store f c r.db u.1 s.keyed;
  pushes = s.pushes;
  creates = s.creates;
}
act-IsSound st (forget ks) r pos u s = record {
  valid = s.valid;
  within = s.within;
  keyed = s.keyed;
  pushes = remove_all-Poured st.controls.push_rate_burst ks r.push_rates s.pushes;
  creates = s.creates;
}
act-IsSound st (take_push now k) r pos u s = record {
  valid = s.valid;
  within = s.within;
  keyed = s.keyed;
  pushes = (
    try_consume-burst st.controls now (bucket_or_new st.controls now (get k r.push_rates))
        (found-burst st.controls now k r.push_rates s.pushes),
    remove-Poured st.controls.push_rate_burst k r.push_rates s.pushes,
  );
  creates = s.creates;
}
act-IsSound st (take_create now) r pos u s = record {
  valid = s.valid;
  within = s.within;
  keyed = s.keyed;
  pushes = s.pushes;
  creates =
      try_consume-burst (invite_bucket_controls st.invite_limits) now r.invite_create_rate
        s.creates;
}

-- In every interleaving of the accesses that concurrent requests and sweeps make, with a positive depth
-- cap: from a state whose tables are well formed and within the caps, where every key of a message and of
-- an invite slot is a text of hexadecimal digits, and whose buckets hold no more than their bursts, only
-- such states are reached.
pub Reaches-IsSound :
    {st : Settings} {r s : Relay}
    → 0 < st.limits.max_queue_depth
    → IsSound st r
    → Reaches st r s
    → IsSound st s
Reaches-IsSound pos h here = h
Reaches-IsSound {st} pos h (next {s} before a u e) =
    subst (IsSound st) (sym e) (act-IsSound st a s pos u (Reaches-IsSound pos h before))
