-- ===== src/Relay/InterruptedTests.antt =====
-- The theorems on a push among other requests, at concrete requests.
use qsl_server.Base.{suc, ◌≡◌, refl, none, [], ◌∷◌, ◌++◌, text_eq}
use qsl_server.Secrets.Hex.{route_key_for, is_hex-route_key_for}
use qsl_server.Secrets.Headers.{resolve_route_token}
use qsl_server.Store.Schema.{Db}
use qsl_server.Store.Transaction.{healthy}
use qsl_server.Store.Invites.{NewInvite}
use qsl_server.Store.Calls.{pushes, creates}
use qsl_server.Store.Queue.View.{queue}
use qsl_server.Store.Queue.Push.{new_message}
use qsl_server.Relay.State.{Code, failure}
use qsl_server.Relay.Actions.{Action, transaction, act}
use qsl_server.Relay.Push.{push_of}
use qsl_server.Relay.Reach.{Reaches, here, next}
use qsl_server.Relay.Interrupted.{Others, nobody, push_among}
use qsl_server.Relay.Interrupted.Appended.{found_by, push_among-appends}
use qsl_server.Relay.Interrupted.Reached.{push_among-Reaches}
use qsl_server.Relay.Tests.{deps, digest, headers, settings, meets, relay}

-- Another push to the same route.
abbrev rival : Action
rival =
    transaction healthy (pushes (push_of (settings none) deps meets headers (9 ∷ []) (b'r' ∷ [])))

abbrev rivals : Others
rivals = record nobody { after_rate = act (settings none) rival }

push_among-appends_example :
    let p = push_of (settings none) deps meets headers (1 ∷ []) (b'r' ∷ []) in
    let found = found_by (settings none) rivals meets p relay in
    let final = (push_among (settings none) rivals deps meets headers (1 ∷ []) relay).1 in
    (b'i' ∷ [] ≡ p.msg_id)
    × (left : Db) × (queue p.route_key left
        ≡ queue p.route_key found.db ++ new_message p found.db ∷ [])
    × (queue [] left ≡ queue [] found.db)
    × (left.next_seq ≡ suc found.db.next_seq)
    × (final ≡ record found { db = left })
unfolding push_among resolve_route_token text_eq act push_of route_key_for
push_among-appends_example =
    push_among-appends (settings none) rivals deps meets headers (1 ∷ []) relay (b'r' ∷ [])
      (b'i' ∷ []) [] refl refl refl

push_among-Reaches_example :
    Reaches
      (settings none)
      relay
      (push_among (settings none) rivals deps meets headers (1 ∷ []) relay).1
unfolding push_of
push_among-Reaches_example =
    push_among-Reaches (settings none) rivals deps meets headers (1 ∷ []) relay relay
      (record {
        after_status = λ r h. h;
        after_prune = λ r h. h;
        after_rate =
            λ r h. next h rival ((refl, refl), is_hex-route_key_for digest (b'r' ∷ [])) refl;
        after_store = λ r h. h;
      })
      here

-- A slot that another request publishes late, with a time of its own at which it was not yet expired.
abbrev stale_slot : NewInvite
stale_slot = record {
  slot_key = route_key_for digest (b'r' ∷ []);
  log_id = [];
  cap_hash = [];
  revoke_hash = [];
  bundle = 7 ∷ [];
  invite_sig = 8 ∷ [];
  expiry = 4;
}

abbrev late_publisher : Others
late_publisher = record nobody {
  after_rate = act (settings none) (transaction healthy (creates stale_slot 3 4));
}

-- The reply that an uninterrupted push never gives.
expired_among_test :
    (push_among (settings none) late_publisher deps meets headers (1 ∷ []) relay).0
    ≡ failure 410 Code.err_invite_expired
unfolding push_among resolve_route_token text_eq act route_key_for
expired_among_test = refl
