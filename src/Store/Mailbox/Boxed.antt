-- ===== src/Store/Mailbox/Boxed.antt =====
-- The boxes that the tables stand for, after each statement.
use qsl_server.Base.{
  select_swap, ℕ, zero, suc, ◌+◌, Text, text_eq, text_eq_iff, ◌≡◌, refl, sym, ap, ◌∙◌, Bool, true,
  false, not, List, [], ◌∷◌, ◌++◌, map, arith, take, length, select, delete_where, select-select,
  select_congr,
}
use qsl_server.Store.Schema.{Db, Message, message_on}
use qsl_server.Store.Sweep.{swept, is_expired}
use qsl_server.Store.Pull.{is_visible, is_free, stored_msg}
use qsl_server.Store.Ack.{is_acked}
use qsl_server.Store.Delivery.Prefix.{visible}
use qsl_server.Store.Delivery.Budget.{bytes}
use qsl_server.Store.Delivery.Chosen.{remove_first, lease_first, set_lease}
use qsl_server.Store.Queue.View.{queue, messages-swept}
use qsl_server.Store.Mailbox.Letters.{
  Letter, Boxes, unexpired, shown, hand_over, lend, discard, content, weight,
}

abbrev pub letter : Message → Letter
letter m = record {
  msg_id = m.msg_id;
  body = m.body;
  posted_at = m.enqueued_at;
  hidden_until = m.leased_until;
}

abbrev pub boxes : Db → Boxes
boxes db k = map letter (queue k db)

map-select :
    (p : Message → Bool) (q : Letter → Bool) (ms : List Message)
    → ((m : Message) → p m ≡ q (letter m))
    → map letter (select p ms) ≡ select q (map letter ms)
map-select p q [] h = refl
map-select p q (m ∷ ms) h = ground (arith, map-select p q ms h, h m)

pub map-snoc :
    (ms : List Message) (m : Message) → map letter (ms ++ m ∷ []) ≡ map letter ms ++ letter m ∷ []
map-snoc [] m = refl
map-snoc (x ∷ ms) m = ap (◌∷◌ (letter x)) (map-snoc ms m)

pub map-take : (n : ℕ) (ms : List Message) → map letter (take n ms) ≡ take n (map letter ms)
map-take zero ms = refl
map-take (suc n) [] = refl
map-take (suc n) (m ∷ ms) = ap (◌∷◌ (letter m)) (map-take n ms)

pub boxes-swept :
    (ttl now : ℕ) (db : Db) (k : Text) → boxes (swept ttl now db) k ≡ unexpired ttl now (boxes db k)
boxes-swept ttl now db k =
    ap (λ ms. map letter (select (message_on k) ms)) (messages-swept ttl now db)
    ∙ ap (map letter) (select_swap (message_on k) (λ m. not (is_expired ttl now m)) db.messages)
    ∙ map-select _ _ (queue k db) (λ m. refl)

pub visible-shown :
    (k : Text) (now : ℕ) (db : Db) → map letter (visible k now db) ≡ shown now (boxes db k)
visible-shown k now db =
    ap (map letter) (
      select_congr _ _ db.messages (λ m. refl)
      ∙ sym (select-select (λ m. is_free now m.leased_until) (message_on k) db.messages))
    ∙ map-select _ _ (queue k db) (λ m. refl)

-- What a pull returns, as contents of letters.
pub items-shown :
    (k : Text) (n now : ℕ) (db : Db)
    → map stored_msg (take n (visible k now db)) ≡ map content (take n (shown now (boxes db k)))
items-shown k n now db =
    contents (take n (visible k now db))
    ∙ ap (map content) (map-take n (visible k now db) ∙ ap (take n) (visible-shown k now db))
  where
    contents : (ms : List Message) → map stored_msg ms ≡ map content (map letter ms)
    contents [] = refl
    contents (m ∷ ms) = ap (◌∷◌ (stored_msg m)) (contents ms)

pub weight-bytes : (ms : List Message) → weight (map letter ms) ≡ bytes ms
weight-bytes [] = refl
weight-bytes (m ∷ ms) = ap (λ n. length m.body + n) (weight-bytes ms)

pub boxed-remove_first :
    (k : Text) (now n : ℕ) (ms : List Message)
    → map letter (select (message_on k) (remove_first (is_visible k now) n ms))
      ≡ hand_over now n (map letter (select (message_on k) ms))
unfolding remove_first
boxed-remove_first k now zero ms = refl
boxed-remove_first k now (suc n) [] = refl
boxed-remove_first k now (suc n) (m ∷ ms) =
    ground (arith, boxed-remove_first k now n ms, boxed-remove_first k now (suc n) ms)

pub boxed-lease_first :
    (k : Text) (now deadline n : ℕ) (ms : List Message)
    → map letter (select (message_on k) (lease_first (is_visible k now) deadline n ms))
      ≡ lend now deadline n (map letter (select (message_on k) ms))
unfolding lease_first
boxed-lease_first k now d zero ms = refl
boxed-lease_first k now d (suc n) [] = refl
boxed-lease_first k now d (suc n) (m ∷ ms) =
    ground (arith, boxed-lease_first k now d n ms, boxed-lease_first k now d (suc n) ms)

-- The queues of the other routes.
pub select-lease_first_other :
    (p q : Message → Bool) (deadline n : ℕ) (ms : List Message)
    → ((m : Message) → p m ≡ true → (q m ≡ false) × (q (set_lease deadline m) ≡ false))
    → select q (lease_first p deadline n ms) ≡ select q ms
unfolding lease_first
select-lease_first_other p q d zero ms h = refl
select-lease_first_other p q d (suc n) [] h = refl
select-lease_first_other p q d (suc n) (m ∷ ms) h =
    ground (
      arith,
      h m,
      select-lease_first_other p q d n ms h,
      select-lease_first_other p q d (suc n) ms h,
    )

-- The queue of the acknowledged route, and of another.
pub boxed-acked :
    (k : Text) (ids : List Text) (ms : List Message)
    → map letter (select (message_on k) (delete_where (is_acked k ids) ms))
      ≡ discard ids (map letter (select (message_on k) ms))
unfolding is_acked
boxed-acked k ids [] = refl
boxed-acked k ids (m ∷ ms) = ground (arith, boxed-acked k ids ms)

pub acked_other :
    (j k : Text) (ids : List Text) (ms : List Message)
    → text_eq j k ≡ false
    → select (message_on j) (delete_where (is_acked k ids) ms) ≡ select (message_on j) ms
unfolding is_acked
acked_other j k ids [] other = refl
acked_other j k ids (m ∷ ms) other = ground (
  arith,
  acked_other j k ids ms other,
  text_eq_iff m.route_key k,
  text_eq_iff m.route_key j,
  text_eq_iff j k,
)
