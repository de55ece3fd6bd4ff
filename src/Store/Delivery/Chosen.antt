-- ===== src/Store/Delivery/Chosen.antt =====
-- `pull` names the rows that it delivers by `seq`. Over a table in order, the statement meets
-- exactly the first rows of the selection.
use qsl_server.Base.{
  ℕ, zero, suc, ◌<◌, ◌≡◌, refl, ap, Bool, true, false, some, List, [], ◌∷◌, map, arith, take, drop,
  select, delete_where, update_where, if◌then◌else◌,
}
use qsl_server.Store.Schema.{Message}
use qsl_server.Store.Pull.{among}
use qsl_server.Store.Valid.Order.{Ordered}

abbrev pub seqs : List Message → List ℕ
seqs = map λ m. m.seq

abbrev pub set_lease : ℕ → Message → Message
set_lease deadline m = record m { leased_until = some deadline }

-- The queue without its first `n` rows that meet `p`.
unfoldable pub remove_first : (Message → Bool) → ℕ → List Message → List Message
remove_first p zero ms = ms
remove_first p (suc n) [] = []
remove_first p (suc n) (m ∷ ms) =
    let gone = remove_first p n ms in
    let kept = m ∷ remove_first p (suc n) ms in if p m then gone else kept

-- The queue with a lease on its first `n` rows that meet `p`.
unfoldable pub lease_first : (Message → Bool) → ℕ → ℕ → List Message → List Message
lease_first p deadline zero ms = ms
lease_first p deadline (suc n) [] = []
lease_first p deadline (suc n) (m ∷ ms) =
    let leased = set_lease deadline m ∷ lease_first p deadline n ms in
    let kept = m ∷ lease_first p deadline (suc n) ms in if p m then leased else kept

pub among_below :
    (p : Message → Bool) (n s lo : ℕ) (ms : List Message) (hi : ℕ)
    → Ordered lo ms hi
    → s < lo
    → among (seqs (take n (select p ms))) s ≡ false
among_below p zero s lo ms hi o h = refl
among_below p (suc n) s lo [] hi o h = refl
among_below p (suc n) s lo (m ∷ ms) hi o h =
    ground (
      arith,
      among_below p n s (suc m.seq) ms hi o.1,
      among_below p (suc n) s (suc m.seq) ms hi o.1,
    )

delete_skips :
    (s : ℕ) (ss : List ℕ) (lo : ℕ) (ms : List Message) (hi : ℕ)
    → Ordered lo ms hi
    → s < lo
    → delete_where (λ m. among (s ∷ ss) m.seq) ms ≡ delete_where (λ m. among ss m.seq) ms
delete_skips s ss lo [] hi o h = refl
delete_skips s ss lo (m ∷ ms) hi o h = ground (arith, delete_skips s ss (suc m.seq) ms hi o.1)

update_skips :
    (f : Message → Message) (s : ℕ) (ss : List ℕ) (lo : ℕ) (ms : List Message) (hi : ℕ)
    → Ordered lo ms hi
    → s < lo
    → update_where (λ m. among (s ∷ ss) m.seq) f ms ≡ update_where (λ m. among ss m.seq) f ms
update_skips f s ss lo [] hi o h = refl
update_skips f s ss lo (m ∷ ms) hi o h = ground (arith, update_skips f s ss (suc m.seq) ms hi o.1)

pub no_seqs : (ms : List Message) → delete_where (λ m. among [] m.seq) ms ≡ ms
no_seqs [] = refl
no_seqs (m ∷ ms) = ap (◌∷◌ m) (no_seqs ms)

pub no_seqs_update :
    (f : Message → Message) (ms : List Message) → update_where (λ m. among [] m.seq) f ms ≡ ms
no_seqs_update f [] = refl
no_seqs_update f (m ∷ ms) = ap (◌∷◌ m) (no_seqs_update f ms)

pub delete_chosen :
    (p : Message → Bool) (n lo : ℕ) (ms : List Message) (hi : ℕ)
    → Ordered lo ms hi
    → delete_where (λ m. among (seqs (take n (select p ms))) m.seq) ms ≡ remove_first p n ms
unfolding remove_first
delete_chosen p zero lo ms hi o = no_seqs ms
delete_chosen p (suc n) lo [] hi o = refl
delete_chosen p (suc n) lo (m ∷ ms) hi o = ground (
  arith,
  delete_skips m.seq (seqs (take n (select p ms))) (suc m.seq) ms hi o.1,
  delete_chosen p n (suc m.seq) ms hi o.1,
  delete_chosen p (suc n) (suc m.seq) ms hi o.1,
  among_below p (suc n) m.seq (suc m.seq) ms hi o.1,
)

pub lease_chosen :
    (p : Message → Bool) (deadline n lo : ℕ) (ms : List Message) (hi : ℕ)
    → Ordered lo ms hi
    → update_where (λ m. among (seqs (take n (select p ms))) m.seq) (set_lease deadline) ms
      ≡ lease_first p deadline n ms
unfolding lease_first
lease_chosen p d zero lo ms hi o = no_seqs_update (set_lease d) ms
lease_chosen p d (suc n) lo [] hi o = refl
lease_chosen p d (suc n) lo (m ∷ ms) hi o = ground (
  arith,
  update_skips (set_lease d) m.seq (seqs (take n (select p ms))) (suc m.seq) ms hi o.1,
  lease_chosen p d n (suc m.seq) ms hi o.1,
  lease_chosen p d (suc n) (suc m.seq) ms hi o.1,
  among_below p (suc n) m.seq (suc m.seq) ms hi o.1,
)

-- Deleting the first `n` of the selection leaves the rest of it.
pub select-remove_first :
    (p : Message → Bool) (n : ℕ) (ms : List Message)
    → select p (remove_first p n ms) ≡ drop n (select p ms)
unfolding remove_first
select-remove_first p zero ms = refl
select-remove_first p (suc n) [] = refl
select-remove_first p (suc n) (m ∷ ms) =
    ground (arith, select-remove_first p n ms, select-remove_first p (suc n) ms)

-- Rows of which none is in the selection all stay.
pub select-remove_first_other :
    (p q : Message → Bool) (n : ℕ) (ms : List Message)
    → ((m : Message) → p m ≡ true → q m ≡ false)
    → select q (remove_first p n ms) ≡ select q ms
unfolding remove_first
select-remove_first_other p q zero ms h = refl
select-remove_first_other p q (suc n) [] h = refl
select-remove_first_other p q (suc n) (m ∷ ms) h =
    ground
      (arith, h m, select-remove_first_other p q n ms h, select-remove_first_other p q (suc n) ms h)
