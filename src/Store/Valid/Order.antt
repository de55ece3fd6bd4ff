-- ===== src/Store/Valid/Order.antt =====
-- The messages stand in the order of `seq`, each below the counter of AUTOINCREMENT.
use qsl_server.Base.{ℕ, suc, ◌≤◌, ◌≡◌, Bool, List, [], ◌∷◌, ◌++◌, arith, select, update_where}
use qsl_server.Store.Schema.{Message}

abbrev pub Ordered : ℕ → List Message → ℕ → Type 0
Ordered lo [] hi = lo ≤ hi
Ordered lo (m ∷ ms) hi = (lo ≤ m.seq) × Ordered (suc m.seq) ms hi

Ordered-mono : (ms : List Message) (lo lo' hi : ℕ) → lo' ≤ lo → Ordered lo ms hi → Ordered lo' ms hi
Ordered-mono [] lo lo' hi l h = omega arith
Ordered-mono (m ∷ ms) lo lo' hi l h = (omega arith, h.1)

pub Ordered-select :
    (p : Message → Bool) (lo : ℕ) (ms : List Message) (hi : ℕ)
    → Ordered lo ms hi
    → Ordered lo (select p ms) hi
Ordered-select p lo [] hi h = h
Ordered-select p lo (m ∷ ms) hi h =
    ground
      (arith, Ordered-select p (suc m.seq) ms hi h.1, Ordered-mono (select p ms) (suc m.seq) lo hi)

pub Ordered-append :
    (lo : ℕ) (ms : List Message) (m : Message)
    → Ordered lo ms m.seq
    → Ordered lo (ms ++ m ∷ []) (suc m.seq)
Ordered-append lo [] m h = (h, omega arith)
Ordered-append lo (x ∷ xs) m h = (h.0, Ordered-append (suc x.seq) xs m h.1)

pub Ordered-update_where :
    (p : Message → Bool) (f : Message → Message) (lo : ℕ) (ms : List Message) (hi : ℕ)
    → ((m : Message) → (f m).seq ≡ m.seq)
    → Ordered lo ms hi
    → Ordered lo (update_where p f ms) hi
Ordered-update_where p f lo [] hi same h = h
Ordered-update_where p f lo (m ∷ ms) hi same h =
    ground (arith, Ordered-update_where p f (suc m.seq) ms hi same h.1, same m)
