-- ===== src/Store/Prepared.antt =====
-- What the statements of an open that precede the check of the marker do to the file.
use qsl_server.Base.{
  ℕ, zero, suc, ◌≡◌, refl, sym, ap, ◌∙◌, ◌⊎◌, inl, inr, Text, Option, some, none, List, [], ◌∷◌,
  All, take,
}
use qsl_server.Store.Open.{File, create, marker, marker_in, tables, rows, statements, run_all}

-- A table that is there stays as it is, and one that is missing is missing still or is there and empty.
abbrev pub Kept : {A : Type 0} → A → Option A → Option A → Type 0
Kept empty before after = (after ≡ before) ⊎ ((before ≡ none) × (after ≡ some empty))

-- No table changes but for missing ones that are there and empty now.
pub record Spared (f g : File) : Type 0 where
  pub meta : Kept none f.meta g.meta
  pub routes : Kept [] f.routes g.routes
  pub messages : Kept [] f.messages g.messages
  pub invites : Kept [] f.invites g.invites
  pub next_seq : g.next_seq ≡ f.next_seq

create-Kept : {A : Type 0} (empty : A) (t : Option A) → Kept empty t (create empty t)
create-Kept empty none = inr (refl, refl)
create-Kept empty (some x) = inl refl

Kept-trans :
    {A : Type 0} (empty : A) (a b c : Option A) → Kept empty a b → Kept empty b c → Kept empty a c
Kept-trans empty a b c (inl p) (inl q) = inl (q ∙ p)
Kept-trans empty a b c (inl p) (inr (q, r)) = inr (sym p ∙ q, r)
Kept-trans empty a b c (inr (p, q)) (inl r) = inr (p, r ∙ q)
Kept-trans empty a b c (inr (p, q)) (inr (r, s)) = inr (p, s)

pub Spared-refl : (f : File) → Spared f f
Spared-refl f = record {
  meta = inl refl;
  routes = inl refl;
  messages = inl refl;
  invites = inl refl;
  next_seq = refl;
}

Spared-trans : (f g h : File) → Spared f g → Spared g h → Spared f h
Spared-trans f g h a b = record {
  meta = Kept-trans none f.meta g.meta h.meta a.meta b.meta;
  routes = Kept-trans [] f.routes g.routes h.routes a.routes b.routes;
  messages = Kept-trans [] f.messages g.messages h.messages a.messages b.messages;
  invites = Kept-trans [] f.invites g.invites h.invites a.invites b.invites;
  next_seq = b.next_seq ∙ a.next_seq;
}

abbrev Sparing : (File → File) → Type 0
Sparing s = (f : File) → Spared f (s f)

run_all-Spared : (ss : List (File → File)) → All Sparing ss → (f : File) → Spared f (run_all ss f)
run_all-Spared [] h f = Spared-refl f
run_all-Spared (s ∷ ss) h f =
    Spared-trans f (s f) (run_all ss (s f)) (h.0 f) (run_all-Spared ss h.1 (s f))

All-take : (n : ℕ) (ss : List (File → File)) → All Sparing ss → All Sparing (take n ss)
All-take zero ss h = tt
All-take (suc n) [] h = tt
All-take (suc n) (s ∷ ss) h = (h.0, All-take n ss h.1)

-- The pragmas and the indexes touch no table, and a CREATE only one that is missing.
change :
    (f g : File)
    → Kept none f.meta g.meta
    → Kept [] f.routes g.routes
    → Kept [] f.messages g.messages
    → Kept [] f.invites g.invites
    → g.next_seq ≡ f.next_seq
    → Spared f g
change f g m r q i n = record { meta = m; routes = r; messages = q; invites = i; next_seq = n }

sparing : All Sparing statements
sparing = (
  λ f. change f _ (inl refl) (inl refl) (inl refl) (inl refl) refl,
  (
    λ f. change f _ (inl refl) (inl refl) (inl refl) (inl refl) refl,
    (
      λ f. change f _ (inl refl) (inl refl) (inl refl) (inl refl) refl,
      (
        λ f. change f _ (create-Kept none f.meta) (inl refl) (inl refl) (inl refl) refl,
        (
          λ f. change f _ (inl refl) (create-Kept [] f.routes) (inl refl) (inl refl) refl,
          (
            λ f. change f _ (inl refl) (inl refl) (create-Kept [] f.messages) (inl refl) refl,
            (
              λ f. change f _ (inl refl) (inl refl) (inl refl) (inl refl) refl,
              (
                λ f. change f _ (inl refl) (inl refl) (inl refl) (inl refl) refl,
                (
                  λ f. change f _ (inl refl) (inl refl) (inl refl) (create-Kept [] f.invites) refl,
                  (
                    λ f. change f _ (inl refl) (inl refl) (inl refl) (inl refl) refl,
                    (λ f. change f _ (inl refl) (inl refl) (inl refl) (inl refl) refl, tt),
                  ),
                ),
              ),
            ),
          ),
        ),
      ),
    ),
  ),
)

pub statements-Spared : (f : File) → Spared f (run_all statements f)
statements-Spared f = run_all-Spared statements sparing f

pub some_statements-Spared : (n : ℕ) (f : File) → Spared f (run_all (take n statements) f)
some_statements-Spared n f = run_all-Spared (take n statements) (All-take n statements sparing) f

rows-Kept : {A : Type 0} (a b : Option (List A)) → Kept [] a b → rows b ≡ rows a
rows-Kept a b (inl p) = ap rows p
rows-Kept a b (inr (p, q)) = ap rows q ∙ sym (ap rows p)

-- No row and no marker changes.
pub Spared-tables : (f g : File) → Spared f g → tables g ≡ tables f
Spared-tables f g s = rw (
  rows-Kept f.routes g.routes s.routes,
  rows-Kept f.messages g.messages s.messages,
  rows-Kept f.invites g.invites s.invites,
  s.next_seq,
)

pub Spared-marker : (f g : File) → Spared f g → marker g ≡ marker f
Spared-marker f g s = go f.meta g.meta s.meta
  where
    go : (a b : Option (Option Text)) → Kept none a b → marker_in b ≡ marker_in a
    go a b (inl p) = ap marker_in p
    go a b (inr (p, q)) = ap marker_in q ∙ sym (ap marker_in p)

create-again :
    {A : Type 0} (empty : A) (t : Option A) → create empty (create empty t) ≡ create empty t
create-again empty none = refl
create-again empty (some x) = refl

-- The statements change a file once.
abbrev pub IsPrepared : File → Type 0
IsPrepared g = run_all statements g ≡ g

pub statements-IsPrepared : (f : File) → IsPrepared (run_all statements f)
statements-IsPrepared f = rw (
  create-again none f.meta,
  create-again [] f.routes,
  create-again [] f.messages,
  create-again [] f.invites,
)
