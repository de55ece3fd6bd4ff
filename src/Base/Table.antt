-- ===== src/Base/Table.antt =====
-- The SQL statements of the store over a table, the list of its rows in the order of its key.
use Prim.Native.Nat.{ℕ, suc, ◌+◌, ◌≤◌}
use mathlib.Core.Path.{◌≡◌, refl, sym, ap, subst}
use mathlib.Core.Bool.{Bool, true, false, not, ◌&&◌, ◌||◌}
use mathlib.Core.List.{List, [], ◌∷◌, ◌++◌}
use mathlib.Core.Logic.{inl, inr}
use mathlib.Core.Option.{Option, none, some}
use native.Mathlib.Omega.{arith}
use qsl_server.Base.Tests.{if◌then◌else◌, ◌==◌, Bool-cases}
use qsl_server.Base.Lists.{length, All}

module _ {ℓ} {A : Type ℓ} where
  -- SELECT * WHERE p
  abbrev pub select : (A → Bool) → List A → List A
  select p [] = []
  select p (x ∷ xs) = let rest = select p xs in if p x then x ∷ rest else rest

  -- DELETE WHERE p
  abbrev pub delete_where : (A → Bool) → List A → List A
  delete_where p xs = select (λ x. not (p x)) xs

  -- UPDATE SET f WHERE p
  abbrev pub update_where : (A → Bool) → (A → A) → List A → List A
  update_where p f [] = []
  update_where p f (x ∷ xs) = (if p x then f x else x) ∷ update_where p f xs

  -- SELECT COUNT(*) WHERE p
  abbrev pub count_where : (A → Bool) → List A → ℕ
  count_where p xs = length (select p xs)

  -- SELECT EXISTS(SELECT 1 WHERE p)
  abbrev pub exists_where : (A → Bool) → List A → Bool
  exists_where p [] = false
  exists_where p (x ∷ xs) = p x || exists_where p xs

  -- a SELECT of at most one row: `query_row(..).optional()`
  abbrev pub find_where : (A → Bool) → List A → Option A
  find_where p [] = none
  find_where p (x ∷ xs) = if p x then some x else find_where p xs

  pub select-select :
      (p q : A → Bool) (xs : List A) → select p (select q xs) ≡ select (λ x. q x && p x) xs
  select-select p q [] = refl
  select-select p q (x ∷ xs) = ground (arith, select-select p q xs)

  pub select_congr :
      (p q : A → Bool) (xs : List A) → ((x : A) → p x ≡ q x) → select p xs ≡ select q xs
  select_congr p q [] h = refl
  select_congr p q (x ∷ xs) h = ground (arith, select_congr p q xs h, h x)

  pub length-select-le : (p : A → Bool) (xs : List A) → length (select p xs) ≤ length xs
  length-select-le p [] = omega arith
  length-select-le p (x ∷ xs) = ground (arith, length-select-le p xs)

  pub exists_where-append :
      (p : A → Bool) (xs ys : List A)
      → exists_where p (xs ++ ys) ≡ (exists_where p xs || exists_where p ys)
  exists_where-append p [] ys = refl
  exists_where-append p (x ∷ xs) ys = ground (arith, exists_where-append p xs ys)

  pub exists_where-snoc :
      (p : A → Bool) (xs : List A) (a : A)
      → exists_where p (xs ++ a ∷ []) ≡ (exists_where p xs || p a)
  exists_where-snoc p [] a = ground arith
  exists_where-snoc p (x ∷ xs) a = ground (arith, exists_where-snoc p xs a)

  pub All-select {κ} :
      (P : A → Type κ) (p : A → Bool) (xs : List A) → All P xs → All P (select p xs)
  All-select P p [] h = tt
  All-select P p (x ∷ xs) h = ground (arith, All-select P p xs h.1)

  pub exists_where-update_where :
      (p q : A → Bool) (f : A → A) (xs : List A)
      → ((x : A) → p (f x) ≡ p x)
      → exists_where p (update_where q f xs) ≡ exists_where p xs
  exists_where-update_where p q f [] h = refl
  exists_where-update_where p q f (x ∷ xs) h =
      ground (arith, exists_where-update_where p q f xs h, h x)

  pub All-not-exists_where :
      (p : A → Bool) (xs : List A) → exists_where p xs ≡ false → All (λ x. p x ≡ false) xs
  All-not-exists_where p [] h = tt
  All-not-exists_where p (x ∷ xs) h = ground (arith, All-not-exists_where p xs)

  -- A DELETE whose condition no row meets changes nothing.
  pub delete_where_none :
      (p : A → Bool) (xs : List A) → All (λ x. p x ≡ false) xs → delete_where p xs ≡ xs
  delete_where_none p [] h = refl
  delete_where_none p (x ∷ xs) h = ground (arith, delete_where_none p xs h.1)

  pub All-update_where {κ} :
      (P : A → Type κ) (p : A → Bool) (f : A → A) (xs : List A)
      → ((x : A) → p x ≡ true → P x → P (f x))
      → All P xs
      → All P (update_where p f xs)
  All-update_where P p f [] step h = tt
  All-update_where P p f (x ∷ xs) step h =
      ground (arith, All-update_where P p f xs step h.1, step x)

  pub length-update_where :
      (p : A → Bool) (f : A → A) (xs : List A) → length (update_where p f xs) ≡ length xs
  length-update_where p f [] = refl
  length-update_where p f (x ∷ xs) = ap suc (length-update_where p f xs)

  pub count_where-zero :
      (p : A → Bool) (xs : List A) → (count_where p xs == 0) ≡ not (exists_where p xs)
  count_where-zero p [] = refl
  count_where-zero p (x ∷ xs) = ground (arith, count_where-zero p xs)

  pub count_where-select :
      (p q : A → Bool) (xs : List A) → count_where p (select q xs) ≤ count_where p xs
  count_where-select p q [] = omega arith
  count_where-select p q (x ∷ xs) = ground (arith, count_where-select p q xs)

  pub count_where-update_where :
      (p q : A → Bool) (f : A → A) (xs : List A)
      → ((x : A) → p (f x) ≡ p x)
      → count_where p (update_where q f xs) ≡ count_where p xs
  count_where-update_where p q f [] h = refl
  count_where-update_where p q f (x ∷ xs) h =
      ground (arith, count_where-update_where p q f xs h, h x)

  pub count_where-snoc :
      (p : A → Bool) (xs : List A) (a : A)
      → count_where p (xs ++ a ∷ []) ≡ count_where p xs + (if p a then 1 else 0)
  count_where-snoc p [] a = ground arith
  count_where-snoc p (x ∷ xs) a = ground (arith, count_where-snoc p xs a)

  pub length-snoc : (xs : List A) (a : A) → length (xs ++ a ∷ []) ≡ suc (length xs)
  length-snoc [] a = omega arith
  length-snoc (x ∷ xs) a = omega (arith, length-snoc xs a)

  pub count_where-delete_where :
      (p : A → Bool) (xs : List A) → count_where p xs + length (delete_where p xs) ≡ length xs
  count_where-delete_where p [] = omega arith
  count_where-delete_where p (x ∷ xs) = ground (arith, count_where-delete_where p xs)

  pub exists_where-select-false :
      (p q : A → Bool) (xs : List A)
      → exists_where p xs ≡ false
      → exists_where p (select q xs) ≡ false
  exists_where-select-false p q [] h = refl
  exists_where-select-false p q (x ∷ xs) h = ground (arith, exists_where-select-false p q xs)

  -- A row stays where only others go.
  pub exists_where-select-true :
      (p q : A → Bool) (xs : List A)
      → ((x : A) → p x ≡ true → q x ≡ true)
      → exists_where p xs ≡ true
      → exists_where p (select q xs) ≡ true
  exists_where-select-true p q [] stays h = h
  exists_where-select-true p q (x ∷ xs) stays h =
      ground (arith, exists_where-select-true p q xs stays, stays x)

  -- An UPDATE that makes no row meet `p` anew.
  pub exists_where-update_where-false :
      (p q : A → Bool) (f : A → A) (xs : List A)
      → ((x : A) → q x ≡ true → p x ≡ false → p (f x) ≡ false)
      → exists_where p xs ≡ false
      → exists_where p (update_where q f xs) ≡ false
  exists_where-update_where-false p q f [] step h = refl
  exists_where-update_where-false p q f (x ∷ xs) step h =
      ground (arith, exists_where-update_where-false p q f xs step, step x)

  -- An UPDATE of all that meet `p`, after which they do not.
  pub exists_where-update_where_self :
      (p : A → Bool) (f : A → A) (xs : List A)
      → ((x : A) → p (f x) ≡ false)
      → exists_where p (update_where p f xs) ≡ false
  exists_where-update_where_self p f [] step = refl
  exists_where-update_where_self p f (x ∷ xs) step =
      ground (arith, exists_where-update_where_self p f xs step, step x)

  pub All-find_where {κ} :
      (P : A → Type κ) (p : A → Bool) (xs : List A) (a : A)
      → All P xs
      → find_where p xs ≡ some a
      → P a
  All-find_where P p [] a h e = cc
  All-find_where P p (x ∷ xs) a h e = elim (Bool-cases (p x)) [
    | inl hit ↦ let same : x ≡ a = ground arith in subst P same h.0
    | inr miss ↦
        let later : find_where p xs ≡ some a = ground arith in All-find_where P p xs a h.1 later
  ]

  -- The row that a search finds is found still where a DELETE spares it.
  pub find_where-delete_where :
      (p q : A → Bool) (xs : List A) (a : A)
      → find_where p xs ≡ some a
      → q a ≡ false
      → find_where p (delete_where q xs) ≡ some a
  find_where-delete_where p q [] a e h = e
  find_where-delete_where p q (x ∷ xs) a e h = elim (Bool-cases (p x)) [
    | inl hit ↦
        let same : x ≡ a = ground arith in
        let spared : q x ≡ false = subst (λ y. q y ≡ false) (sym same) h in ground arith
    | inr miss ↦
        let later : find_where p xs ≡ some a = ground arith in
        let rest = find_where-delete_where p q xs a later h in ground arith
  ]

  pub select_every : (p : A → Bool) (xs : List A) → All (λ x. p x ≡ true) xs → select p xs ≡ xs
  select_every p [] h = refl
  select_every p (x ∷ xs) h = ground (arith, select_every p xs h.1)

  pub All-selected : (p : A → Bool) (xs : List A) → All (λ x. p x ≡ true) (select p xs)
  All-selected p [] = tt
  All-selected p (x ∷ xs) = elim (Bool-cases (p x)) [
    | inl hit ↦ rw hit (hit, All-selected p xs)
    | inr miss ↦ rw miss (All-selected p xs)
  ]

  -- Two conditions, in either order.
  pub select_swap : (p q : A → Bool) (xs : List A) → select p (select q xs) ≡ select q (select p xs)
  select_swap p q [] = refl
  select_swap p q (x ∷ xs) = ground (arith, select_swap p q xs)
