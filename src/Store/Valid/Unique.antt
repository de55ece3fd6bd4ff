-- ===== src/Store/Valid/Unique.antt =====
-- PRIMARY KEY: no two rows of a table have the same key.
use qsl_server.Base.{
  Text, text_eq, text_eq_sym, ◌≡◌, refl, ap, Bool, false, List, [], ◌∷◌, ◌++◌, arith, select,
  exists_where, update_where, exists_where-append, exists_where-update_where,
}

abbrev pub Unique {ℓ} : {A : Type ℓ} → (A → Text) → List A → Type 0
Unique key [] = Unit
Unique key (x ∷ xs) = (exists_where (λ y. text_eq (key y) (key x)) xs ≡ false) × Unique key xs

module _ {ℓ} {A : Type ℓ} (key : A → Text) where
  exists_select-false :
      (p q : A → Bool) (xs : List A)
      → exists_where p xs ≡ false
      → exists_where p (select q xs) ≡ false
  exists_select-false p q [] h = refl
  exists_select-false p q (x ∷ xs) h = ground (arith, exists_select-false p q xs)

  pub Unique-select : (p : A → Bool) (xs : List A) → Unique key xs → Unique key (select p xs)
  Unique-select p [] h = tt
  Unique-select p (x ∷ xs) h =
      ground
        (arith, Unique-select p xs h.1, exists_select-false (λ y. text_eq (key y) (key x)) p xs)

  -- A row whose key is not there yet may be added.
  pub Unique-append :
      (xs : List A) (a : A)
      → exists_where (λ y. text_eq (key y) (key a)) xs ≡ false
      → Unique key xs
      → Unique key (xs ++ a ∷ [])
  Unique-append [] a n h = (refl, tt)
  Unique-append (x ∷ xs) a n h = ground (
    arith,
    Unique-append xs a,
    exists_where-append (λ y. text_eq (key y) (key x)) xs (a ∷ []),
    text_eq_sym (key x) (key a),
  )

  -- An update that leaves the key alone.
  pub Unique-update_where :
      (p : A → Bool) (f : A → A) (xs : List A)
      → ((x : A) → key (f x) ≡ key x)
      → Unique key xs
      → Unique key (update_where p f xs)
  Unique-update_where p f [] same h = tt
  Unique-update_where p f (x ∷ xs) same h = ground (
    arith,
    Unique-update_where p f xs same h.1,
    same x,
    exists_where-update_where (λ y. text_eq (key y) (key x)) p f xs
        (λ y. ap (λ k. text_eq k (key x)) (same y)),
  )
