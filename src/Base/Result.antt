-- ===== src/Base/Result.antt =====
-- Rust's `Result<T, String>`.
use mathlib.Core.Path.{◌≡◌, refl, ap}
use native.Mathlib.Omega.{arith}
use Prim.Native.String.{String}

pub data Result {ℓ} (A : Type ℓ) : Type ℓ where
  ok : A → Result A
  err : String → Result A

-- `?`
infixl 5 ◌>>=◌
abbrev pub ◌>>=◌ {ℓ κ} : {A : Type ℓ} {B : Type κ} → Result A → (A → Result B) → Result B
ok a >>= f = f a
err e >>= f = err e

-- What is left of a chain that succeeds, at the value of its first step.
pub then-ok {ℓ κ μ} :
    {A : Type ℓ} {B : Type κ} {C : Type μ} {b : B} (m : Result A) (f : A → Result B)
    → (m >>= f) ≡ ok b
    → ((a : A) → m ≡ ok a → f a ≡ ok b → C)
    → C
then-ok (ok a) f e k = k a refl e
then-ok (err s) f e k = ground arith

pub ok-inj {ℓ} : {A : Type ℓ} {a b : A} → ok a ≡ ok b → a ≡ b
ok-inj {A = A} {a} e = ap get e
  where
    get : Result A → A
    get (ok x) = x
    get (err s) = a
