-- ===== src/Config/Spelled.antt =====
-- What the readers of a numeric variable accept.
use Prim.Native.String.{String, ◌++◌}
use qsl_server.Base.{
  ℕ, ◌^◌, ◌<◌, Text, ◌≡◌, refl, Bool, true, false, Option, some, none, inl, inr, Bool-cases, arith,
  if◌then◌else◌,
}
use qsl_server.Base.Number.{value, unsigned, spells, parse_unsigned-spells}
use qsl_server.Base.Result.{Result, ok, err, ◌>>=◌}
use qsl_server.Secrets.Trim.{is_blank}
use qsl_server.Config.Resolve.{ok_or}
use qsl_server.Config.Env.{Vars, env_opt, read_some, env_u16, env_usize}

-- A variable that is missing or blank counts as not set; any other one is a number below `bound`,
-- written in decimal digits behind an optional plus sign, or an error.
abbrev pub number_of : ℕ → String → Option Text → Result (Option ℕ)
number_of bound code none = ok none
number_of bound code (some v) =
    if is_blank v
    then ok none
    else if spells bound (unsigned v)
    then ok (some (value 0 (unsigned v)))
    else err code

read-number_of :
    (bound : ℕ) (code name : String) (vars : Vars) (x : Option Text)
    → 0 < bound
    → vars name ≡ x
    → read_some bound code (env_opt vars name) ≡ number_of bound code x
unfolding read_some env_opt
read-number_of bound code name vars none p h = rw h
read-number_of bound code name vars (some v) p h = elim (Bool-cases (is_blank v)) [
  | inl blank ↦ rw (h, blank)
  | inr there ↦ rw (h, there, parse_unsigned-spells bound v p) (spelled (spells bound (unsigned v)))
]
  where
    spelled :
        (b : Bool)
        → (ok_or (if b then some (value 0 (unsigned v)) else none) code >>= (λ n. ok (some n)))
          ≡ (if b then ok (some (value 0 (unsigned v))) else err code)
    spelled true = refl
    spelled false = refl

-- A numeric variable is read as the number that its digits spell, however many there are: a `usize`
-- below 2^64 and a port below 2^16; anything else that is not blank is refused with the code of that
-- reader and the name of the variable, and a missing or blank variable is not set.
pub env_usize-number_of :
    (vars : Vars) (name : String)
    → (env_usize vars name ≡ number_of (2 ^ 64) ("ERR_INVALID_CONFIG_" ++ name) (vars name))
      × (env_u16 vars name ≡ number_of (2 ^ 16) ("ERR_INVALID_ENV_" ++ name) (vars name))
unfolding env_usize env_u16
env_usize-number_of vars name = (
  read-number_of (2 ^ 64) ("ERR_INVALID_CONFIG_" ++ name) name vars (vars name) (omega arith) refl,
  read-number_of (2 ^ 16) ("ERR_INVALID_ENV_" ++ name) name vars (vars name) (omega arith) refl,
)
