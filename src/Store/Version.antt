-- ===== src/Store/Version.antt =====
-- What opening a store does with its schema marker.
use qsl_server.Base.{
  ℕ, ◌≡◌, refl, ◌∙◌, Text, false, Option, some, none, String, arith, ap, inl, inr, Bool-cases,
}
use qsl_server.Base.Result.{Result, ok, err}
use qsl_server.Config.Limits.{StoreConfig}
use qsl_server.Store.Schema.{Store}
use qsl_server.Store.Open.{
  File, Setup, Signed, plus, minus, parse_i64, schema_version, open_store, opened_as, with_store,
  version, open_file, open_version, check_version, write_schema_version, write_marker, prepared,
  marker, run_all, statements, durations, is_newer, is_older,
}

neither : (v : Signed) → is_newer v ≡ false → is_older v ≡ false → v ≡ plus schema_version
neither (plus n) h g = ap plus (ground arith)
neither (minus n) h g = cc

-- The outcome of an open: on success the marker says the version of this build.
abbrev IsMarked : Result Store × File → Type 0
IsMarked x = (st : Store) → x.0 ≡ ok st → version (marker x.1) ≡ some (plus schema_version)

marker-IsMarked :
    (e : Option String) (st : Store) (f : File) → IsMarked (opened_as st (write_marker e f))
unfolding version
marker-IsMarked none st f = λ s e. refl
marker-IsMarked (some m) st f = λ s e. cc

written-IsMarked :
    (w : Setup) (st : Store) (f : File) → IsMarked (opened_as st (write_schema_version w f))
unfolding write_schema_version
written-IsMarked w st f = marker-IsMarked w.write st f

checked-IsMarked :
    (w : Setup) (st : Store) (f : File) (v : Option Signed)
    → version (marker f) ≡ v
    → IsMarked (check_version w st f v)
unfolding check_version
checked-IsMarked w st f none h = λ s e. cc
checked-IsMarked w st f (some v) h = elim (Bool-cases (is_newer v)) [
  | inl newer ↦ rw newer (λ s e. cc)
  | inr same ↦ rw same (elim (Bool-cases (is_older v)) [
    | inl older ↦ rw older (written-IsMarked w st f)
    | inr there ↦ rw there (λ s e. h ∙ ap some (neither v same there))
  ])
]

version-IsMarked :
    (w : Setup) (st : Store) (f : File) (m : Option Text)
    → marker f ≡ m
    → IsMarked (open_version w st f m)
unfolding open_version
version-IsMarked w st f none h = written-IsMarked w st f
version-IsMarked w st f (some raw) h =
    checked-IsMarked w st f (parse_i64 raw) (ap version h ∙ unfold version in refl)

prepared-IsMarked :
    (w : Setup) (st : Store) (f : File) (e : Option (ℕ × String))
    → IsMarked (prepared e (λ g. open_version w st g (marker g)) f)
prepared-IsMarked w st f none =
    version-IsMarked w st (run_all statements f) (marker (run_all statements f)) refl
prepared-IsMarked w st f (some (n, m)) = λ s e. cc

file-IsMarked : (w : Setup) (st : Store) (f : File) → IsMarked (open_file w st f)
unfolding open_file
file-IsMarked w st f = elim (Bool-cases w.opened) [
  | inl done ↦ rw done (prepared-IsMarked w st f w.prepare)
  | inr shut ↦ rw shut (λ s e. cc)
]

with_store-IsMarked :
    (d : Result Store) (w : Setup) (f : File) → IsMarked (with_store d (λ st. open_file w st f) f)
with_store-IsMarked (ok st) w f = file-IsMarked w st f
with_store-IsMarked (err e) w f = λ s h. cc

-- A store that opens has the schema marker of this build, whatever marker the file had: a new file
-- gets one, an older one is raised, and no newer one is opened.
pub open_store-marked :
    (cfg : StoreConfig) (w : Setup) (f : File) (st : Store)
    → (open_store cfg w f).0 ≡ ok st
    → version (marker (open_store cfg w f).1) ≡ some (plus schema_version)
unfolding open_store
open_store-marked cfg w f st h = with_store-IsMarked (durations cfg) w f st h
