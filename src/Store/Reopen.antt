-- ===== src/Store/Reopen.antt =====
-- What opening a store leaves of the file, and opening it again.
use qsl_server.Base.{
  ℕ, subst, take, arith, ◌≡◌, refl, ◌∙◌, sym, ap, Text, Bool, true, false, Option, some, none,
  String, inl, inr, Bool-cases, leb, ltb, if◌then◌else◌,
}
use qsl_server.Base.Result.{Result, ok, err, ok-inj}
use qsl_server.Config.Limits.{StoreConfig}
use qsl_server.Store.Schema.{Store}
use qsl_server.Store.Open.{
  File, Setup, Signed, minus, plus, parse_i64, schema_version, open_store, opened_as, with_store,
  version, open_file, open_version, check_version, write_schema_version, write_marker, prepared,
  marker, tables, statements, run_all, schema_text, durations, is_newer, is_older,
}
use qsl_server.Store.Prepared.{
  Spared, Spared-refl, Spared-tables, Spared-marker, statements-Spared, some_statements-Spared,
  IsPrepared, statements-IsPrepared,
}
use qsl_server.Store.Version.{open_store-marked}

-- The outcome of the check of the marker, for the settings `st`: the tables are those of the file, an
-- error leaves the marker too, and the store has these settings.
pub record Opens (st : Store) (f : File) (x : Result Store × File) : Type 0 where
  pub rows : tables x.1 ≡ tables f
  pub unchanged : (e : String) → x.0 ≡ err e → x.1 ≡ f
  pub settings : (s : Store) → x.0 ≡ ok s → s ≡ st

refused-Opens : (e : String) (st : Store) (f : File) → Opens st f (err e, f)
refused-Opens e st f = record { rows = refl; unchanged = λ m h. refl; settings = λ s h. cc }

as_is-Opens : (st : Store) (f : File) → Opens st f (ok st, f)
as_is-Opens st f = record { rows = refl; unchanged = λ m h. refl; settings = λ s h. sym (ok-inj h) }

marker-Opens :
    (w : Setup) (st : Store) (f : File) → Opens st f (opened_as st (write_schema_version w f))
unfolding write_schema_version
marker-Opens w st f = go w.write
  where
    go : (e : Option String) → Opens st f (opened_as st (write_marker e f))
    go none = record { rows = refl; unchanged = λ m h. cc; settings = λ s h. sym (ok-inj h) }
    go (some e) = refused-Opens _ st f

checked-Opens :
    (w : Setup) (st : Store) (f : File) (v : Option Signed) → Opens st f (check_version w st f v)
unfolding check_version
checked-Opens w st f none = refused-Opens "ERR_STORE_VERSION" st f
checked-Opens w st f (some v) = elim (Bool-cases (is_newer v)) [
  | inl newer ↦ rw newer (refused-Opens "ERR_STORE_VERSION" st f)
  | inr same ↦ rw same (elim (Bool-cases (is_older v)) [
    | inl older ↦ rw older (marker-Opens w st f)
    | inr there ↦ rw there (as_is-Opens st f)
  ])
]

version-Opens :
    (w : Setup) (st : Store) (f : File) (m : Option Text) → Opens st f (open_version w st f m)
unfolding open_version
version-Opens w st f none = marker-Opens w st f
version-Opens w st f (some raw) = checked-Opens w st f (parse_i64 raw)

-- The outcome of an open: no row changes, an error leaves every table that was there as it was, and the
-- store has the settings of the configuration.
record Outcome (d : Result Store) (f : File) (x : Result Store × File) : Type 0 where
  rows : tables x.1 ≡ tables f
  spared : (e : String) → x.0 ≡ err e → Spared f x.1
  settings : (s : Store) → x.0 ≡ ok s → d ≡ ok s

failed-Outcome : (d : Result Store) (e : String) (f g : File) → Spared f g → Outcome d f (err e, g)
failed-Outcome d e f g s = record {
  rows = Spared-tables f g s;
  spared = λ m h. s;
  settings = λ s h. cc;
}

checked-Outcome :
    (st : Store) (f g : File) (x : Result Store × File)
    → Spared f g
    → Opens st g x
    → Outcome (ok st) f x
checked-Outcome st f g x s o = record {
  rows = o.rows ∙ Spared-tables f g s;
  spared = λ e h. subst (Spared f) (sym (o.unchanged e h)) s;
  settings = λ t h. ap ok (sym (o.settings t h));
}

prepared-Outcome :
    (w : Setup) (st : Store) (f : File) (e : Option (ℕ × String))
    → Outcome (ok st) f (prepared e (λ g. open_version w st g (marker g)) f)
prepared-Outcome w st f none =
    let g = run_all statements f in
    checked-Outcome st f g (open_version w st g (marker g)) (statements-Spared f)
      (version-Opens w st g (marker g))
prepared-Outcome w st f (some (n, m)) =
    failed-Outcome (ok st) _ f (run_all (take n statements) f) (some_statements-Spared n f)

file-Outcome : (w : Setup) (st : Store) (f : File) → Outcome (ok st) f (open_file w st f)
unfolding open_file
file-Outcome w st f = elim (Bool-cases w.opened) [
  | inl done ↦ rw done (prepared-Outcome w st f w.prepare)
  | inr shut ↦ rw shut (failed-Outcome (ok st) "ERR_INVALID_CONFIG_STORE_PATH" f f (Spared-refl f))
]

store-Outcome :
    (cfg : StoreConfig) (w : Setup) (f : File) → Outcome (durations cfg) f (open_store cfg w f)
unfolding open_store
store-Outcome cfg w f = go (durations cfg)
  where
    go : (d : Result Store) → Outcome d f (with_store d (λ st. open_file w st f) f)
    go (ok st) = file-Outcome w st f
    go (err e) = failed-Outcome (err e) e f f (Spared-refl f)

-- The rows of an opened store are those of the file.
pub open_store-tables :
    (cfg : StoreConfig) (w : Setup) (f : File) → tables (open_store cfg w f).1 ≡ tables f
open_store-tables cfg w f = (store-Outcome cfg w f).rows

-- The settings of an opened store are the durations of the configuration.
pub open_store-durations :
    (cfg : StoreConfig) (w : Setup) (f : File) (s : Store)
    → (open_store cfg w f).0 ≡ ok s
    → durations cfg ≡ ok s
open_store-durations cfg w f s h = (store-Outcome cfg w f).settings s h

-- An open that fails, for whatever reason and at whatever statement, changes no row and no marker: every
-- table that the file has stays as it is, and a missing one is missing still or is there and empty.
pub open_store-spared :
    (cfg : StoreConfig) (w : Setup) (f : File) (e : String)
    → (open_store cfg w f).0 ≡ err e
    → let g = (open_store cfg w f).1 in (tables g ≡ tables f) × (marker g ≡ marker f) × Spared f g
open_store-spared cfg w f e h =
    let s = (store-Outcome cfg w f).spared e h in
    let g = (open_store cfg w f).1 in (Spared-tables f g s, Spared-marker f g s, s)

-- No marker, or one that is an integer at most the version of this build.
abbrev is_readable : Option Signed → Bool
is_readable none = false
is_readable (some (minus n)) = true
is_readable (some (plus n)) = leb n schema_version

abbrev pub is_supported : Option Text → Bool
is_supported none = true
is_supported (some raw) = is_readable (parse_i64 raw)

not_newer : (n : ℕ) → leb n schema_version ≡ true → ltb schema_version n ≡ false
not_newer n h = ground arith

newer : (n : ℕ) → leb n schema_version ≡ false → ltb schema_version n ≡ true
newer n h = ground arith

checked-is_supported :
    (w : Setup) (st : Store) (f : File) (v : Option Signed)
    → w.write ≡ none
    → (check_version w st f v).0 ≡ (if is_readable v then ok st else err "ERR_STORE_VERSION")
unfolding check_version write_schema_version
checked-is_supported w st f none h = refl
checked-is_supported w st f (some (minus n)) h = rw h
checked-is_supported w st f (some (plus n)) h = elim (Bool-cases (leb n schema_version)) [
  | inl old ↦
      rw (old, not_newer n old)
        (elim (Bool-cases (ltb n schema_version)) [
          | inl older ↦ rw (older, h)
          | inr there ↦ rw there
        ])
  | inr new ↦ rw (new, newer n new)
]

version-is_supported :
    (w : Setup) (st : Store) (f : File) (m : Option Text)
    → w.write ≡ none
    → (open_version w st f m).0 ≡ (if is_supported m then ok st else err "ERR_STORE_VERSION")
unfolding open_version write_schema_version
version-is_supported w st f none h = rw h
version-is_supported w st f (some raw) h = checked-is_supported w st f (parse_i64 raw) h

reaches-version :
    (cfg : StoreConfig) (w : Setup) (f : File) (st : Store)
    → durations cfg ≡ ok st
    → w.opened ≡ true
    → w.prepare ≡ none
    → let g = run_all statements f in open_store cfg w f ≡ open_version w st g (marker g)
unfolding open_store open_file
reaches-version cfg w f st d o p = simp (d, o, p)

-- With durations that are accepted and an SQLite that makes no errors, a store opens exactly if the file
-- has no schema marker or an integer one that is not above the version of this build; else the code is
-- ERR_STORE_VERSION.
pub open_store-is_supported :
    (cfg : StoreConfig) (w : Setup) (f : File) (st : Store)
    → durations cfg ≡ ok st
    → w.opened ≡ true
    → w.prepare ≡ none
    → w.write ≡ none
    → (open_store cfg w f).0 ≡ (if is_supported (marker f) then ok st else err "ERR_STORE_VERSION")
open_store-is_supported cfg w f st d o p h =
    let g = run_all statements f in
    ap (λ x. x.0) (reaches-version cfg w f st d o p)
    ∙ version-is_supported w st g (marker g) h
    ∙ ap (λ m. if is_supported m then ok st else err "ERR_STORE_VERSION")
        (Spared-marker f g (statements-Spared f))

-- A check of the marker leaves the tables that are there.
marker-IsPrepared :
    (w : Setup) (st : Store) (f : File)
    → IsPrepared f
    → IsPrepared (opened_as st (write_schema_version w f)).1
unfolding write_schema_version
marker-IsPrepared w st f h = go w.write
  where
    go : (e : Option String) → IsPrepared (opened_as st (write_marker e f)).1
    go none = ap (λ (g : File). record g { meta = some (some schema_text) }) h
    go (some e) = h

version-IsPrepared :
    (w : Setup) (st : Store) (f : File) (m : Option Text)
    → IsPrepared f
    → IsPrepared (open_version w st f m).1
unfolding open_version check_version
version-IsPrepared w st f none h = marker-IsPrepared w st f h
version-IsPrepared w st f (some raw) h = go (parse_i64 raw)
  where
    go : (v : Option Signed) → IsPrepared (check_version w st f v).1
    go none = h
    go (some v) = ground (arith, h, marker-IsPrepared w st f h)

prepared-IsPrepared :
    (w : Setup) (s st : Store) (f : File) (e : Option (ℕ × String))
    → let x = prepared e (λ g. open_version w s g (marker g)) f in x.0 ≡ ok st → IsPrepared x.1
prepared-IsPrepared w s st f none h =
    let g = run_all statements f in version-IsPrepared w s g (marker g) (statements-IsPrepared f)
prepared-IsPrepared w s st f (some (n, m)) h = cc

file-IsPrepared :
    (w : Setup) (s st : Store) (f : File)
    → (open_file w s f).0 ≡ ok st
    → IsPrepared (open_file w s f).1
unfolding open_file
file-IsPrepared w s st f h = ground (arith, prepared-IsPrepared w s st f w.prepare)

store-IsPrepared :
    (cfg : StoreConfig) (w : Setup) (f : File) (st : Store)
    → (open_store cfg w f).0 ≡ ok st
    → IsPrepared (open_store cfg w f).1
unfolding open_store
store-IsPrepared cfg w f st h = go (durations cfg) h
  where
    go :
        (d : Result Store)
        → (with_store d (λ s. open_file w s f) f).0 ≡ ok st
        → IsPrepared (with_store d (λ s. open_file w s f) f).1
    go (ok s) h = file-IsPrepared w s st f h
    go (err e) h = cc

current-opens :
    (w : Setup) (st : Store) (f : File) (m : Option Text)
    → version m ≡ some (plus schema_version)
    → open_version w st f m ≡ (ok st, f)
unfolding open_version check_version version
current-opens w st f none h = cc
current-opens w st f (some raw) h = rw h

-- Opening the file that an open left, with the same configuration and an SQLite that makes no errors
-- before the marker is read, gives the same store and changes the file no more.
pub open_store-again :
    (cfg : StoreConfig) (w again : Setup) (f : File) (st : Store)
    → (open_store cfg w f).0 ≡ ok st
    → again.opened ≡ true
    → again.prepare ≡ none
    → open_store cfg again (open_store cfg w f).1 ≡ (ok st, (open_store cfg w f).1)
open_store-again cfg w again f st h o p =
    let g = (open_store cfg w f).1 in
    reaches-version cfg again g st (open_store-durations cfg w f st h) o p
    ∙ ap (λ (x : File). open_version again st x (marker x)) (store-IsPrepared cfg w f st h)
    ∙ current-opens again st g (marker g) (open_store-marked cfg w f st h)
