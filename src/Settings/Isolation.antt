-- ===== src/Settings/Isolation.antt =====
-- Which settings a process starts with.
use mycelium_consciousness.Prelude.{
  Text, codes, Bool, true, false, List, [], ◌∷◌, ◌++◌, Option, none, some, arith, ◌==◌, ==→eq,
  lower, strip_prefix, strip_prefix-append, any, select, text_eq, Bool-cases, ◌≡◌, ◌↔◌, ◌∙◌, sym,
  ap, refl, inl, inr, if◌then◌else◌,
}
use mycelium_consciousness.Effects.{Result, ok, err, value_error, configuration_error}
use mycelium_consciousness.Effects.Binds.{>>?-eq-ok}
use mycelium_consciousness.Settings.{
  Environment, sandbox, production, test, Settings, begins, contains, secrets, names,
  is_placeholder, not_for_production, enforce_production, enforce_sandbox, enforce_in,
  enforce_environment_isolation, environments, files, selected, get_settings,
}

-- `part` stands in `s`.
abbrev pub Occurs : (part s : Text) → Type 0
Occurs part s = (a b : Text) × (s ≡ a ++ (part ++ b))

abbrev pub Lacks : (part s : Text) → Type 0
Lacks part s = Occurs part s → ⊥

-- What isolation means for the settings of an environment; nothing for those of a test.
abbrev pub IsIsolatedIn : Environment → Settings → Type 0
IsIsolatedIn production s =
    (s.debug ≡ false)
    × (s.api_reload ≡ false)
    × (s.allow_insecure_jwt_secret ≡ false)
    × Lacks (codes "change_me") (lower s.postgres_password)
    × Lacks (codes "change_me") (lower s.minio_access_key)
    × Lacks (codes "change_me") (lower s.minio_secret_key)
    × Lacks (codes "change_me") (lower s.jwt_secret_key)
    × Lacks (codes "sandbox") (lower s.postgres_db)
    × Lacks (codes "test") (lower s.postgres_db)
    × Lacks (codes "sandbox") (lower s.minio_bucket)
    × Lacks (codes "test") (lower s.minio_bucket)
IsIsolatedIn sandbox s =
    Lacks (codes "prod") (lower s.postgres_db) × Lacks (codes "prod") (lower s.minio_bucket)
IsIsolatedIn test s = Unit

strip_prefix-eq-some : (p s : Text) {r : Text} → strip_prefix p s ≡ some r → s ≡ p ++ r
unfolding strip_prefix
strip_prefix-eq-some [] s h = cc
strip_prefix-eq-some (c ∷ p) [] h = cc
strip_prefix-eq-some (c ∷ p) (d ∷ s) {r} h = elim (Bool-cases (c == d)) [
  | inl e ↦
      let same = ==→eq c d e in rw same (ap (λ t. d ∷ t) (strip_prefix-eq-some p s (rw e at h)))
  | inr e ↦ let none_left : none ≡ some r = rw e at h in cc
]

begins-some : (o : Option Text) → begins o ≡ true → (r : Text) × (o ≡ some r)
begins-some none h = cc
begins-some (some r) h = (r, refl)

contains-Occurs : (part s : Text) → contains part s ≡ true → Occurs part s
unfolding contains
contains-Occurs part [] h =
    let (r, e) = begins-some (strip_prefix part []) h in ([], r, strip_prefix-eq-some part [] e)
contains-Occurs part (c ∷ s) h = elim (Bool-cases (begins (strip_prefix part (c ∷ s)))) [
  | inl b ↦
      let (r, e) = begins-some (strip_prefix part (c ∷ s)) b in
      ([], r, strip_prefix-eq-some part (c ∷ s) e)
  | inr b ↦ let (a, r, e) = contains-Occurs part s (rw b at h) in (c ∷ a, r, ap (λ t. c ∷ t) e)
]

contains_of_begins : (part s : Text) → begins (strip_prefix part s) ≡ true → contains part s ≡ true
unfolding contains
contains_of_begins part [] h = h
contains_of_begins part (c ∷ s) h = rw h refl

contains-append : (part a b : Text) → contains part (a ++ (part ++ b)) ≡ true
unfolding contains
contains-append part [] b =
    contains_of_begins part (part ++ b) (rw (strip_prefix-append part b) refl)
contains-append part (c ∷ a) b = ground (arith, contains-append part a b)

true-false : true ≡ false → ⊥
true-false h = cc

contains-Lacks : (part s : Text) → (contains part s ≡ false) ↔ Lacks part s
contains-Lacks part s = (
  λ h (a, b, e).
      absurd (true-false (sym (contains-append part a b) ∙ ap (contains part) (sym e) ∙ h)),
  λ lacks. elim (Bool-cases (contains part s)) [
    | inl e ↦ absurd (lacks (contains-Occurs part s e))
    | inr e ↦ e
  ],
)

unless_eq-ok :
    {A : Type 0} (b : Bool) (r : Result A) {a : A}
    → (if b then err value_error else r) ≡ ok a
    → (b ≡ false) × (r ≡ ok a)
unless_eq-ok true r h = cc
unless_eq-ok false r h = (refl, h)

any4-eq-false :
    {A : Type 0} (p : A → Bool) (a b c d : A)
    → any p (a ∷ b ∷ c ∷ d ∷ []) ≡ false
    → (p a ≡ false) × (p b ≡ false) × (p c ≡ false) × (p d ≡ false)
any4-eq-false p a b c d h = (ground arith, ground arith, ground arith, ground arith)

any2-eq-false :
    {A : Type 0} (p : A → Bool) (a b : A)
    → any p (a ∷ b ∷ []) ≡ false
    → (p a ≡ false) × (p b ≡ false)
any2-eq-false p a b h = (ground arith, ground arith)

not_for_production-Lacks :
    (name : Text)
    → not_for_production name ≡ false
    → Lacks (codes "sandbox") name × Lacks (codes "test") name
not_for_production-Lacks name h = (
  (contains-Lacks (codes "sandbox") name).0 (ground arith),
  (contains-Lacks (codes "test") name).0 (ground arith),
)

enforce_in-IsIsolated :
    (env : Environment) (s t : Settings) → enforce_in env s ≡ ok t → (t ≡ s) × IsIsolatedIn env s
unfolding enforce_production enforce_sandbox
enforce_in-IsIsolated production s t h =
    let (a, h1) = unless_eq-ok s.debug _ h in
    let (b, h2) = unless_eq-ok s.api_reload _ h1 in
    let (c, h3) = unless_eq-ok s.allow_insecure_jwt_secret _ h2 in
    let (d, h4) = unless_eq-ok (any is_placeholder (secrets s)) _ h3 in
    let (e, h5) = unless_eq-ok (any not_for_production (names s)) _ h4 in
    let (d1, d2, d3, d4) =
      any4-eq-false is_placeholder s.postgres_password s.minio_access_key s.minio_secret_key
        s.jwt_secret_key d in
    let (e1, e2) =
      any2-eq-false not_for_production (lower s.postgres_db) (lower s.minio_bucket) e in
    let (db_sandbox, db_test) = not_for_production-Lacks (lower s.postgres_db) e1 in
    let (bucket_sandbox, bucket_test) = not_for_production-Lacks (lower s.minio_bucket) e2 in
    (
      cc,
      (
        a,
        b,
        c,
        (contains-Lacks (codes "change_me") (lower s.postgres_password)).0 d1,
        (contains-Lacks (codes "change_me") (lower s.minio_access_key)).0 d2,
        (contains-Lacks (codes "change_me") (lower s.minio_secret_key)).0 d3,
        (contains-Lacks (codes "change_me") (lower s.jwt_secret_key)).0 d4,
        db_sandbox,
        db_test,
        bucket_sandbox,
        bucket_test,
      ),
    )
enforce_in-IsIsolated sandbox s t h =
    let (a, h1) = unless_eq-ok (any (contains (codes "prod")) (names s)) _ h in
    let (a1, a2) =
      any2-eq-false (contains (codes "prod")) (lower s.postgres_db) (lower s.minio_bucket) a in
    (
      cc,
      (
        (contains-Lacks (codes "prod") (lower s.postgres_db)).0 a1,
        (contains-Lacks (codes "prod") (lower s.minio_bucket)).0 a2,
      ),
    )
enforce_in-IsIsolated test s t h = (cc, tt)

isolated-enforce_in :
    (env : Environment) (s : Settings) → IsIsolatedIn env s → enforce_in env s ≡ ok s
unfolding enforce_production enforce_sandbox
isolated-enforce_in production s (a, b, c, d1, d2, d3, d4, e1, e2, e3, e4) =
    rw
      (
        a,
        b,
        c,
        (contains-Lacks (codes "change_me") (lower s.postgres_password)).1 d1,
        (contains-Lacks (codes "change_me") (lower s.minio_access_key)).1 d2,
        (contains-Lacks (codes "change_me") (lower s.minio_secret_key)).1 d3,
        (contains-Lacks (codes "change_me") (lower s.jwt_secret_key)).1 d4,
        (contains-Lacks (codes "sandbox") (lower s.postgres_db)).1 e1,
        (contains-Lacks (codes "test") (lower s.postgres_db)).1 e2,
        (contains-Lacks (codes "sandbox") (lower s.minio_bucket)).1 e3,
        (contains-Lacks (codes "test") (lower s.minio_bucket)).1 e4,
      )
      refl
isolated-enforce_in sandbox s (a, b) =
    rw
      (
        (contains-Lacks (codes "prod") (lower s.postgres_db)).1 a,
        (contains-Lacks (codes "prod") (lower s.minio_bucket)).1 b,
      )
      refl
isolated-enforce_in test s u = refl

-- Settings pass the validator exactly if they are isolated: in production no debugging, reloading or
-- insecure key, no secret that still has the placeholder in it, and no database or bucket that is
-- named after the sandbox or a test; in the sandbox none that is named after production.
pub enforce_environment_isolation_iff :
    (s : Settings) → (enforce_environment_isolation s ≡ ok s) ↔ IsIsolatedIn s.app_env s
unfolding enforce_environment_isolation
enforce_environment_isolation_iff s =
    (λ h. (enforce_in-IsIsolated s.app_env s s h).1, isolated-enforce_in s.app_env s)

refused : {s : Settings} → err configuration_error ≡ ok s → ⊥
refused h = cc

-- A process that gets settings has named one of the three environments, and its settings are those
-- that were loaded from the files that exist, and isolated.
get_settings-IsIsolated :
    (load : List Text → Result Settings) (is_file : Text → Bool) (cwd : Text)
    (raw explicit : Option Text) (s : Settings)
    → get_settings load is_file cwd raw explicit ≡ ok s
    → (any (text_eq (selected raw)) environments ≡ true)
      × (load (select is_file (files cwd (selected raw) explicit)) ≡ ok s)
      × IsIsolatedIn s.app_env s
unfolding get_settings enforce_environment_isolation
get_settings-IsIsolated load is_file cwd raw explicit s h =
    elim (Bool-cases (any (text_eq (selected raw)) environments)) [
      | inl e ↦
          let (t, loaded, h1) =
            >>?-eq-ok (load (select is_file (files cwd (selected raw) explicit))) _ (rw e at h) in
          let (same, isolated) = enforce_in-IsIsolated t.app_env t s h1 in
          (e, loaded ∙ ap ok (sym same), rw same isolated)
      | inr e ↦ elim (refused (rw e at h)) [ ]
    ]
