-- ===== src/Isolation/Restoring.antt =====
-- The hooks of hivescope/xdg_isolation.py give the environment back.
use hivescope.Prelude.{
  ◌≡◌, ◌⊎◌, refl, ap, String, true, false, Option, none, List, [], ◌∷◌, ◌==◌, any, map, eq_iff,
  Bool-cases, inl, inr,
}
use hivescope.Isolation.{
  Environ, put, xdg_vars, opts_out, value_or_empty, redirect, restore, pytest_configure,
  pytest_unconfigure,
}

module _ (env : Environ) where
  -- What was saved of the variables.
  abbrev saved_of : List (String × String) → List (String × Option String)
  saved_of = map (λ v. (v.0, env v.0))

  -- One value put back where all the others are right, or the name is among those to come.
  restore-right :
      (vars : List (String × String)) (now : Environ) (k : String)
      → (now k ≡ env k) ⊎ (any (λ v. v.0 == k) vars ≡ true)
      → restore (saved_of vars) now k ≡ env k
  unfolding restore any
  restore-right [] now k (inl e) = e
  restore-right [] now k (inr e) = absurd (cc)
  restore-right ((var, name) ∷ vars) now k h = elim (Bool-cases (var == k)) [
    | inl q ↦
        restore-right vars (put var (env var) now) k (inl (rw q (ap env ((eq_iff var k).0 q))))
    | inr q ↦
        restore-right vars (put var (env var) now) k
          (elim h [ inl e ↦ inl (rw q e) | inr m ↦ inr (rw q at m) ])
  ]

  -- Redirecting changes nothing but the variables.
  redirect-others :
      (root : String) (vars : List (String × String)) (now : Environ) (k : String)
      → now k ≡ env k
      → any (λ v. v.0 == k) vars ≡ false
      → redirect root vars now k ≡ env k
  unfolding redirect any
  redirect-others root [] now k e h = e
  redirect-others root ((var, name) ∷ vars) now k e h = elim (Bool-cases (var == k)) [
    | inl q ↦ absurd (let bad = rw q at h in cc)
    | inr q ↦ redirect-others root vars (put var _ now) k (rw q e) (rw q at h)
  ]

  restore-redirect :
      (root : String) (vars : List (String × String)) (k : String)
      → restore (saved_of vars) (redirect root vars env) k ≡ env k
  restore-redirect root vars k = elim (Bool-cases (any (λ v. v.0 == k) vars)) [
    | inl m ↦ restore-right vars (redirect root vars env) k (inr m)
    | inr m ↦
        restore-right vars (redirect root vars env) k (inl (redirect-others root vars env k refl m))
  ]

-- Over a session that starts with nothing saved, with a directory that has a name, the hooks leave every variable of the environment as it was,
-- set or unset, whether the session opted out or not, and nothing saved.
pub pytest_unconfigure-pytest_configure :
    (root : String) (env : Environ) (k : String)
    → (root == "") ≡ false
    → let (after, config) =
        pytest_unconfigure (pytest_configure root (env, record { saved = none; root = none })) in
      (after k ≡ env k) × (config ≡ record { saved = none; root = none })
unfolding pytest_unconfigure pytest_configure
pytest_unconfigure-pytest_configure root env k named =
    elim (Bool-cases (opts_out (value_or_empty (env "HIVESCOPE_NO_XDG_ISOLATION")))) [
      | inl e ↦ rw e (refl, refl)
      | inr e ↦ rw e (restore-redirect env root xdg_vars k, rw named refl)
    ]
