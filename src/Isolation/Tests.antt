-- ===== src/Isolation/Tests.antt =====
-- A session in an environment with one of the variables set.
use hivescope.Prelude.{◌≡◌, refl, true, false, none, some, ◌==◌, any, if◌then◌else◌}
use hivescope.Isolation.{
  Environ, opts_out, lstrip, rstrip, same_codes, redirect, pytest_configure, pytest_unconfigure,
}
use hivescope.Isolation.Restoring.{pytest_unconfigure-pytest_configure}

abbrev environ : Environ
environ k = if k == "XDG_DATA_HOME" then some "/home/me/data" else none

opting_out : (opts_out " Yes\n" ≡ true) × (opts_out "no" ≡ false) × (opts_out "" ≡ false)
unfolding opts_out lstrip rstrip same_codes any
opting_out = (refl, refl, refl)

redirected :
    (pytest_configure "/tmp/x" (environ, record { saved = none; root = none })).0 "XDG_STATE_HOME"
    ≡ some "/tmp/x/state"
unfolding pytest_configure opts_out lstrip rstrip same_codes any redirect
redirected = refl

pytest_unconfigure-pytest_configure_example :
    ((pytest_unconfigure
          (pytest_configure "/tmp/x" (environ, record { saved = none; root = none }))).0
        "XDG_DATA_HOME"
      ≡ some "/home/me/data")
    × ((pytest_unconfigure
          (pytest_configure "/tmp/x" (environ, record { saved = none; root = none }))).1
        ≡ record { saved = none; root = none })
pytest_unconfigure-pytest_configure_example =
    pytest_unconfigure-pytest_configure "/tmp/x" environ "XDG_DATA_HOME" refl
