-- ===== src/Isolation.antt =====
-- hivescope/xdg_isolation.py: the two pytest hooks. `os.environ` is a function from names to values; the
-- directory that `mkdtemp` makes is an argument, and the files in it are left out.
pub mod Restoring
mod Tests
use Prim.Native.Char.{code}
use Prim.Native.String.{◌++◌ as join, [] as nil_text, ◌∷◌ as cons_text}
use hivescope.Prelude.{
  ℕ, ◌+◌, String, Bool, true, false, ◌&&◌, ◌||◌, Option, none, some, List, [], ◌∷◌, ◌++◌, ◌==◌, any,
  leb, nat_eq, map, if◌then◌else◌,
}

abbrev pub Environ : Type 0
Environ = String → Option String

-- os.environ[k] = v, or os.environ.pop(k, None)
abbrev pub put : String → Option String → Environ → Environ
put k v env j = if k == j then v else env j

-- The attributes that the hooks keep on `config`.
pub record Config : Type 0 where
  pub saved : Option (List (String × Option String))
  pub root : Option String

-- _XDG_VARS, with var.split("_")[1].lower()
abbrev pub xdg_vars : List (String × String)
xdg_vars =
    ("XDG_CONFIG_HOME", "config")
    ∷ ("XDG_DATA_HOME", "data")
    ∷ ("XDG_CACHE_HOME", "cache")
    ∷ ("XDG_STATE_HOME", "state")
    ∷ []

abbrev pub codes : String → List ℕ
codes nil_text = []
codes (cons_text c s) = code c ∷ codes s

-- c.isspace()
abbrev pub is_space : ℕ → Bool
is_space c =
    (leb 9 c && leb c 13)
    || ((leb 28 c && leb c 32)
        || ((leb 8192 c && leb c 8202)
            || any (nat_eq c) (133 ∷ 160 ∷ 5760 ∷ 8232 ∷ 8233 ∷ 8239 ∷ 8287 ∷ 12288 ∷ [])))

unfoldable pub lstrip : List ℕ → List ℕ
lstrip [] = []
lstrip (c ∷ cs) = let rest = lstrip cs in if is_space c then rest else c ∷ cs

-- What is blank to its end goes.
unfoldable pub rstrip : List ℕ → List ℕ
rstrip [] = []
rstrip (c ∷ cs) = elim (rstrip cs) [ [] ↦ if is_space c then [] else c ∷ [] | d ∷ ds ↦ c ∷ d ∷ ds ]

-- c.lower(), which is on other letters never a letter of the words below
abbrev pub lower : ℕ → ℕ
lower c = if leb 65 c && leb c 90 then c + 32 else c

unfoldable pub same_codes : List ℕ → List ℕ → Bool
same_codes [] [] = true
same_codes (x ∷ xs) (y ∷ ys) = nat_eq x y && same_codes xs ys
same_codes _ _ = false

-- value.strip().lower() in ("1", "true", "yes")
unfoldable pub opts_out : String → Bool
unfolding lstrip rstrip same_codes
opts_out value =
    let word = map lower (rstrip (lstrip (codes value))) in
    any (λ w. same_codes word (codes w)) ("1" ∷ "true" ∷ "yes" ∷ [])

abbrev pub value_or_empty : Option String → String
value_or_empty none = ""
value_or_empty (some s) = s

-- for var in _XDG_VARS: os.environ[var] = os.path.join(root, …)
unfoldable pub redirect : String → List (String × String) → Environ → Environ
redirect root [] env = env
redirect root ((var, name) ∷ vars) env =
    redirect root vars (put var (some (join root (join "/" name))) env)

abbrev pub isolated : String → Environ → Environ × Config
isolated root env = (
  redirect root xdg_vars env,
  record { saved = some (map (λ v. (v.0, env v.0)) xdg_vars); root = some root },
)

unfoldable pub pytest_configure : (root : String) → Environ × Config → Environ × Config
unfolding opts_out redirect
pytest_configure root (env, config) =
    if opts_out (value_or_empty (env "HIVESCOPE_NO_XDG_ISOLATION"))
    then (env, config)
    else isolated root env

unfoldable pub restore : List (String × Option String) → Environ → Environ
restore [] env = env
restore ((var, value) ∷ saved) env = restore saved (put var value env)

abbrev pub put_back : Option (List (String × Option String)) → Environ → Environ
put_back none env = env
put_back (some saved) env = restore saved env

-- if root: rmtree(root), and it is forgotten
abbrev pub removed : Option String → Option String
removed none = none
removed (some root) = if root == "" then some root else none

unfoldable pub pytest_unconfigure : Environ × Config → Environ × Config
unfolding restore
pytest_unconfigure (env, config) =
    (put_back config.saved env, record { saved = none; root = removed config.root })
