-- ===== src/Dict.antt =====
-- Python's `dict` with text keys, as its items in insertion order: an assignment to a key that is
-- there keeps the key's place, and a new key goes to the end.
pub mod Laws
use hivescope.Prelude.{
  String, Bool, true, false, Option, none, some, List, [], ◌∷◌, ◌==◌, if◌then◌else◌, map,
}

abbrev pub Dict {ℓ} : Type ℓ → Type ℓ
Dict V = List (String × V)

module _ {ℓ} {V : Type ℓ} where
  -- d.get(k)
  unfoldable pub lookup : String → Dict V → Option V
  lookup k [] = none
  lookup k ((j, v) ∷ d) = let rest = lookup k d in if j == k then some v else rest

  -- d[k] = v
  unfoldable pub set_item : String → V → Dict V → Dict V
  set_item k v [] = (k, v) ∷ []
  set_item k v ((j, w) ∷ d) =
      let rest = set_item k v d in if j == k then (j, v) ∷ d else (j, w) ∷ rest

  -- d.pop(k, None), del d[k]
  unfoldable pub pop : String → Dict V → Dict V
  pop k [] = []
  pop k ((j, w) ∷ d) = let rest = pop k d in if j == k then d else (j, w) ∷ rest

  -- k in d
  unfoldable pub has_key : String → Dict V → Bool
  has_key k [] = false
  has_key k ((j, w) ∷ d) = let rest = has_key k d in if j == k then true else rest

  abbrev pub keys : Dict V → List String
  keys = map (λ e. e.0)

  abbrev pub values : Dict V → List V
  values = map (λ e. e.1)
