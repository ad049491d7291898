-- ===== src/Prelude/Lists.antt =====
-- Lists measured by native numbers and filtered by Boolean tests, as the comprehensions of the
-- source do.
use Prim.Native.Nat.{ℕ, zero, suc, ◌+◌}
use mathlib.Core.Path.{◌≡◌, refl}
use mathlib.Core.Logic.{inl, inr}
use mathlib.Core.Bool.{Bool, true, false, ◌&&◌, ◌||◌}
use mathlib.Core.List.{List, [], ◌∷◌, ◌++◌}
use mathlib.Core.Option.{Option, none, some}
use native.Mathlib.Omega.{arith}
use hivescope.Prelude.Tests.{if◌then◌else◌, Bool-cases}

module _ {ℓ} {A : Type ℓ} where
  abbrev pub length : List A → ℕ
  length [] = 0
  length (x ∷ xs) = suc (length xs)

  abbrev pub take : ℕ → List A → List A
  take zero xs = []
  take (suc n) [] = []
  take (suc n) (x ∷ xs) = x ∷ take n xs

  abbrev pub drop : ℕ → List A → List A
  drop zero xs = xs
  drop (suc n) [] = []
  drop (suc n) (x ∷ xs) = drop n xs

  -- [x for x in xs if p(x)]
  unfoldable pub filter : (A → Bool) → List A → List A
  filter p [] = []
  filter p (x ∷ xs) = let rest = filter p xs in if p x then x ∷ rest else rest

  -- results[-1] if results else None
  unfoldable pub last? : List A → Option A
  last? [] = none
  last? (x ∷ xs) = elim (last? xs) [ none ↦ some x | some y ↦ some y ]

  -- next((x for x in xs if p(x)), None)
  unfoldable pub find? : (A → Bool) → List A → Option A
  find? p [] = none
  find? p (x ∷ xs) = let rest = find? p xs in if p x then some x else rest

  -- any(p(x) for x in xs)
  unfoldable pub any : (A → Bool) → List A → Bool
  any p [] = false
  any p (x ∷ xs) = p x || any p xs

  unfoldable pub all : (A → Bool) → List A → Bool
  all p [] = true
  all p (x ∷ xs) = p x && all p xs

  abbrev pub is_empty : List A → Bool
  is_empty [] = true
  is_empty (x ∷ xs) = false

  abbrev pub All {κ} : (A → Type κ) → List A → Type κ
  All P [] = Unit
  All P (x ∷ xs) = P x × All P xs

  pub length-append : (xs ys : List A) → length (xs ++ ys) ≡ length xs + length ys
  length-append [] ys = omega arith
  length-append (x ∷ xs) ys = omega (arith, length-append xs ys)

  pub filter-append :
      (p : A → Bool) (xs ys : List A) → filter p (xs ++ ys) ≡ filter p xs ++ filter p ys
  unfolding filter
  filter-append p [] ys = refl
  filter-append p (x ∷ xs) ys = ground (arith, filter-append p xs ys)

  pub last?-snoc : (xs : List A) (x : A) → last? (xs ++ x ∷ []) ≡ some x
  unfolding last?
  last?-snoc [] x = refl
  last?-snoc (y ∷ xs) x = ground (arith, last?-snoc xs x)

  pub last?_cons_some : (x : A) (xs : List A) → (y : A) × (last? (x ∷ xs) ≡ some y)
  unfolding last?
  last?_cons_some x [] = (x, refl)
  last?_cons_some x (z ∷ xs) = let (y, e) = last?_cons_some z xs in (y, ground arith)

  pub any-append : (p : A → Bool) (xs ys : List A) → any p (xs ++ ys) ≡ (any p xs || any p ys)
  unfolding any
  any-append p [] ys = refl
  any-append p (x ∷ xs) ys = ground (arith, any-append p xs ys)

  pub All-append {κ} : (P : A → Type κ) (xs ys : List A) → All P xs → All P ys → All P (xs ++ ys)
  All-append P [] ys hx hy = hy
  All-append P (x ∷ xs) ys hx hy = (hx.0, All-append P xs ys hx.1 hy)

  -- What a filter keeps passes its test.
  pub All-filter : (p : A → Bool) (xs : List A) → All (λ x. p x ≡ true) (filter p xs)
  unfolding filter
  All-filter p [] = tt
  All-filter p (x ∷ xs) = elim (Bool-cases (p x)) [
    | inl e ↦ rw (e, filter) (e, All-filter p xs)
    | inr e ↦ rw (e, filter) (All-filter p xs)
  ]

  pub last?_All {κ} : (P : A → Type κ) (xs : List A) (y : A) → All P xs → last? xs ≡ some y → P y
  unfolding last?
  last?_All P [] y h e = absurd (cc)
  last?_All P (x ∷ []) y h e = let q : x ≡ y = cc in rw (← q) h.0
  last?_All P (x ∷ z ∷ xs) y h e =
      let (w, q) = last?_cons_some z xs in last?_All P (z ∷ xs) y h.1 (ground arith)
