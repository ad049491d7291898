-- ===== src/Loopback/Clients/Lists.antt =====
-- Membership and removal in the registries of the connection handler.
use hivescope.Prelude.{
  ℕ, ◌<◌, ◌≤◌, ◌≡◌, refl, Bool, true, false, List, [], ◌∷◌, ◌++◌, All, any, filter, nat_eq, arith,
  Bool-cases, inl, inr,
}
use hivescope.Loopback.Clients.{member, remove}

pub All-remove {κ} : (P : ℕ → Type κ) (i : ℕ) (xs : List ℕ) → All P xs → All P (remove i xs)
unfolding remove
All-remove P i [] h = tt
All-remove P i (x ∷ xs) h = elim (Bool-cases (nat_eq i x)) [
  | inl e ↦ rw e h.1
  | inr e ↦ rw e (h.0, All-remove P i xs h.1)
]

pub All-mono : (m n : ℕ) (xs : List ℕ) → m ≤ n → All (λ i. i < m) xs → All (λ i. i < n) xs
All-mono m n [] le h = tt
All-mono m n (x ∷ xs) le h = (omega (arith, h.0), All-mono m n xs le h.1)

-- A number above all is no member.
pub member-fresh : (n : ℕ) (xs : List ℕ) → All (λ i. i < n) xs → member n xs ≡ false
unfolding member any
member-fresh n [] h = refl
member-fresh n (x ∷ xs) h = ground (arith, member-fresh n xs h.1, h.0)

pub member-snoc : (n : ℕ) (xs : List ℕ) → member n (xs ++ n ∷ []) ≡ true
unfolding member any
member-snoc n [] = ground arith
member-snoc n (x ∷ xs) = ground (arith, member-snoc n xs)

pub filter_all {ℓ} :
    {A : Type ℓ} (p : A → Bool) (xs : List A) → All (λ x. p x ≡ true) xs → filter p xs ≡ xs
unfolding filter
filter_all p [] h = refl
filter_all p (x ∷ xs) h = rw (h.0, filter_all p xs h.1) refl

pub filter_none {ℓ} :
    {A : Type ℓ} (p : A → Bool) (xs : List A) → All (λ x. p x ≡ false) xs → filter p xs ≡ []
unfolding filter
filter_none p [] h = refl
filter_none p (x ∷ xs) h = rw (h.0, filter_none p xs h.1) refl

member-cons :
    (x : ℕ) (xs ys : List ℕ)
    → All (λ i. member i xs ≡ true) ys
    → All (λ i. member i (x ∷ xs) ≡ true) ys
unfolding member any
member-cons x xs [] h = tt
member-cons x xs (y ∷ ys) h = (ground arith, member-cons x xs ys h.1)

pub member_self : (xs : List ℕ) → All (λ i. member i xs ≡ true) xs
unfolding member any
member_self [] = tt
member_self (x ∷ xs) = (ground arith, member-cons x xs xs (member_self xs))
