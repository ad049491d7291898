-- ===== src/Plot/Members.antt =====
-- Membership of names in the sets of hivescope/topology_plot.py.
use hivescope.Prelude.{
  ◌≡◌, inl, inr, refl, ◌∙◌, String, Bool, true, false, ◌||◌, List, [], ◌∷◌, ◌++◌, ◌==◌, All, any,
  any-append, eq_iff, eq_refl, Bool-cases,
}
use hivescope.Dict.{Dict, lookup, keys}
use hivescope.Topology.{Entry, Satellite, Master}
use hivescope.Topology.Wiring.{HasEnds, Listed}
use hivescope.Plot.{member, insert}

pub or_keeps : (a b : Bool) → a ≡ true → (a || b) ≡ true
or_keeps a b h = cc

pub or_right : (a b : Bool) → b ≡ true → (a || b) ≡ true
or_right true b h = refl
or_right false b h = h

pub insert-here : (x : String) (xs : List String) → member x (insert x xs) ≡ true
unfolding insert member any
insert-here x xs = elim (Bool-cases (member x xs)) [
  | inl e ↦ rw e e
  | inr e ↦ rw e (
      any-append (λ y. x == y) xs (x ∷ [])
      ∙ or_right (any (λ y. x == y) xs) (any (λ y. x == y) (x ∷ [])) (rw (eq_refl x) refl))
]

pub insert-keeps :
    (x y : String) (xs : List String) → member x xs ≡ true → member x (insert y xs) ≡ true
unfolding insert member any
insert-keeps x y xs h = elim (Bool-cases (member y xs)) [
  | inl e ↦ rw e h
  | inr e ↦ rw e (any-append (λ z. x == z) xs (y ∷ []) ∙ or_keeps _ _ h)
]

pub member-left :
    (x : String) (xs ys : List String) → member x xs ≡ true → member x (xs ++ ys) ≡ true
unfolding member
member-left x xs ys h = any-append (λ y. x == y) xs ys ∙ or_keeps _ _ h

pub member-right :
    (x : String) (xs ys : List String) → member x ys ≡ true → member x (xs ++ ys) ≡ true
unfolding member
member-right x xs ys h = any-append (λ y. x == y) xs ys ∙ or_right (any (λ y. x == y) xs) _ h

-- A registered name is a key.
pub member-keys : {V : Type 0} (k : String) (d : Dict V) → Listed k d → member k (keys d) ≡ true
unfolding lookup member any
member-keys k [] (v, e) = absurd (cc)
member-keys k ((j, w) ∷ d) (v, e) = elim (Bool-cases (j == k)) [
  | inl q ↦ let same : j ≡ k = (eq_iff j k).0 q in rw (same, eq_refl k) refl
  | inr q ↦ or_right (k == j) _ (member-keys k d (v, rw q at e))
]

pub ends_are_keys :
    (sats : Dict Satellite) (masters : Dict Master) (cs : List Entry)
    → All (HasEnds sats masters) cs
    → All
        (λ c.
          (member c.satellite_name (keys sats) ≡ true)
          × (member c.master_name (keys masters) ≡ true))
        cs
ends_are_keys sats masters [] h = tt
ends_are_keys sats masters (c ∷ cs) h = (
  (member-keys c.satellite_name sats h.0.0, member-keys c.master_name masters h.0.1),
  ends_are_keys sats masters cs h.1,
)
