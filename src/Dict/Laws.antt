-- ===== src/Dict/Laws.antt =====
-- The laws of `Dict`, for dicts in which each key stands once.
use hivescope.Prelude.{
  String, false, none, some, [], ◌∷◌, ◌==◌, if◌then◌else◌, ◌≡◌, refl, arith, eq_iff, Bool-cases,
  inl, inr,
}
use hivescope.Dict.{Dict, lookup, set_item, pop, has_key}

module _ {ℓ} {V : Type ℓ} where
  abbrev pub Absent : String → Dict V → Type 0
  Absent k [] = Unit
  Absent k ((j, v) ∷ d) = ((j == k) ≡ false) × Absent k d

  -- Each key stands once.
  abbrev pub Distinct : Dict V → Type 0
  Distinct [] = Unit
  Distinct ((j, v) ∷ d) = Absent j d × Distinct d

  pub lookup-Absent : (k : String) (d : Dict V) → Absent k d → lookup k d ≡ none
  unfolding lookup
  lookup-Absent k [] h = refl
  lookup-Absent k ((j, v) ∷ d) h = rw (h.0, lookup) (lookup-Absent k d h.1)

  pub Absent-lookup : (k : String) (d : Dict V) → lookup k d ≡ none → Absent k d
  unfolding lookup
  Absent-lookup k [] h = tt
  Absent-lookup k ((j, v) ∷ d) h = elim (Bool-cases (j == k)) [
    | inl e ↦ absurd (ground arith)
    | inr e ↦ (e, Absent-lookup k d (ground arith))
  ]

  pub lookup-set_item :
      (k j : String) (v : V) (d : Dict V)
      → lookup j (set_item k v d) ≡ (if k == j then some v else lookup j d)
  unfolding lookup set_item
  lookup-set_item k j v [] = refl
  lookup-set_item k j v ((i, w) ∷ d) =
      ground (arith, eq_iff k j, eq_iff i k, eq_iff i j, lookup-set_item k j v d)

  pub lookup-pop :
      (k j : String) (d : Dict V)
      → Distinct d
      → lookup j (pop k d) ≡ (if k == j then none else lookup j d)
  unfolding lookup pop
  lookup-pop k j [] h = ground arith
  lookup-pop k j ((i, w) ∷ d) h =
      ground
        (arith, eq_iff k j, eq_iff i k, eq_iff i j, lookup-pop k j d h.1, lookup-Absent i d h.0)

  pub has_key-lookup : (k : String) (d : Dict V) → has_key k d ≡ false → lookup k d ≡ none
  unfolding lookup has_key
  has_key-lookup k [] h = refl
  has_key-lookup k ((j, v) ∷ d) h = ground (arith, has_key-lookup k d)

  Absent-set_item :
      (i k : String) (v : V) (d : Dict V)
      → (k == i) ≡ false
      → Absent i d
      → Absent i (set_item k v d)
  unfolding set_item
  Absent-set_item i k v [] e h = (e, tt)
  Absent-set_item i k v ((j, w) ∷ d) e h = elim (Bool-cases (j == k)) [
    | inl q ↦ rw (q, set_item) h
    | inr q ↦ rw (q, set_item) (h.0, Absent-set_item i k v d e h.1)
  ]

  pub set_item-Distinct : (k : String) (v : V) (d : Dict V) → Distinct d → Distinct (set_item k v d)
  unfolding set_item
  set_item-Distinct k v [] h = (tt, tt)
  set_item-Distinct k v ((j, w) ∷ d) h = elim (Bool-cases (j == k)) [
    | inl q ↦ rw (q, set_item) h
    | inr q ↦
        rw (q, set_item)
          (
            Absent-set_item j k v d (ground (arith, eq_iff j k, eq_iff k j)) h.0,
            set_item-Distinct k v d h.1,
          )
  ]

  Absent-pop : (i k : String) (d : Dict V) → Absent i d → Absent i (pop k d)
  unfolding pop
  Absent-pop i k [] h = tt
  Absent-pop i k ((j, w) ∷ d) h = elim (Bool-cases (j == k)) [
    | inl q ↦ rw (q, pop) h.1
    | inr q ↦ rw (q, pop) (h.0, Absent-pop i k d h.1)
  ]

  pub pop-Distinct : (k : String) (d : Dict V) → Distinct d → Distinct (pop k d)
  unfolding pop
  pop-Distinct k [] h = tt
  pop-Distinct k ((j, w) ∷ d) h = elim (Bool-cases (j == k)) [
    | inl q ↦ rw (q, pop) h.1
    | inr q ↦ rw (q, pop) (Absent-pop j k d h.0, pop-Distinct k d h.1)
  ]

-- A property of every item.
module _ {ℓ κ} {V : Type ℓ} (P : String → V → Type κ) where
  abbrev pub Items : Dict V → Type κ
  Items [] = Unit
  Items ((j, v) ∷ d) = P j v × Items d

  pub Items-set_item : (k : String) (v : V) (d : Dict V) → P k v → Items d → Items (set_item k v d)
  unfolding set_item
  Items-set_item k v [] p h = (p, tt)
  Items-set_item k v ((j, w) ∷ d) p h = elim (Bool-cases (j == k)) [
    | inl q ↦ rw (q, set_item) (rw ((eq_iff j k).0 q) p, h.1)
    | inr q ↦ rw (q, set_item) (h.0, Items-set_item k v d p h.1)
  ]

  pub Items-pop : (k : String) (d : Dict V) → Items d → Items (pop k d)
  unfolding pop
  Items-pop k [] h = tt
  Items-pop k ((j, w) ∷ d) h = elim (Bool-cases (j == k)) [
    | inl q ↦ rw (q, pop) h.1
    | inr q ↦ rw (q, pop) (h.0, Items-pop k d h.1)
  ]

  pub Items-lookup : (k : String) (v : V) (d : Dict V) → Items d → lookup k d ≡ some v → P k v
  unfolding lookup
  Items-lookup k v [] h e = absurd (cc)
  Items-lookup k v ((j, w) ∷ d) h e = elim (Bool-cases (j == k)) [
    | inl q ↦ let x : w ≡ v = ground arith in rw (← x) (rw (← (eq_iff j k).0 q) h.0)
    | inr q ↦ Items-lookup k v d h.1 (ground arith)
  ]
