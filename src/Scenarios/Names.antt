-- ===== src/Scenarios/Names.antt =====
-- The names that hivescope/scenarios.py makes from numbers are different.
use Prim.Native.Char.{char, code}
use Prim.Native.String.{◌++◌ as join, ◌∷◌ as cons_text}
use text.Mathlib.TextLemmas.{
  cons-append, append_cancel_left, append_cancel_right, head-eq_of_cons-eq,
}
use hivescope.Prelude.{
  ℕ, zero, suc, ◌<◌, ◌≡◌, ◌≢◌, sym, ap, ◌∙◌, String, false, List, [], ◌∷◌, ◌++◌, ◌==◌, All, map,
  arith, eq_iff, Bool-cases, inl, inr,
}
use hivescope.Value.{end}
use hivescope.Decimal.{decimal, decimal_inj}
use hivescope.Topology.{Entry}
use hivescope.Topology.Starting.{Different}
use hivescope.Scenarios.{range, S, R}

-- The connection of a satellite that was added without keywords.
abbrev pub entry : String → String → Entry
entry sat up = record { satellite_name = sat; master_name = up; connect_kwargs = end }

abbrev pub R_sat : ℕ → String
R_sat level = join (R level) "_sat"

abbrev pub R_master : ℕ → String
R_master level = join (R level) "_master"

-- Each relay connects to the listener of the one before.
unfoldable pub chain : String → List ℕ → List Entry
chain up [] = []
chain up (level ∷ levels) = entry (R_sat level) up ∷ chain (R_master level) levels

-- The listener that the chain ends in.
unfoldable pub last_hub : String → List ℕ → String
last_hub up [] = up
last_hub up (level ∷ levels) = last_hub (R_master level) levels

abbrev pub leaves : String → List ℕ → List Entry
leaves up = map (λ i. entry (S i) up)

pub differ : (a b : String) → a ≢ b → (a == b) ≡ false
differ a b h = elim (Bool-cases (a == b)) [ inl e ↦ absurd (h ((eq_iff a b).0 e)) | inr e ↦ e ]

S_inj : (i j : ℕ) → S i ≡ S j → i ≡ j
S_inj i j e = decimal_inj i j (append_cancel_left "S" (decimal i) (decimal j) e)

R_sat_inj : (i j : ℕ) → R_sat i ≡ R_sat j → i ≡ j
R_sat_inj i j e =
    decimal_inj i j
      (append_cancel_left "R" (decimal i) (decimal j) (append_cancel_right (R i) (R j) "_sat" e))

R_sat-S : (i j : ℕ) → R_sat i ≢ S j
R_sat-S i j e =
    let split : cons_text (char 82 tt) (join (join "" (decimal i)) "_sat")
        ≡ cons_text (char 83 tt) (join "" (decimal j)) =
      sym (cons-append (char 82 tt) (join "" (decimal i)) "_sat")
      ∙ ap (λ s. join s "_sat") (sym (cons-append (char 82 tt) "" (decimal i)))
      ∙ e
      ∙ cons-append (char 83 tt) "" (decimal j) in
    absurd (omega (arith, ap code (head-eq_of_cons-eq split)))

leaves-fresh :
    (up : String) (i first count : ℕ)
    → i < first
    → All (λ d. (S i == d.satellite_name) ≡ false) (leaves up (range first count))
leaves-fresh up i first zero h = tt
leaves-fresh up i first (suc count) h = (
  differ (S i) (S first) (λ e. absurd (omega (arith, S_inj i first e))),
  leaves-fresh up i (suc first) count (omega arith),
)

leaves-Different : (up : String) (first count : ℕ) → Different (leaves up (range first count))
leaves-Different up first zero = tt
leaves-Different up first (suc count) =
    (leaves-fresh up first (suc first) count (omega arith), leaves-Different up (suc first) count)

leaves-other :
    (up : String) (level : ℕ) (is : List ℕ)
    → All (λ d. (R_sat level == d.satellite_name) ≡ false) (leaves up is)
leaves-other up level [] = tt
leaves-other up level (i ∷ is) =
    (differ (R_sat level) (S i) (R_sat-S level i), leaves-other up level is)

hubs-fresh :
    (up hub : String) (i first count : ℕ) (is : List ℕ)
    → i < first
    → All
        (λ d. (R_sat i == d.satellite_name) ≡ false)
        (chain up (range first count) ++ leaves hub is)
unfolding chain
hubs-fresh up hub i first zero is h = leaves-other hub i is
hubs-fresh up hub i first (suc count) is h = (
  differ (R_sat i) (R_sat first) (λ e. absurd (omega (arith, R_sat_inj i first e))),
  hubs-fresh (R_master first) hub i (suc first) count is (omega arith),
)

pub hubs-Different :
    (up hub : String) (first count k : ℕ)
    → Different (chain up (range first count) ++ leaves hub (range 0 k))
unfolding chain
hubs-Different up hub first zero k = leaves-Different hub 0 k
hubs-Different up hub first (suc count) k = (
  hubs-fresh (R_master first) hub first (suc first) count (range 0 k) (omega arith),
  hubs-Different (R_master first) hub (suc first) count k,
)
