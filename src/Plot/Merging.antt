-- ===== src/Plot/Merging.antt =====
-- How hivescope/topology_plot.py merges the two halves of a relay.
use Prim.Native.String.{◌++◌ as join, [] as nil_text, ◌∷◌ as cons_text, count}
use text.Mathlib.TextLemmas.{
  cons-append, append_cancel_right, cons-ne-nil, length-append, length-cons,
}
use hivescope.Prelude.{
  ◌≡◌, ◌≢◌, refl, ap, ◌∙◌, String, true, false, Option, none, some, List, ◌==◌, arith, eq_iff,
  Bool-cases, inl, inr,
}
use hivescope.Plot.{strip_suffix, member, relay_bases, canonical, role}

differ : (a b : String) → a ≢ b → (a == b) ≡ false
differ a b h = elim (Bool-cases (a == b)) [ inl e ↦ absurd (h ((eq_iff a b).0 e)) | inr e ↦ e ]

cons-strip :
    (suffix s : String) (c : _)
    → (cons_text c s == suffix) ≡ false
    → (o : Option String) → strip_suffix suffix s ≡ o
    → strip_suffix suffix (cons_text c s) ≡ elim o [ none ↦ none | some b ↦ some (cons_text c b) ]
unfolding strip_suffix
cons-strip suffix s c e o h = rw (e, h) refl

strip_sat : (base : String) → strip_suffix "_sat" (join base "_sat") ≡ some base
unfolding strip_suffix
strip_sat nil_text = refl
strip_sat (cons_text c s) =
    ap (strip_suffix "_sat") (cons-append c s "_sat")
    ∙ cons-strip "_sat" (join s "_sat") c
        (differ (cons_text c (join s "_sat")) "_sat" (λ e.
          cons-ne-nil c s
            (append_cancel_right (cons_text c s) "" "_sat" (cons-append c s "_sat" ∙ e))))
        (some s) (strip_sat s)

strip_master : (base : String) → strip_suffix "_master" (join base "_master") ≡ some base
unfolding strip_suffix
strip_master nil_text = refl
strip_master (cons_text c s) =
    ap (strip_suffix "_master") (cons-append c s "_master")
    ∙ cons-strip "_master" (join s "_master") c
        (differ (cons_text c (join s "_master")) "_master" (λ e.
          cons-ne-nil c s
            (append_cancel_right (cons_text c s) "" "_master" (cons-append c s "_master" ∙ e))))
        (some s) (strip_master s)

-- A text with the one suffix has not the other.
strip_sat-master : (base : String) → strip_suffix "_sat" (join base "_master") ≡ none
unfolding strip_suffix
strip_sat-master nil_text = refl
strip_sat-master (cons_text c s) =
    ap (strip_suffix "_sat") (cons-append c s "_master")
    ∙ cons-strip "_sat" (join s "_master") c
        (differ (cons_text c (join s "_master")) "_sat" (λ e.
          absurd (
            omega
              (arith, ap count e, length-cons c (join s "_master"), length-append s "_master"))))
        none (strip_sat-master s)

-- The two halves of a relay that is registered with both are one node, under the relay's name and drawn as a
-- relay; and a node that has the relay's own name, if that ends in neither suffix, is that node too.
pub canonical-halves :
    (masters sats registry : List String) (base : String)
    → member base (relay_bases masters sats registry) ≡ true
    → strip_suffix "_sat" base ≡ none
    → strip_suffix "_master" base ≡ none
    → (canonical masters sats registry (join base "_sat") ≡ base)
      × (canonical masters sats registry (join base "_master") ≡ base)
      × (canonical masters sats registry base ≡ base)
      × (role masters sats registry base ≡ "relay_sat")
unfolding canonical role
canonical-halves masters sats registry base h no_sat no_master = (
  rw (canonical, strip_sat base, h) refl,
  rw (canonical, strip_sat-master base, strip_master base, h) refl,
  rw (canonical, no_sat, no_master) refl,
  rw (role, h) refl,
)
