-- ===== src/Assertions/Bridge/Fifo.antt =====
-- What `assert_fifo_order` proves of the sequence markers.
use hivescope.Prelude.{
  ℕ, ◌≡◌, ◌↔◌, refl, String, Bool, true, false, not, ◌&&◌, List, [], ◌∷◌, map, all, All, length,
  leb, arith, and_split, and_join,
}
use hivescope.Prelude.Int.{ℤ, pos, negsuc, leb_ℤ}
use hivescope.Outcome.{ok, assertion_error, require}
use hivescope.Value.{int, is_null}
use hivescope.Recorder.{RecordedMessage}
use hivescope.Assertions.{MasterNode, SatelliteNode}
use hivescope.Assertions.Bridge.{last_n, seqs_of, in_order, fifo_records, assert_fifo_order}

-- m < n
abbrev pub lt_ℤ : ℤ → ℤ → Bool
lt_ℤ m n = not (leb_ℤ n m)

lt_ℤ_trans : (a b c : ℤ) → lt_ℤ a b ≡ true → lt_ℤ b c ≡ true → lt_ℤ a c ≡ true
lt_ℤ_trans (pos a) (pos b) (pos c) h k = ground arith
lt_ℤ_trans (pos a) (pos b) (negsuc c) h k = ground arith
lt_ℤ_trans (pos a) (negsuc b) (pos c) h k = ground arith
lt_ℤ_trans (pos a) (negsuc b) (negsuc c) h k = ground arith
lt_ℤ_trans (negsuc a) (pos b) (pos c) h k = ground arith
lt_ℤ_trans (negsuc a) (pos b) (negsuc c) h k = ground arith
lt_ℤ_trans (negsuc a) (negsuc b) (pos c) h k = ground arith
lt_ℤ_trans (negsuc a) (negsuc b) (negsuc c) h k = ground arith

-- Every marker is below each one that comes later.
abbrev pub Increasing : List ℤ → Type 0
Increasing [] = Unit
Increasing (n ∷ ns) = All (λ m. lt_ℤ n m ≡ true) ns × Increasing ns

adjacent : List ℤ → Bool
adjacent [] = true
adjacent (n ∷ []) = true
adjacent (n ∷ m ∷ ns) = lt_ℤ n m && adjacent (m ∷ ns)

in_order-adjacent : (ns : List ℤ) → in_order (map int ns) ≡ ok (adjacent ns)
unfolding in_order adjacent
in_order-adjacent [] = refl
in_order-adjacent (n ∷ []) = refl
in_order-adjacent (n ∷ m ∷ ns) = rw (in_order-adjacent (m ∷ ns)) refl

all_marked : (ns : List ℤ) → all (λ s. not (is_null s)) (map int ns) ≡ true
unfolding all
all_marked [] = refl
all_marked (n ∷ ns) = all_marked ns

above-All :
    (k n : ℤ) (ns : List ℤ)
    → lt_ℤ k n ≡ true
    → All (λ m. lt_ℤ n m ≡ true) ns
    → All (λ m. lt_ℤ k m ≡ true) ns
above-All k n [] h a = tt
above-All k n (m ∷ ns) h a = (lt_ℤ_trans k n m h a.0, above-All k n ns h a.1)

adjacent-Increasing : (ns : List ℤ) → adjacent ns ≡ true → Increasing ns
unfolding adjacent
adjacent-Increasing [] h = tt
adjacent-Increasing (n ∷ []) h = (tt, tt)
adjacent-Increasing (n ∷ m ∷ ns) h =
    let (first, others) = and_split (lt_ℤ n m) (adjacent (m ∷ ns)) h in
    let later = adjacent-Increasing (m ∷ ns) others in
    ((first, above-All n m ns first later.0), later)

Increasing-adjacent : (ns : List ℤ) → Increasing ns → adjacent ns ≡ true
unfolding adjacent
Increasing-adjacent [] h = refl
Increasing-adjacent (n ∷ []) h = refl
Increasing-adjacent (n ∷ m ∷ ns) h =
    and_join (lt_ℤ n m) (adjacent (m ∷ ns)) h.0.0 (Increasing-adjacent (m ∷ ns) h.1)

require_iff : (b : Bool) → (require b assertion_error ≡ ok tt) ↔ (b ≡ true)
require_iff true = (λ e. refl, λ e. refl)
require_iff false = (λ e. cc, λ e. cc)

module _ (master : MasterNode) (satellite : SatelliteNode) (msg_type : String) (count : ℕ)
    (ns : List ℤ) where
  abbrev window : List RecordedMessage
  window = last_n count (fifo_records master satellite msg_type)

  fifo_verdict :
      leb count (length window) ≡ true
      → seqs_of window ≡ ok (map int ns)
      → assert_fifo_order master satellite msg_type count ≡ require (adjacent ns) assertion_error
  unfolding assert_fifo_order
  fifo_verdict enough marked = rw (enough, marked, all_marked ns, in_order-adjacent ns) refl

  -- Where enough records are there and all that are looked at carry integer markers, the check passes
  -- exactly when each marker is below every later one.
  pub assert_fifo_order_iff :
      leb count (length window) ≡ true
      → seqs_of window ≡ ok (map int ns)
      → (assert_fifo_order master satellite msg_type count ≡ ok tt) ↔ Increasing ns
  assert_fifo_order_iff enough marked = rw (fifo_verdict enough marked) (
    λ e. adjacent-Increasing ns ((require_iff (adjacent ns)).0 e),
    λ h. (require_iff (adjacent ns)).1 (Increasing-adjacent ns h),
  )
