-- ===== src/Agent/Bus/Nesting.antt =====
-- Protocols of hivescope/plugins/agent.py that share a bus and are shut down in the reverse order.
use hivescope.Prelude.{
  ℕ, ◌≡◌, refl, sym, ◌∙◌, subst, true, false, Option, none, some, List, [], ◌∷◌, ◌++◌, All, arith,
  nat_eq, nat_eq_iff,
}
use hivescope.Agent.Bus.{
  Emit, recording, Bus, put, post_init, shutdown, is_wrapper, Emission, emit_on, Life, makes, shuts,
  emits, live, run,
}

-- Lives in which each protocol is shut down before those that were made before it.
pub data Nested : Type 0 where
  over : Nested
  then_emits : Emission → Nested → Nested
  within : ℕ → (inner rest : Nested) → Nested

unfoldable pub lives : Nested → List Life
lives over = []
lives (then_emits m n) = emits m ∷ lives n
lives (within i inner rest) = makes i ∷ (lives inner ++ shuts i ∷ lives rest)

-- No protocol is made twice at a time.
unfoldable pub Apart : Nested → List ℕ → Type 0
Apart over made = Unit
Apart (then_emits m n) made = Apart n made
Apart (within i inner rest) made =
    All (λ j. nat_eq i j ≡ false) made × Apart inner (i ∷ made) × Apart rest made

run-append : (xs ys : List Life) (b : Bus) → run (xs ++ ys) b ≡ run ys (run xs b)
unfolding run
run-append [] ys b = refl
run-append (x ∷ xs) ys b = run-append xs ys (live x b)

-- The closures of the protocols that are made already are kept.
abbrev Same : List ℕ → Bus → Bus → Type 0
Same made b c = (c.emit ≡ b.emit) × All (λ j. c.orig_emit j ≡ b.orig_emit j) made

All-trans :
    (f g h : ℕ → Option Emit) (js : List ℕ)
    → All (λ j. g j ≡ f j) js
    → All (λ j. h j ≡ g j) js
    → All (λ j. h j ≡ f j) js
All-trans f g h [] p q = tt
All-trans f g h (j ∷ js) p q = (q.0 ∙ p.0, All-trans f g h js p.1 q.1)

-- Writing at one number keeps what stands at the others.
put-others :
    (i : ℕ) (o : Option Emit) (f : ℕ → Option Emit) (js : List ℕ)
    → All (λ j. nat_eq i j ≡ false) js
    → All (λ j. put i o f j ≡ f j) js
put-others i o f [] h = tt
put-others i o f (j ∷ js) h = (rw h.0 refl, put-others i o f js h.1)

pub nat_eq_refl : (i : ℕ) → nat_eq i i ≡ true
nat_eq_refl i = ground (arith, nat_eq_iff i i)

put-here : (i : ℕ) (o : Option Emit) (f : ℕ → Option Emit) → put i o f i ≡ o
put-here i o f = rw (nat_eq_refl i) refl

-- The outermost wrapper comes off, if its protocol kept what it wraps.
pub shutdown-emit :
    (i : ℕ) (e : Emit) (b : Bus)
    → b.emit ≡ recording i e
    → b.orig_emit i ≡ some e
    → (shutdown i b).emit ≡ e
unfolding shutdown is_wrapper
shutdown-emit i e b top kept = rw (top, kept, nat_eq_refl i) refl

run-Same : (n : Nested) (made : List ℕ) (b : Bus) → Apart n made → Same made b (run (lives n) b)
unfolding run lives live Apart emit_on
run-Same over made b h = (refl, unchanged made)
  where
    unchanged : (js : List ℕ) → All (λ j. b.orig_emit j ≡ b.orig_emit j) js
    unchanged [] = tt
    unchanged (j ∷ js) = (refl, unchanged js)
run-Same (then_emits m n) made b h = run-Same n made (emit_on m b) h
run-Same (within i inner rest) made b (apart, h, k) =
    let b1 = post_init i b in
    let b2 = run (lives inner) b1 in
    let b3 = shutdown i b2 in
    let kept : Same (i ∷ made) b1 b2 = run-Same inner (i ∷ made) b1 h in
    let kept_i : b2.orig_emit i ≡ some b.emit = kept.1.0 ∙ put-here i (some b.emit) b.orig_emit in
    let others : All (λ j. b3.orig_emit j ≡ b.orig_emit j) made =
      All-trans b.orig_emit b1.orig_emit b3.orig_emit made
        (put-others i (some b.emit) b.orig_emit made apart)
        (All-trans b1.orig_emit b2.orig_emit b3.orig_emit made kept.1.1
          (put-others i none b2.orig_emit made apart)) in
    let top : b3.emit ≡ b.emit = shutdown-emit i b.emit b2 kept.0 kept_i in
    let (last, at_last) = run-Same rest made b3 k in
    subst (Same made b) (sym (run-append (lives inner) (shuts i ∷ lives rest) b1)) (
      last ∙ top,
      All-trans b.orig_emit b3.orig_emit (run (lives rest) b3).orig_emit made others at_last,
    )

-- Protocols on one bus that are shut down in the reverse order of their making, with emissions anywhere
-- between, leave the bus with the `emit` that it had.
pub nested_restores : (n : Nested) (b : Bus) → Apart n [] → (run (lives n) b).emit ≡ b.emit
nested_restores n b h = (run-Same n [] b h).0
