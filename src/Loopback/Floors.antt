-- ===== src/Loopback/Floors.antt =====
-- All loopback instances that can be used have the same protocol floor.
use mathlib.Core.Option.{some-injective}
use hivescope.Prelude.{
  ℕ, ◌≡◌, refl, sym, ◌∙◌, Bool, true, false, not, ◌&&◌, Option, none, some, List, [], ◌∷◌, nat_eq,
  if◌then◌else◌, arith, Bool-cases, inl, inr,
}
use hivescope.Loopback.{
  Protocol, Floors, World, Startup, config_error, failed, stalled, listening, pop, lookup,
  conflicts, put, start, run, stop, step, history, fresh, Call, runs, stops, after_join,
}

-- The instance holds a server thread and is not marked broken.
abbrev pub is_usable : Protocol → Bool
is_usable p = p.has_thread && not p.broken

-- Every usable instance is registered with its floor, and what is registered is the configured floor.
pub record IsAgreed (w : World) : Type 0 where
  pub registered :
      (i : ℕ)
      → is_usable (w.protocols i) ≡ true
      → lookup i w.floors ≡ some (w.protocols i).min_protocol_version
  pub configured : (i f : ℕ) → lookup i w.floors ≡ some f → w.config ≡ some f

lookup-pop :
    (k i : ℕ) (fs : Floors) → lookup i (pop k fs) ≡ (if nat_eq k i then none else lookup i fs)
unfolding lookup pop
lookup-pop k i [] = ground arith
lookup-pop k i ((j, f) ∷ fs) = ground (arith, lookup-pop k i fs)

no_conflict :
    (key floor i f : ℕ) (fs : Floors)
    → conflicts key floor fs ≡ false
    → nat_eq key i ≡ false
    → lookup i fs ≡ some f
    → f ≡ floor
unfolding conflicts lookup
no_conflict key floor i f [] h n e = absurd (cc)
no_conflict key floor i f ((k, g) ∷ fs) h n e = ground (arith, no_conflict key floor i f fs)

-- Taking an instance off the registry, if it is not usable any more.
remove-IsAgreed :
    (i : ℕ) (p : Protocol) (c : Option ℕ) (w : World)
    → is_usable p ≡ false
    → ((j f : ℕ) → nat_eq i j ≡ false → lookup j w.floors ≡ some f → c ≡ some f)
    → IsAgreed w
    → IsAgreed (record { floors = pop i w.floors; config = c; protocols = put i p w.protocols })
remove-IsAgreed i p c w dead agree h = record {
  registered = λ j r. ground (arith, lookup-pop i j w.floors, h.registered j);
  configured = λ j f e. ground (arith, lookup-pop i j w.floors, agree j f);
}

start-IsAgreed :
    (i : ℕ) (s : Startup) (w : World)
    → conflicts i (w.protocols i).min_protocol_version w.floors ≡ false
    → IsAgreed w
    → IsAgreed (start i s w).0
unfolding start lookup
start-IsAgreed i config_error w c h = h
start-IsAgreed i (listening url) w c h = record {
  registered = λ j r. ground (arith, lookup-pop i j w.floors, h.registered j);
  configured = λ j f e. ground (
    arith,
    lookup-pop i j w.floors,
    no_conflict i (w.protocols i).min_protocol_version j f w.floors,
  );
}
start-IsAgreed i failed w c h =
    remove-IsAgreed i _ _ w refl
      (λ j f n e. ground (arith, no_conflict i (w.protocols i).min_protocol_version j f w.floors)) h
start-IsAgreed i stalled w c h =
    remove-IsAgreed i _ _ w refl
      (λ j f n e. ground (arith, no_conflict i (w.protocols i).min_protocol_version j f w.floors)) h

run-IsAgreed : (i : ℕ) (s : Startup) (w : World) → IsAgreed w → IsAgreed (run i s w).0
unfolding run
run-IsAgreed i s w h = elim (Bool-cases (w.protocols i).broken) [
  | inl b ↦ rw (b, run) h
  | inr b ↦ elim (Bool-cases (w.protocols i).has_thread) [
    | inl t ↦ rw (b, t, run) h
    | inr t ↦ elim (Bool-cases (conflicts i (w.protocols i).min_protocol_version w.floors)) [
      | inl c ↦ rw (b, t, c, run) h
      | inr c ↦ rw (b, t, c, run) (start-IsAgreed i s w c h)
    ]
  ]
]

joined_dead :
    (joined : Bool) (p : Protocol) → is_usable (record (after_join joined p) { url = none }) ≡ false
joined_dead joined p = ground arith

stop-IsAgreed : (i : ℕ) (joined : Bool) (w : World) → IsAgreed w → IsAgreed (stop i joined w)
unfolding stop
stop-IsAgreed i joined w h =
    remove-IsAgreed i _ w.config w (joined_dead joined (w.protocols i))
      (λ j f n e. h.configured j f e) h

step-IsAgreed : (c : Call) (w : World) → IsAgreed w → IsAgreed (step c w)
unfolding step
step-IsAgreed (runs i s) w h = run-IsAgreed i s w h
step-IsAgreed (stops i joined) w h = stop-IsAgreed i joined w h

history-IsAgreed : (cs : List Call) (w : World) → IsAgreed w → IsAgreed (history cs w)
unfolding history
history-IsAgreed [] w h = h
history-IsAgreed (c ∷ cs) w h = history-IsAgreed cs (step c w) (step-IsAgreed c w h)

fresh-IsAgreed : (floor : ℕ → ℕ) → IsAgreed (fresh floor)
unfolding fresh lookup
fresh-IsAgreed floor = record { registered = λ i r. absurd (cc); configured = λ i f e. absurd (cc) }

-- After any series of `run` and `stop` calls on any instances, whatever becomes of the starts and the
-- joins, an instance that holds a server thread and is not marked broken has its floor in the server
-- configuration.
pub running_configured :
    (floor : ℕ → ℕ) (cs : List Call) (i : ℕ)
    → is_usable ((history cs (fresh floor)).protocols i) ≡ true
    → (history cs (fresh floor)).config
      ≡ some ((history cs (fresh floor)).protocols i).min_protocol_version
running_configured floor cs i r =
    let h = history-IsAgreed cs (fresh floor) (fresh-IsAgreed floor) in
    h.configured i _ (h.registered i r)

-- After any series of `run` and `stop` calls on any instances, whatever becomes of the starts and
-- the joins, two instances that hold a server thread and are not marked broken have asked for the same
-- protocol floor. Nothing is said of the server of a broken instance, which may still serve.
pub running_agree :
    (floor : ℕ → ℕ) (cs : List Call) (i j : ℕ)
    → is_usable ((history cs (fresh floor)).protocols i) ≡ true
    → is_usable ((history cs (fresh floor)).protocols j) ≡ true
    → ((history cs (fresh floor)).protocols i).min_protocol_version
      ≡ ((history cs (fresh floor)).protocols j).min_protocol_version
running_agree floor cs i j r s =
    some-injective _ _ (sym (running_configured floor cs i r) ∙ running_configured floor cs j s)
