-- ===== src/Agent/Skills/Lifecycle.antt =====
-- How an agent protocol of hivescope/plugins/ovoscope_agent.py that is given its MiniCroft ends.
use hivescope.Prelude.{ℕ, ◌≡◌, refl, String, some, List}
use hivescope.Outcome.{Outcome, ok}
use hivescope.Agent.Bus.{Bus, post_init, shutdown}
use hivescope.Agent.Bus.Nesting.{shutdown-emit, nat_eq_refl}
use hivescope.Agent.Skills.{OvoscopeAgent, make_agent, shutdown_agent}

post_init_keeps : (i : ℕ) (b : Bus) → (post_init i b).orig_emit i ≡ some b.emit
unfolding post_init
post_init_keeps i b = rw (nat_eq_refl i) refl

post_init-emit : (i : ℕ) (b : Bus) → (shutdown i (post_init i b)).emit ≡ b.emit
unfolding post_init
post_init-emit i b = shutdown-emit i b.emit (post_init i b) refl (post_init_keeps i b)

module _ {M : Type 0} (bus_of : M → Bus) (get_minicroft : List String → Outcome M)
    (stop : M → Bus → Bus) where
  -- A MiniCroft that the caller gives is stopped once, on a bus that has its own `emit` back: a second
  -- shutdown takes the wiring off and stops nothing.
  pub make_agent-shutdown_agent :
      (i : ℕ) (ids : List String) (m : M)
      → (a : OvoscopeAgent bus_of get_minicroft stop) × (make_agent bus_of get_minicroft stop i ids
            (some m)
          ≡ ok a)
        × ((b : Bus) × ((shutdown_agent bus_of get_minicroft stop i a).bus ≡ stop m b)
            × (b.emit ≡ (bus_of m).emit)
            × ((shutdown_agent bus_of get_minicroft stop i
                  (shutdown_agent bus_of get_minicroft stop i a)).bus
                ≡ shutdown i (stop m b)))
  unfolding make_agent shutdown_agent
  make_agent-shutdown_agent i ids m =
      (_, refl, (shutdown i (post_init i (bus_of m)), refl, post_init-emit i (bus_of m), refl))
