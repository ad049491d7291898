-- ===== src/Agent/Bus/Tests.antt =====
-- Three protocols on one bus.
use hivescope.Prelude.{◌≡◌, refl, none, [], ◌∷◌}
use hivescope.Value.{end}
use hivescope.Agent.{Message}
use hivescope.Agent.Bus.{
  original, Bus, a_message, emit_on, live, run, post_init, shutdown, is_wrapper, call,
}
use hivescope.Agent.Bus.Nesting.{Nested, over, then_emits, within, lives, Apart, nested_restores}

abbrev fresh : Bus
fresh = record { emit = original; handlers = []; orig_emit = λ i. none; injected = λ i. [] }

abbrev speak : Message
speak = record { msg_type = "speak"; content = end; context = end }

abbrev nested : Nested
nested =
    within 1 (then_emits (a_message speak) (within 2 (then_emits (a_message speak) over) over))
      (within 3 over (then_emits (a_message speak) over))

recorded_once_each :
    ((run (lives nested) fresh).injected 1 ≡ speak ∷ speak ∷ [])
    × ((run (lives nested) fresh).injected 2 ≡ speak ∷ [])
    × ((run (lives nested) fresh).injected 3 ≡ [])
unfolding run lives live post_init shutdown is_wrapper emit_on call
recorded_once_each = (refl, refl, refl)

nested_restores_example : (run (lives nested) fresh).emit ≡ original
unfolding Apart
nested_restores_example = nested_restores nested fresh (tt, ((refl, tt), tt, tt), (tt, tt, tt))
