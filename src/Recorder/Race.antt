-- ===== src/Recorder/Race.antt =====
-- A wake-up that `wait_for` loses: its `ev.clear()` may undo the event of a record that came after
-- its lookup.
use hivescope.Prelude.{ℕ, ◌≡◌, String, true, false, some, arith, filter, last?, any, eq_refl}
use hivescope.Value.{Payload}
use hivescope.Recorder.{Direction, init, record_message, find, find_all, matches, eq_direction}
use hivescope.Recorder.Waiting.{
  Query, waiting, Wait, begin, advance, recorded, waiter, other_records, Reach, here, next, pending,
}

module _ (t : String) (wanted other : Direction) (p₁ p₂ : Payload) (peer₁ peer₂ : String)
    (now₁ now₂ : ℕ) where
  abbrev pub asked : Query
  asked = record { msg_type = t; direction = some wanted }

  -- One record of the type but of another direction wakes the thread, whose lookup finds nothing.
  looked_up : Wait
  unfolding advance recorded begin init record_message find find_all filter last? matches
  looked_up = advance asked (
      advance asked (
        recorded asked other t p₁ peer₁ now₁
          (advance asked (advance asked (advance asked (begin (init "")))))))

  -- The record that is asked for comes before the event is cleared.
  asleep : Wait
  unfolding looked_up
  asleep =
      advance asked
        (advance asked (advance asked (recorded asked wanted t p₂ peer₂ now₂ looked_up)))

  looked_up-Reach : Reach asked false (begin (init "")) looked_up
  unfolding looked_up
  looked_up-Reach =
      next
        (next
          (next (next (next (next here (waiter _)) (waiter _)) (waiter _))
            (other_records _ _ _ _ _ _))
          (waiter _))
        (waiter _)

  asleep-Reach : Reach asked false (begin (init "")) asleep
  unfolding asleep
  asleep-Reach =
      next (next (next (next looked_up-Reach (other_records _ _ _ _ _ _)) (waiter _)) (waiter _))
        (waiter _)

  -- For every type and direction asked for, and every other direction, there is a run without
  -- `clear` in which the call blocks before its deadline, with its event unset, while a record that
  -- it asked for is there.
  pub lost_wakeup :
      eq_direction wanted other ≡ false
      → (s : Wait) × Reach asked false (begin (init "")) s
        × (s.phase ≡ waiting)
        × (s.expired ≡ false)
        × (s.is_set ≡ false)
        × (pending asked s ≡ true)
  unfolding asleep pending any
  lost_wakeup h = (
    asleep,
    asleep-Reach,
    ground (arith, eq_refl t),
    ground (arith, eq_refl t),
    ground (arith, eq_refl t),
    ground (arith, eq_refl t),
  )
