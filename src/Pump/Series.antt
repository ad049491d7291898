-- ===== src/Pump/Series.antt =====
-- A series of deliveries and sends on one thread, from outside the pump of hivescope/node.py.
use hivescope.Prelude.{ℕ, ◌≡◌, false, List, [], ◌∷◌, ◌++◌}
use hivescope.Pump.{Op, Pump, Ran, done, raised, out_of_fuel, idle, deliver, pumped_send}
use hivescope.Pump.Order.{
  made, begun, IsFlat, At, Settled, deliver-Settled, pumped_send-Settled, idle-At,
}

-- The calls that a test makes from outside the pump, each caught if it raises.
pub data Call : Type 0 where
  delivers sends : ℕ → Call

abbrev pub left_by : Pump → Ran → Pump
left_by p (done q) = q
left_by p (raised q) = q
left_by p out_of_fuel = p

module _ (body : ℕ → List Op) (fuel : ℕ) where
  abbrev pub call : Call → Pump → Ran
  call (delivers t) p = deliver body fuel t p
  call (sends t) p = pumped_send body fuel t p

  unfoldable pub run_calls : List Call → Pump → Pump
  run_calls [] p = p
  run_calls (c ∷ cs) p = run_calls cs (left_by p (call c p))

  left_by-At :
      (p : Pump) (r : Ran) → At false false p → Settled body r → At false false (left_by p r)
  left_by-At p (done q) h k = k.0
  left_by-At p (raised q) h k = k
  left_by-At p out_of_fuel h k = h

  call-Settled : (c : Call) (p : Pump) → At false false p → Settled body (call c p)
  call-Settled (delivers t) p h = deliver-Settled body fuel t p h
  call-Settled (sends t) p h = pumped_send-Settled body fuel t p h

  run_calls-At : (cs : List Call) (p : Pump) → At false false p → At false false (run_calls cs p)
  unfolding run_calls
  run_calls-At [] p h = h
  run_calls-At (c ∷ cs) p h = run_calls-At cs _ (left_by-At p (call c p) h (call-Settled c p h))

  -- Over any series of outermost calls on a thread, failing or not (one that runs out of fuel is left
  -- out), the deliveries begin in the order in which they were made, those that have not begun are the
  -- queue, and none ran inside another.
  run_calls-IsFifo :
      (cs : List Call)
      → (made (run_calls cs idle).trace
          ≡ begun (run_calls cs idle).trace ++ (run_calls cs idle).queue)
        × IsFlat (run_calls cs idle).trace
  run_calls-IsFifo cs = let h = run_calls-At cs idle idle-At in (h.fifo.order, h.fifo.flat)
