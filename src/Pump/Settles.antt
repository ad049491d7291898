-- ===== src/Pump/Settles.antt =====
-- What an outermost `_deliver` and an outermost send of hivescope/node.py come to: they stop, idle.
use hivescope.Prelude.{ℕ, ◌+◌, suc, ◌<◌, ◌≡◌, ◌≢◌, refl, false, List, []}
use hivescope.Pump.{Op, Pump, Ran, done, raised, out_of_fuel, pumped_send}
use hivescope.Pump.Order.{At, Settled, pumped_send-Settled}
use hivescope.Pump.Fuel.{weight_of, total, pumped_send_returns}

-- The run stopped, with all that was delivered begun in order, none inside another, and the pump idle;
-- its queue is empty if nothing raised.
abbrev pub Settles : Ran → Type 0
Settles (done p) = At false false p × (p.queue ≡ [])
Settles (raised p) = At false false p
Settles out_of_fuel = ⊥

stopped-Settles : (body : ℕ → List Op) (r : Ran) → Settled body r → r ≢ out_of_fuel → Settles r
stopped-Settles body (done p) h n = h
stopped-Settles body (raised p) h n = h
stopped-Settles body out_of_fuel h n = n refl

module _ (body : ℕ → List Op) (weight : ℕ → ℕ)
    (falls : (t : ℕ) → weight_of weight (body t) < weight t) where
  -- If every action weighs more than all that it delivers and sends, an outermost send on an
  -- instrumented connection, on an idle pump, stops: after its own frames, the deliveries begin in
  -- their order and none inside another. It returns with an empty queue, or raises and what has
  -- not begun stays queued; either way the pump is idle again. Fuel above the weight of the queue
  -- and of the send is enough.
  pub pumped_send-Settles :
      (n t : ℕ) (p : Pump)
      → At false false p
      → total weight p.queue + weight t < n
      → Settles (pumped_send body (suc n) t p)
  pumped_send-Settles n t p h f =
      stopped-Settles body _ (pumped_send-Settled body (suc n) t p h)
        (pumped_send_returns weight body falls n t p h.drains f)
