-- ===== src/Pump.antt =====
-- The delivery pump of hivescope/node.py: `_deliver`, and `_pumped_send`, which `_instrument_master`
-- puts in place of a connection's `send`. An action is a number, and `body` says what it does, in
-- order: an effect of its own, a delivery, a send on an instrumented connection, or an exception.
pub mod Order
pub mod Fuel
pub mod Settles
pub mod Series
mod Tests
use hivescope.Prelude.{ℕ, zero, suc, Bool, true, false, List, [], ◌∷◌, ◌++◌}

pub data Op : Type 0 where
  effect deliver_op send_op : ℕ → Op
  fail : Op

-- What an observer sees; `failed` is the exception of the action, or of the send, that runs.
pub data Event : Type 0 where
  did queued began ended : ℕ → Event
  failed : Event

-- `queue` and `draining` are the thread-local `_pump`; `trace` is the observer's, latest event first.
pub record Pump : Type 0 where
  pub queue : List ℕ
  pub draining : Bool
  pub trace : List Event

pub data Ran : Type 0 where
  done raised : Pump → Ran
  out_of_fuel : Ran

unfoldable pub idle : Pump
idle = record { queue = []; draining = false; trace = [] }

abbrev pub log : Event → Pump → Pump
log e p = record p { trace = e ∷ p.trace }

abbrev pub and_then : Ran → (Pump → Ran) → Ran
and_then (done p) f = f p
and_then (raised p) f = raised p
and_then out_of_fuel f = out_of_fuel

-- finally: _pump.draining = False
abbrev pub finally : Ran → Ran
finally (done p) = done (record p { draining = false })
finally (raised p) = raised (record p { draining = false })
finally out_of_fuel = out_of_fuel

abbrev pub enqueue : ℕ → Pump → Pump
enqueue t p = record p { queue = p.queue ++ t ∷ []; trace = queued t ∷ p.trace }

module _ (body : ℕ → List Op) where
  unfoldable mutual
    -- _deliver(action)
    pub deliver : ℕ → ℕ → Pump → Ran
    deliver zero t p = out_of_fuel
    deliver (suc n) t p = elim p.draining [
      | true ↦ done (enqueue t p)
      | false ↦ finally (drain n (record (enqueue t p) { draining = true }))
    ]

    -- while queue: queue.popleft()()
    pub drain : ℕ → Pump → Ran
    drain zero p = out_of_fuel
    drain (suc n) p = elim p.queue [
      | [] ↦ done p
      | t ∷ rest ↦
          and_then (exec n (body t) (record p { queue = rest; trace = began t ∷ p.trace }))
            (λ q. drain n (log (ended t) q))
    ]

    -- _pumped_send: the send itself runs at once, and only the outermost one drains
    pub pumped_send : ℕ → ℕ → Pump → Ran
    pumped_send zero t p = out_of_fuel
    pumped_send (suc n) t p = elim p.draining [
      | true ↦ exec n (body t) p
      | false ↦ finally (and_then (exec n (body t) (record p { draining = true })) (λ q. drain n q))
    ]

    -- the body of an action
    pub exec : ℕ → List Op → Pump → Ran
    exec zero ops p = out_of_fuel
    exec (suc n) ops p = elim ops [
      | [] ↦ done p
      | effect k ∷ rest ↦ exec n rest (log (did k) p)
      | deliver_op t ∷ rest ↦ and_then (deliver n t p) (λ q. exec n rest q)
      | send_op t ∷ rest ↦ and_then (pumped_send n t p) (λ q. exec n rest q)
      | fail ∷ rest ↦ raised (log failed p)
    ]
