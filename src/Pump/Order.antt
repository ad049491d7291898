-- ===== src/Pump/Order.antt =====
-- In what order the pump runs deliveries, and that it never runs one inside another.
use hivescope.Prelude.{
  ℕ, zero, suc, ◌≡◌, refl, sym, ◌∙◌, ap, Bool, true, false, List, [], ◌∷◌, ◌++◌, append_assoc,
}
use hivescope.Pump.{
  Op, effect, deliver_op, send_op, fail, Event, did, queued, began, ended, failed, Pump, Ran, done,
  raised, out_of_fuel, idle, log, and_then, finally, enqueue, deliver, drain, pumped_send, exec,
}

-- The deliveries that were made, and those that were begun, first to last.
unfoldable pub made : List Event → List ℕ
made [] = []
made (queued t ∷ es) = made es ++ t ∷ []
made (_ ∷ es) = made es

unfoldable pub begun : List Event → List ℕ
begun [] = []
begun (began t ∷ es) = begun es ++ t ∷ []
begun (_ ∷ es) = begun es

-- A delivery has begun and has neither ended nor failed.
abbrev pub busy : List Event → Bool
busy [] = false
busy (began t ∷ es) = true
busy (ended t ∷ es) = false
busy (failed ∷ es) = false
busy (did k ∷ es) = busy es
busy (queued t ∷ es) = busy es

-- No delivery began while another one was running.
abbrev pub IsFlat : List Event → Type 0
IsFlat [] = Unit
IsFlat (began t ∷ es) = (busy es ≡ false) × IsFlat es
IsFlat (did k ∷ es) = IsFlat es
IsFlat (queued t ∷ es) = IsFlat es
IsFlat (ended t ∷ es) = IsFlat es
IsFlat (failed ∷ es) = IsFlat es

-- What has been delivered is what has begun, followed by what the queue holds.
pub record IsFifo (p : Pump) : Type 0 where
  pub order : made p.trace ≡ begun p.trace ++ p.queue
  pub flat : IsFlat p.trace

-- The pump between two events: whether it drains, and whether a delivery runs.
pub record At (draining running : Bool) (p : Pump) : Type 0 where
  pub fifo : IsFifo p
  pub drains : p.draining ≡ draining
  pub runs : busy p.trace ≡ running

abbrev pub OnRan : (Pump → Type 0) → (Pump → Type 0) → Ran → Type 0
OnRan P Q (done p) = P p
OnRan P Q (raised p) = Q p
OnRan P Q out_of_fuel = Unit

enqueue-At : (d b : Bool) (t : ℕ) (p : Pump) → At d b p → At d b (enqueue t p)
unfolding made begun
enqueue-At d b t p h = record {
  fifo = record {
    order = rw h.fifo.order (append_assoc (begun p.trace) p.queue (t ∷ []));
    flat = h.fifo.flat;
  };
  drains = h.drains;
  runs = h.runs;
}

did-At : (b : Bool) (k : ℕ) (p : Pump) → At true b p → At true b (log (did k) p)
unfolding made begun
did-At b k p h = record {
  fifo = record { order = h.fifo.order; flat = h.fifo.flat };
  drains = h.drains;
  runs = h.runs;
}

failed-At : (b : Bool) (p : Pump) → At true b p → At true false (log failed p)
unfolding made begun
failed-At b p h = record {
  fifo = record { order = h.fifo.order; flat = h.fifo.flat };
  drains = h.drains;
  runs = refl;
}

ended-At : (t : ℕ) (p : Pump) → At true true p → At true false (log (ended t) p)
unfolding made begun
ended-At t p h = record {
  fifo = record { order = h.fifo.order; flat = h.fifo.flat };
  drains = h.drains;
  runs = refl;
}

began-At :
    (t : ℕ) (rest : List ℕ) (p : Pump)
    → p.queue ≡ t ∷ rest
    → At true false p
    → At true true (record p { queue = rest; trace = began t ∷ p.trace })
unfolding made begun
began-At t rest p e h = record {
  fifo = record {
    order =
        h.fifo.order
        ∙ ap (λ q. begun p.trace ++ q) e
        ∙ sym (append_assoc (begun p.trace) (t ∷ []) rest);
    flat = (h.runs, h.fifo.flat);
  };
  drains = h.drains;
  runs = refl;
}

starts-At : (p : Pump) → At false false p → At true false (record p { draining = true })
starts-At p h = record {
  fifo = record { order = h.fifo.order; flat = h.fifo.flat };
  drains = refl;
  runs = h.runs;
}

stops-At : (p : Pump) → At true false p → At false false (record p { draining = false })
stops-At p h = record {
  fifo = record { order = h.fifo.order; flat = h.fifo.flat };
  drains = refl;
  runs = h.runs;
}

and_then-OnRan :
    (P Q R : Pump → Type 0) (r : Ran) (f : Pump → Ran)
    → OnRan P R r
    → ((p : Pump) → P p → OnRan Q R (f p))
    → OnRan Q R (and_then r f)
and_then-OnRan P Q R (done p) f h k = k p h
and_then-OnRan P Q R (raised p) f h k = h
and_then-OnRan P Q R out_of_fuel f h k = tt

-- When a drain stops, by its loop or by an exception, no delivery runs; the loop empties the queue.
abbrev Emptied : Pump → Type 0
Emptied p = At true false p × (p.queue ≡ [])

module _ (body : ℕ → List Op) where
  abbrev Inside : Bool → Ran → Type 0
  Inside b = OnRan (At true b) (At true false)

  mutual
    unfolding deliver drain pumped_send exec

    exec-At :
        (n : ℕ) (ops : List Op) (b : Bool) (p : Pump) → At true b p → Inside b (exec body n ops p)
    exec-At zero ops b p h = tt
    exec-At (suc n) [] b p h = h
    exec-At (suc n) (effect k ∷ rest) b p h = exec-At n rest b (log (did k) p) (did-At b k p h)
    exec-At (suc n) (deliver_op t ∷ rest) b p h =
        and_then-OnRan (At true b) (At true b) (At true false) (deliver body n t p) _
          (deliver-Inside n t b p h) (λ q k. exec-At n rest b q k)
    exec-At (suc n) (send_op t ∷ rest) b p h =
        and_then-OnRan (At true b) (At true b) (At true false) (pumped_send body n t p) _
          (pumped_send-Inside n t b p h) (λ q k. exec-At n rest b q k)
    exec-At (suc n) (fail ∷ rest) b p h = failed-At b p h

    deliver-Inside : (n t : ℕ) (b : Bool) (p : Pump) → At true b p → Inside b (deliver body n t p)
    deliver-Inside zero t b p h = tt
    deliver-Inside (suc n) t b p h = rw (h.drains, deliver) (enqueue-At true b t p h)

    pumped_send-Inside :
        (n t : ℕ) (b : Bool) (p : Pump) → At true b p → Inside b (pumped_send body n t p)
    pumped_send-Inside zero t b p h = tt
    pumped_send-Inside (suc n) t b p h = rw (h.drains, pumped_send) (exec-At n (body t) b p h)

  drain-At :
      (n : ℕ) (p : Pump) (waiting : List ℕ)
      → p.queue ≡ waiting
      → At true false p
      → OnRan Emptied (At true false) (drain body n p)
  unfolding drain
  drain-At zero p waiting e h = tt
  drain-At (suc n) p [] e h = rw (e, drain) (h, e)
  drain-At (suc n) p (t ∷ rest) e h =
      rw (e, drain)
        (and_then-OnRan (At true true) Emptied (At true false) (exec body n (body t) _) _
          (exec-At n (body t) true _ (began-At t rest p e h))
          (λ q k. drain-At n (log (ended t) q) q.queue refl (ended-At t q k)))

  abbrev pub Settled : Ran → Type 0
  Settled = OnRan (λ q. At false false q × (q.queue ≡ [])) (At false false)

  settle : (r : Ran) → OnRan Emptied (At true false) r → Settled (finally r)
  settle (done p) h = (stops-At p h.0, h.1)
  settle (raised p) h = stops-At p h
  settle out_of_fuel h = tt

  pub deliver-Settled : (n t : ℕ) (p : Pump) → At false false p → Settled (deliver body n t p)
  unfolding deliver
  deliver-Settled zero t p h = tt
  deliver-Settled (suc n) t p h =
      rw (h.drains, deliver)
        (settle (drain body n _)
          (drain-At n _ _ refl (starts-At (enqueue t p) (enqueue-At false false t p h))))

  pub pumped_send-Settled :
      (n t : ℕ) (p : Pump) → At false false p → Settled (pumped_send body n t p)
  unfolding pumped_send
  pumped_send-Settled zero t p h = tt
  pumped_send-Settled (suc n) t p h =
      rw (h.drains, pumped_send)
        (settle (and_then (exec body n (body t) _) _) (
          and_then-OnRan (At true false) Emptied (At true false) (exec body n (body t) _) _
            (exec-At n (body t) false _ (starts-At p h)) (λ q k. drain-At n q q.queue refl k)))

pub idle-At : At false false idle
unfolding idle made begun
idle-At = record { fifo = record { order = refl; flat = tt }; drains = refl; runs = refl }
