-- ===== src/Pump/Fuel.antt =====
-- The pump stops: fuel suffices for actions whose deliveries do not go on for ever.
use hivescope.Prelude.{
  ℕ, zero, suc, ◌+◌, ◌≤◌, ◌<◌, ◌≡◌, ◌≢◌, refl, true, false, List, [], ◌∷◌, ◌++◌, arith,
}
use hivescope.Pump.{
  Op, effect, deliver_op, send_op, fail, ended, did, Pump, Ran, done, raised, out_of_fuel, log,
  and_then, finally, deliver, drain, pumped_send, exec,
}

-- A weight for each action, above all that the action sets off.
module _ (weight : ℕ → ℕ) where
  abbrev pub weight_of : List Op → ℕ
  weight_of [] = 1
  weight_of (effect k ∷ ops) = suc (weight_of ops)
  weight_of (deliver_op t ∷ ops) = suc (weight t + weight_of ops)
  weight_of (send_op t ∷ ops) = suc (weight t + weight_of ops)
  weight_of (fail ∷ ops) = suc (weight_of ops)

  abbrev pub total : List ℕ → ℕ
  total [] = 0
  total (t ∷ ts) = weight t + total ts

  total-snoc : (ts : List ℕ) (t : ℕ) → total (ts ++ t ∷ []) ≡ total ts + weight t
  total-snoc [] t = omega arith
  total-snoc (u ∷ ts) t = omega (arith, total-snoc ts t)

  -- The run ended, it still drains, and the queue weighs at most `w`.
  record Light (w : ℕ) (p : Pump) : Type 0 where
    drains : p.draining ≡ true
    light : total p.queue ≤ w

  abbrev Ends : ℕ → Ran → Type 0
  Ends w (done p) = Light w p
  Ends w (raised p) = Unit
  Ends w out_of_fuel = ⊥

  Ends-mono : (v w : ℕ) (r : Ran) → v ≤ w → Ends v r → Ends w r
  Ends-mono v w (done p) h e = record { drains = e.drains; light = omega arith }
  Ends-mono v w (raised p) h e = tt
  Ends-mono v w out_of_fuel h e = e

  and_then-Ends :
      (v w : ℕ) (r : Ran) (f : Pump → Ran)
      → Ends v r
      → ((p : Pump) → Light v p → Ends w (f p))
      → Ends w (and_then r f)
  and_then-Ends v w (done p) f h k = k p h
  and_then-Ends v w (raised p) f h k = tt
  and_then-Ends v w out_of_fuel f h k = h

  module _ (body : ℕ → List Op) (falls : (t : ℕ) → weight_of (body t) < weight t) where
    mutual
      unfolding deliver drain pumped_send exec

      exec-Ends :
          (n : ℕ) (ops : List Op) (w : ℕ) (p : Pump)
          → weight_of ops ≤ n
          → Light w p
          → Ends (w + weight_of ops) (exec body n ops p)
      exec-Ends zero [] w p f h = absurd (omega arith)
      exec-Ends zero (effect k ∷ ops) w p f h = absurd (omega arith)
      exec-Ends zero (deliver_op t ∷ ops) w p f h = absurd (omega arith)
      exec-Ends zero (send_op t ∷ ops) w p f h = absurd (omega arith)
      exec-Ends zero (fail ∷ ops) w p f h = absurd (omega arith)
      exec-Ends (suc n) [] w p f h = record { drains = h.drains; light = omega (arith, h.light) }
      exec-Ends (suc n) (effect k ∷ ops) w p f h = Ends-mono (w + weight_of ops) _ _ (omega arith) (
          exec-Ends n ops w (log (did k) p) (omega arith)
            (record { drains = h.drains; light = h.light }))
      exec-Ends (suc n) (deliver_op t ∷ ops) w p f h =
          and_then-Ends (w + weight t) _ (deliver body n t p) _
            (deliver-Ends n t w p (omega arith) h)
            (λ q k.
              Ends-mono (w + weight t + weight_of ops) _ _ (omega arith)
                (exec-Ends n ops (w + weight t) q (omega arith) k))
      exec-Ends (suc n) (send_op t ∷ ops) w p f h =
          and_then-Ends (w + weight t) _ (pumped_send body n t p) _
            (pumped_send-Ends n t w p (omega arith) h)
            (λ q k.
              Ends-mono (w + weight t + weight_of ops) _ _ (omega arith)
                (exec-Ends n ops (w + weight t) q (omega arith) k))
      exec-Ends (suc n) (fail ∷ ops) w p f h = tt

      deliver-Ends :
          (n t w : ℕ) (p : Pump)
          → weight t ≤ n
          → Light w p
          → Ends (w + weight t) (deliver body n t p)
      deliver-Ends zero t w p f h = absurd (omega (arith, falls t))
      deliver-Ends (suc n) t w p f h =
          rw (h.drains, deliver)
            (record { drains = h.drains; light = omega (arith, total-snoc p.queue t, h.light) })

      pumped_send-Ends :
          (n t w : ℕ) (p : Pump)
          → weight t ≤ n
          → Light w p
          → Ends (w + weight t) (pumped_send body n t p)
      pumped_send-Ends zero t w p f h = absurd (omega (arith, falls t))
      pumped_send-Ends (suc n) t w p f h =
          rw (h.drains, pumped_send)
            (Ends-mono (w + weight_of (body t)) _ _ (omega (arith, falls t))
              (exec-Ends n (body t) w p (omega (arith, falls t)) h))

    drain-Ends :
        (n : ℕ) (p : Pump) (waiting : List ℕ)
        → p.queue ≡ waiting
        → p.draining ≡ true
        → total waiting < n
        → Ends 0 (drain body n p)
    unfolding drain
    drain-Ends zero p waiting e d f = absurd (omega arith)
    drain-Ends (suc n) p [] e d f =
        rw (e, drain) (record { drains = d; light = rw e (omega arith) })
    drain-Ends (suc n) p (t ∷ rest) e d f =
        rw (e, drain)
          (and_then-Ends (total rest + weight_of (body t)) 0 (exec body n (body t) _) _
            (exec-Ends n (body t) (total rest) _ (omega (arith, falls t))
              (record { drains = d; light = omega arith }))
            (λ q k.
              drain-Ends n (log (ended t) q) q.queue refl k.drains
                (omega (arith, falls t, k.light))))

    finally-Ends : (w : ℕ) (r : Ran) → Ends w r → finally r ≢ out_of_fuel
    finally-Ends w (done p) h = λ e. cc
    finally-Ends w (raised p) h = λ e. cc
    finally-Ends w out_of_fuel h = λ e. h

    pub deliver_returns :
        (n t : ℕ) (p : Pump)
        → p.draining ≡ false
        → total p.queue + weight t < n
        → deliver body (suc n) t p ≢ out_of_fuel
    unfolding deliver
    deliver_returns n t p d f =
        rw (d, deliver)
          (finally-Ends 0 (drain body n _)
            (drain-Ends n _ (p.queue ++ t ∷ []) refl refl (omega (arith, total-snoc p.queue t))))

    pub pumped_send_returns :
        (n t : ℕ) (p : Pump)
        → p.draining ≡ false
        → total p.queue + weight t < n
        → pumped_send body (suc n) t p ≢ out_of_fuel
    unfolding pumped_send
    pumped_send_returns n t p d f =
        rw (d, pumped_send)
          (finally-Ends 0 (and_then (exec body n (body t) _) _) (
            and_then-Ends (total p.queue + weight_of (body t)) 0 (exec body n (body t) _) _
              (exec-Ends n (body t) (total p.queue) _ (omega (arith, falls t))
                (record { drains = refl; light = omega arith }))
              (λ q k. drain-Ends n q q.queue refl k.drains (omega (arith, falls t, k.light)))))
