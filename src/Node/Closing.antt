-- ===== src/Node/Closing.antt =====
-- The end of a session of hivescope/node.py: what `disconnect` and `_on_disconnect` leave.
use hivescope.Prelude.{ℕ, ◌≡◌, refl, String, false, none}
use hivescope.Outcome.{Exception, Outcome, ok, raise, runtime_error}
use hivescope.Value.{Value}
use hivescope.Agent.{Message}
use hivescope.Node.{
  Connection, Received, World, Outgoing, forget_session, then_forget, disconnect, on_disconnect,
  send, receive_raw,
}

-- Nothing of the session is left.
pub record IsForgotten {P : Type 0} (w : World P) : Type 0 where
  pub connection : w.connection ≡ none
  pub noise_transport : w.noise_transport ≡ none
  pub crypto_key : w.crypto_key ≡ none
  pub handshake_done : w.handshake_done ≡ false

-- A close that returns leaves nothing of the session.
abbrev pub Closed : {P : Type 0} → World P × Outcome (Unit {0}) → Type 0
Closed (w, ok u) = IsForgotten w
Closed (w, raise e) = Unit

module _ {P : Type 0} (handle : ℕ → World P → World P × Outcome (Unit {0})) (reset : P → P) where
  forget_session-IsForgotten : (w : World P) → IsForgotten (forget_session handle reset w)
  unfolding forget_session
  forget_session-IsForgotten w = record {
    connection = refl;
    noise_transport = refl;
    crypto_key = refl;
    handshake_done = refl;
  }

  then_forget-Closed : (r : World P × Outcome (Unit {0})) → Closed (then_forget handle reset r)
  then_forget-Closed (w, ok u) = forget_session-IsForgotten w
  then_forget-Closed (w, raise e) = tt

  -- Whatever the master does when a connection ends, a `disconnect` and a close by the master that return
  -- leave the satellite with no connection, no transport, no key and no handshake.
  pub closes-Closed :
      (w : World P) → Closed (disconnect handle reset w) × Closed (on_disconnect handle reset w)
  unfolding disconnect on_disconnect
  closes-Closed w = (then_forget-Closed _, then_forget-Closed _)

  -- After a `disconnect` that returned, a `send` raises RuntimeError and records nothing, and a frame
  -- that comes in is dropped.
  pub send-disconnect :
      (decode : Connection → Value → Outcome Received) (str : Exception → String)
      (handlers : Received → World P → World P × Outcome (Unit {0})) (session : Value)
      (wrap : Message → Received) (message : Outgoing) (payload : Value) (now : ℕ) (w v : World P)
      → disconnect handle reset w ≡ (v, ok tt)
      → (send session wrap message now v ≡ (v, raise runtime_error))
        × (receive_raw decode str handlers payload now v ≡ none)
  unfolding send receive_raw
  send-disconnect decode str handlers session wrap message payload now w v e =
      let closed : IsForgotten v = rw e at ((closes-Closed w).0) in
      (rw closed.connection refl, rw closed.connection refl)
