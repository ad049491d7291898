-- ===== src/Node/Decoding.antt =====
-- How a frame is decoded: by `_receive_raw` and `_decode_and_dispatch` of hivescope/node.py.
use hivescope.Prelude.{
  ℕ, ◌≡◌, refl, ap, String, true, Option, nat_eq, nat_eq_iff, arith, Bool-cases, inl, inr,
}
use hivescope.Outcome.{Exception, Outcome, ok, raise}
use hivescope.Recorder.{inbound}
use hivescope.Value.{Value}
use hivescope.Node.{
  Connection, Received, World, put, write, write_error, conclude, set_transport,
  decode_and_dispatch,
}

nat_eq_refl : (i : ℕ) → nat_eq i i ≡ true
nat_eq_refl i = ground (arith, nat_eq_iff i i)

-- A connection that is changed and then given its old transport back is as it was.
put_back :
    (c : ℕ) (transport : Option ℕ) (cs : ℕ → Connection) (j : ℕ)
    → put c
        (record (put c (record (cs c) { noise_transport = transport }) cs c) {
          noise_transport = (cs c).noise_transport;
        })
        (put c (record (cs c) { noise_transport = transport }) cs)
        j
      ≡ cs j
put_back c transport cs j = elim (Bool-cases (nat_eq c j)) [
  | inl e ↦ let same : c ≡ j = (nat_eq_iff c j).0 e in rw (e, nat_eq_refl c) (ap cs same)
  | inr e ↦ rw e refl
]

module _ {P : Type 0} (decode : Connection → Value → Outcome Received) (str : Exception → String)
    (handlers : Received → World P → World P × Outcome (Unit {0})) where
  set_transport-back :
      (c : ℕ) (transport : Option ℕ) (w : World P)
      → set_transport decode str handlers c
          (w.connections c).noise_transport
          (set_transport decode str handlers c transport w)
        ≡ w
  set_transport-back c transport w =
      λ i. record w { connections = λ j. put_back c transport w.connections j i }

  -- What comes of a frame, on a connection that is as before: a failed decode is recorded and nothing else is
  -- done; a message is recorded, and its handlers run.
  abbrev pub outcome_of : Outcome Received → String → ℕ → World P → World P × Outcome (Unit {0})
  outcome_of (raise e) peer now w = (write_error decode str handlers e peer now w, ok tt)
  outcome_of (ok m) peer now w = handlers m (write inbound m.msg_type m.payload peer now w)

  conclude-back :
      (o : Outcome Received) (c : ℕ) (transport : Option ℕ) (peer : String) (now : ℕ) (w : World P)
      → conclude decode str handlers o
          (w.connections c).noise_transport
          c
          peer
          now
          (set_transport decode str handlers c transport w)
        ≡ outcome_of o peer now w
  conclude-back (raise e) c transport peer now w =
      ap (λ v. (write_error decode str handlers e peer now v, ok tt))
        (set_transport-back c transport w)
  conclude-back (ok m) c transport peer now w =
      ap (λ v. handlers m (write inbound m.msg_type m.payload peer now v))
        (set_transport-back c transport w)

  -- A frame is decoded with the satellite's own transport, in place of the one that the connection holds. If the
  -- decode fails, the failure is recorded, nothing else is done and nothing is raised; a message is recorded and
  -- goes to the handlers. The connection has its own transport back when a message is recorded and its handlers
  -- run, and when a failed call has ended.
  pub decode_and_dispatch_lem :
      (c : ℕ) (peer : String) (payload : Value) (now : ℕ) (w : World P)
      → decode_and_dispatch decode str handlers c peer payload now w
        ≡ outcome_of
            (decode (record (w.connections c) { noise_transport = w.noise_transport }) payload)
            peer
            now
            w
  unfolding decode_and_dispatch
  decode_and_dispatch_lem c peer payload now w =
      rw (nat_eq_refl c) (conclude-back _ c w.noise_transport peer now w)
