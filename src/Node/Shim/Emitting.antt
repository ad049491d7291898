-- ===== src/Node/Shim/Emitting.antt =====
-- What the shim of hivescope/node.py sends.
use hivescope.Prelude.{ℕ, ◌≡◌, refl, ap, sym, true, some, none}
use hivescope.Value.{Value, lookup}
use hivescope.Agent.{Message, set_field}
use hivescope.Node.{Received, World, ovos, hive, send, with_session}
use hivescope.Node.Shim.{InProcessHiveShim, emit}

with_session_kept :
    (session v : Value) (m : Message)
    → lookup "session" m.context ≡ some v
    → with_session session m ≡ m
with_session_kept session v m e =
    ap {B = Message}
      (λ o. elim o [
        | none ↦ record m { context = set_field "session" session m.context }
        | some u ↦ m
      ])
      e

module _ {P : Type 0} (session : Value) (wrap : Message → Received) (shim : InProcessHiveShim) where
  -- A message that carries a session, sent by a shim that is wired, is what the satellite's own `send` makes of
  -- it; one without a session goes out without one, where `send` adds the satellite's.
  emit-send :
      (m : Message) (now : ℕ) (w : World P)
      → shim.satellite ≡ true
      → (emit session wrap shim (ovos m) now w ≡ send session wrap (hive (wrap m)) now w)
        × ((v : Value)
            → lookup "session" m.context ≡ some v
            → emit session wrap shim (ovos m) now w ≡ send session wrap (ovos m) now w)
  unfolding emit send
  emit-send m now w wired = (
    rw wired refl,
    λ v e.
        rw wired (
          ap (λ n. send session wrap (hive (wrap n)) now w)
            (sym (with_session_kept session v m e))),
  )
