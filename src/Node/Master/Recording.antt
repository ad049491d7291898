-- ===== src/Node/Master/Recording.antt =====
-- hivescope/node.py: the wrappers of `_instrument_master` that record, together, around a hivemind-core listener
-- whose methods are programs: they read and write its state `S`, and call each other through the names that were
-- replaced, from within each other too. The replacement of `client.send`, which records nothing and decides when
-- queued deliveries run, is not in here: it is `pumped_send` of hivescope.Pump.
mod Histories
mod Transparent
mod Counting
mod Tests
use hivescope.Prelude.{ℕ, zero, suc, String, Option, List, [], ◌∷◌, nat_eq, if◌then◌else◌}
use hivescope.Outcome.{Outcome, raise, foreign_error}
use hivescope.Node.{Received}
use hivescope.Node.Master.{
  Site, Frame, Parsed, recording_send_msg, recording_handle, recording_inject,
}

-- The calls that are replaced, each with the connection that it is given.
pub data Call : Type 0 where
  -- hm_proto.handle_message, hm_proto.handle_inject_agent_msg
  handle_message handle_inject_agent_msg : Received → (client : ℕ) → Call
  -- hm_proto.handle_new_client
  handle_new_client : (client : ℕ) → Call
  -- client.send_msg
  send_msg : Frame → (client : ℕ) → Call

-- A method: what it does depends on the state, and on how the calls that it makes end.
pub data Program (S : Type 0) : Type 0 where
  done : Outcome (Unit {0}) → Program S
  look : (S → Program S) → Program S
  put : S → Program S → Program S
  call : Call → (Outcome (Unit {0}) → Program S) → Program S

-- A method on a state `T` that has the state of the listener in it.
module _ {S T : Type 0} (inner : T → S) (with_inner : S → T → T)
    (enter : Call → T → T × Outcome (Unit {0})) where
  unfoldable pub exec : Program S → T → T × Outcome (Unit {0})
  exec (done o) t = (t, o)
  exec (look k) t = exec (k (inner t)) t
  exec (put s p) t = exec p (with_inner s t)
  exec (call c k) t = let (u, o) = enter c t in exec (k o) u

-- `wrapped` has a connection as often as its send_msg has been replaced.
pub record Wired (S : Type 0) : Type 0 where
  pub state : S
  pub wrapped : List ℕ

abbrev pub site_state : {S : Type 0} → Site (Wired S) → S
site_state s = s.rest.state

abbrev pub with_state : {S : Type 0} → S → Site (Wired S) → Site (Wired S)
with_state x s = record s { rest = record s.rest { state = x } }

-- client.send_msg = _recording_send_msg
abbrev pub wrap : {S : Type 0} → ℕ → Site (Wired S) → Site (Wired S)
wrap c s = record s { rest = record s.rest { wrapped = c ∷ s.rest.wrapped } }

-- `peer` is `client.peer` and `monotonic` the clock; `methods` are the methods that are replaced. Calls that are
-- nested deeper than `depth` raise.
module _ {S : Type 0} (decode_bitstring : List ℕ → Option String) (json : String → Parsed)
    (peer : S → ℕ → String) (monotonic : S → ℕ) where
  -- The send_msg of a connection: one wrapper around the next for each time that it was replaced.
  unfoldable pub send_through :
      (Frame → String → Site (Wired S) → Site (Wired S) × Outcome (Unit {0}))
      → (client : ℕ) → List ℕ
      → Frame
      → String
      → (now : ℕ) → Site (Wired S)
      → Site (Wired S) × Outcome (Unit {0})
  send_through original c [] frame at now s = original frame at s
  send_through original c (d ∷ ds) frame at now s =
      let rest = send_through original c ds in
      if nat_eq d c
      then recording_send_msg decode_bitstring json (λ f p. rest f p now) frame at now s
      else rest frame at now s

  -- A call of what has replaced a method, around its `original`.
  unfoldable pub instrumented :
      (original : Call → Site (Wired S) → Site (Wired S) × Outcome (Unit {0}))
      → Call
      → Site (Wired S)
      → Site (Wired S) × Outcome (Unit {0})
  unfolding send_through
  instrumented original (handle_message m c) s =
      recording_handle (λ n p. original (handle_message n c)) m (peer (site_state s) c)
        (monotonic (site_state s)) s
  instrumented original (handle_inject_agent_msg m c) s =
      recording_inject (λ n p. original (handle_inject_agent_msg n c)) m (peer (site_state s) c)
        (monotonic (site_state s)) s
  instrumented original (handle_new_client c) s = original (handle_new_client c) (wrap c s)
  instrumented original (send_msg frame c) s =
      send_through (λ f p. original (send_msg f c)) c s.rest.wrapped frame (peer (site_state s) c)
        (monotonic (site_state s)) s

  module _ (methods : Call → Program S) where
    unfoldable pub run_recorded :
        (depth : ℕ) → Call → Site (Wired S) → Site (Wired S) × Outcome (Unit {0})
    unfolding exec instrumented
    run_recorded zero c s = (s, raise foreign_error)
    run_recorded (suc depth) c s =
        instrumented (λ d. exec site_state with_state (run_recorded depth) (methods d)) c s
