-- ===== src/Node/Master/Recording/Histories.antt =====
-- The uninstrumented listener of the masters in hivescope/node.py, and the records that its history calls for.
use hivescope.Prelude.{ℕ, zero, suc, String, Option, List, [], ◌∷◌, ◌++◌, nat_eq, if◌then◌else◌}
use hivescope.Outcome.{Outcome, raise, foreign_error}
use hivescope.Recorder.{inbound, outbound, bus_inject, RecordedMessage}
use hivescope.Recorder.Lookup.{entry}
use hivescope.Node.Master.{Site, Parsed, frame_type, frame_payload}
use hivescope.Node.Master.Recording.{
  Call, handle_message, handle_inject_agent_msg, handle_new_client, send_msg, Program, exec, Wired,
}

-- A call, the peer of its connection when it was made, and the time.
pub record Event : Type 0 where
  pub made : Call
  pub peer : String
  pub time : ℕ

-- A listener that is not instrumented, and the calls that were made, the last one first.
pub record Plain (S : Type 0) : Type 0 where
  pub state : S
  pub history : List Event

-- The connections that `handle_new_client` was called with.
abbrev pub wraps : Call → List ℕ → List ℕ
wraps (handle_new_client c) cs = c ∷ cs
wraps (handle_message m c) cs = cs
wraps (handle_inject_agent_msg m c) cs = cs
wraps (send_msg f c) cs = cs

unfoldable pub wrapped_in : List Event → List ℕ
wrapped_in [] = []
wrapped_in (e ∷ h) = wraps e.made (wrapped_in h)

-- A copy of `r` for each `c` in the list.
unfoldable pub copies : ℕ → List ℕ → RecordedMessage → List RecordedMessage
copies c [] r = []
copies c (d ∷ ds) r = let rest = copies c ds r in if nat_eq d c then r ∷ rest else rest

abbrev pub client_of : Call → ℕ
client_of (handle_message m c) = c
client_of (handle_inject_agent_msg m c) = c
client_of (handle_new_client c) = c
client_of (send_msg f c) = c

abbrev pub with_plain : {S : Type 0} → S → Plain S → Plain S
with_plain x t = record t { state = x }

module _ {S : Type 0} (decode_bitstring : List ℕ → Option String) (json : String → Parsed)
    (peer : S → ℕ → String) (monotonic : S → ℕ) where
  -- The records of a call, made after `handle_new_client` was called with these connections.
  unfoldable pub records_of : Call → String → ℕ → List ℕ → List RecordedMessage
  unfolding copies
  records_of (handle_message m c) at time cs = entry inbound m.msg_type m.payload at time ∷ []
  records_of (handle_inject_agent_msg m c) at time cs =
      entry bus_inject m.msg_type m.payload at time ∷ []
  records_of (handle_new_client c) at time cs = []
  records_of (send_msg f c) at time cs =
      copies c cs (entry outbound (frame_type decode_bitstring json f) (frame_payload f) at time)

  unfoldable pub records_in : List Event → List RecordedMessage
  unfolding records_of wrapped_in
  records_in [] = []
  records_in (e ∷ h) = records_in h ++ records_of e.made e.peer e.time (wrapped_in h)

  abbrev pub note : Call → Plain S → Plain S
  note c t = record t {
    history =
        record { made = c; peer = peer t.state (client_of c); time = monotonic t.state }
        ∷ t.history;
  }

  -- The recorder that a history leaves, on top of the records that were there.
  unfoldable pub site_of : String → List RecordedMessage → Plain S → Site (Wired S)
  unfolding records_in wrapped_in
  site_of name base t = record {
    recorder = record { name = name; records = base ++ records_in t.history };
    rest = record { state = t.state; wrapped = wrapped_in t.history };
  }

  module _ (methods : Call → Program S) where
    unfoldable pub bare : (depth : ℕ) → Call → Plain S → Plain S × Outcome (Unit {0})
    unfolding exec
    bare zero c t = (t, raise foreign_error)
    bare (suc depth) c t = exec Plain.state with_plain (bare depth) (methods c) (note c t)
