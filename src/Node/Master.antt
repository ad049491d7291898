-- ===== src/Node/Master.antt =====
-- hivescope/node.py: `_instrument_master`, and what a `MasterNode` sends and waits for. The methods that are
-- wrapped are parameters, and so is the state `S` that they work on.
pub mod Labels
pub mod Reaching
pub mod Recording
mod Tests
use Prim.Native.Char.{code}
use Prim.Native.String.{[] as nil_text, ◌∷◌ as cons_text}
use hivescope.Prelude.{
  ℕ, String, Bool, true, false, ◌&&◌, ◌||◌, Option, none, some, List, [], ◌∷◌, ◌==◌, nat_eq, find?,
  any, if◌then◌else◌,
}
use hivescope.Outcome.{Outcome, ok, raise, key_error}
use hivescope.Value.{Payload, plain, bytes, text}
use hivescope.Recorder.{Direction, inbound, outbound, bus_inject, MessageRecorder, record_message}
use hivescope.Agent.{Message}
use hivescope.Node.{Received}

pub record Site (S : Type 0) : Type 0 where
  pub recorder : MessageRecorder
  pub rest : S

-- A frame that goes out.
pub data Frame : Type 0 where
  binary_frame : List ℕ → Frame
  text_frame : String → Frame

-- json.loads(payload).get("msg_type"): an exception, no type, or a type, which is a text in what
-- hivemind-bus-client writes.
pub data Parsed : Type 0 where
  unreadable no_type : Parsed
  typed : String → Parsed

unfoldable pub starts_with : String → String → Bool
starts_with nil_text s = true
starts_with (cons_text c p) nil_text = false
starts_with (cons_text c p) (cons_text d s) = nat_eq (code c) (code d) && starts_with p s

-- part in s
unfoldable pub includes : String → String → Bool
unfolding starts_with
includes part nil_text = starts_with part nil_text
includes part (cons_text c s) = starts_with part (cons_text c s) || includes part s

abbrev pub or_raw : Option String → String
or_raw none = "_raw"
or_raw (some t) = t

abbrev pub parsed_type : Parsed → String
parsed_type unreadable = "_raw"
parsed_type no_type = "_unknown"
parsed_type (typed t) = t

module _ (decode_bitstring : List ℕ → Option String) (json : String → Parsed) where
  -- The best-effort type of a frame.
  unfoldable pub frame_type : Frame → String
  unfolding includes
  frame_type (binary_frame ns) = or_raw (decode_bitstring ns)
  frame_type (text_frame s) = if includes "ciphertext" s then "_encrypted" else parsed_type (json s)

abbrev pub frame_payload : Frame → Payload
frame_payload (binary_frame ns) = plain (bytes ns)
frame_payload (text_frame s) = plain (text s)

module _ {S : Type 0} where
  abbrev pub write : Direction → String → Payload → String → ℕ → Site S → Site S
  write direction msg_type payload peer now s = record s {
    recorder = record_message direction msg_type payload peer now s.recorder;
  }

  module _ (decode_bitstring : List ℕ → Option String) (json : String → Parsed)
      (send_msg : Frame → String → Site S → Site S × Outcome (Unit {0})) where
    -- _recording_send_msg
    unfoldable pub recording_send_msg : Frame → String → ℕ → Site S → Site S × Outcome (Unit {0})
    unfolding frame_type
    recording_send_msg frame peer now s =
        send_msg frame peer
          (write outbound (frame_type decode_bitstring json frame) (frame_payload frame) peer now s)

  module _ (original : Received → String → Site S → Site S × Outcome (Unit {0})) where
    -- _recording_handle
    unfoldable pub recording_handle : Received → String → ℕ → Site S → Site S × Outcome (Unit {0})
    recording_handle m peer now s = original m peer (write inbound m.msg_type m.payload peer now s)

    -- _recording_inject
    unfoldable pub recording_inject : Received → String → ℕ → Site S → Site S × Outcome (Unit {0})
    recording_inject m peer now s =
        original m peer (write bus_inject m.msg_type m.payload peer now s)

-- `conn.send(message)`, by peer, on the state that it changes.
module _ {S : Type 0} (conn_send : String → S → S × Outcome (Unit {0})) where
  unfoldable pub send_to_satellite : List String → String → S → S × Outcome (Unit {0})
  send_to_satellite clients peer s =
      if any (λ p. p == peer) clients then conn_send peer s else (s, raise key_error)

  abbrev pub and_then :
      S × Outcome (Unit {0}) → (S → S × Outcome (Unit {0})) → S × Outcome (Unit {0})
  and_then (s, ok u) f = f s
  and_then (s, raise e) f = (s, raise e)

  -- _broadcast, over a copy of the clients
  unfoldable pub send_to_all : List String → S → S × Outcome (Unit {0})
  send_to_all [] s = (s, ok tt)
  send_to_all (peer ∷ peers) s = and_then (conn_send peer s) (λ t. send_to_all peers t)

-- `wait_for_bus`, on the messages that come before its deadline: the handler runs once.
unfoldable pub wait_for_bus : String → List Message → Option Message
wait_for_bus ovos_type ms = find? (λ m. m.msg_type == ovos_type) ms
