-- ===== src/Recorder.antt =====
-- hivescope/recorder.py: `MessageRecorder`. The monotonic clock is counted in ticks.
pub mod Lookup
pub mod Waiting
pub mod Wakeups
pub mod Deadline
pub mod Returning
pub mod Race
mod Tests
use hivescope.Prelude.{
  ℕ, ◌≡◌, String, Bool, true, false, ◌&&◌, Option, none, some, List, [], ◌∷◌, ◌++◌, length, filter,
  last?, is_empty, nat_eq, ◌==◌,
}
use hivescope.Outcome.{Outcome, ok, raise, require, assertion_error}
use hivescope.Value.{Payload}

pub data Direction : Type 0 where
  inbound outbound bus_inject : Direction

abbrev pub eq_direction : Direction → Direction → Bool
eq_direction inbound inbound = true
eq_direction outbound outbound = true
eq_direction bus_inject bus_inject = true
eq_direction _ _ = false

pub record RecordedMessage : Type 0 where
  pub direction : Direction
  pub msg_type : String
  pub payload : Payload
  pub peer : String
  pub timestamp : ℕ

-- `records` is the list that the lock guards; the waiters of `wait_for` are in Recorder/Waiting.
pub record MessageRecorder : Type 0 where
  pub name : String
  pub records : List RecordedMessage

unfoldable pub init : String → MessageRecorder
init name = record { name = name; records = [] }

-- A copy of the records, for the assertion helpers.
abbrev pub snapshot : MessageRecorder → List RecordedMessage
snapshot r = r.records

unfoldable pub record_message :
    Direction → String → Payload → String → ℕ → MessageRecorder → MessageRecorder
record_message direction msg_type payload peer now r = record r {
  records = r.records ++ entry ∷ [];
}
  where
    entry : RecordedMessage
    entry = record {
      direction = direction;
      msg_type = msg_type;
      payload = payload;
      peer = peer;
      timestamp = now;
    }

-- direction is None or r.direction == direction
abbrev pub has_direction : Option Direction → Direction → Bool
has_direction none d = true
has_direction (some e) d = eq_direction e d

unfoldable pub matches : String → Option Direction → RecordedMessage → Bool
matches msg_type direction r = r.msg_type == msg_type && has_direction direction r.direction

unfoldable pub find_all : String → Option Direction → MessageRecorder → List RecordedMessage
find_all msg_type direction r = filter (matches msg_type direction) r.records

unfoldable pub find : String → Option Direction → MessageRecorder → Option RecordedMessage
unfolding find_all
find msg_type direction r = last? (find_all msg_type direction r)

abbrev pub received : String → Option Direction → MessageRecorder → List RecordedMessage
received = find_all

unfoldable pub assert_received :
    String → ℕ → Option Direction → MessageRecorder → Outcome (Unit {0})
unfolding find_all
assert_received msg_type count direction r =
    require (nat_eq (length (find_all msg_type direction r)) count) assertion_error

unfoldable pub assert_not_received :
    String → Option Direction → MessageRecorder → Outcome (Unit {0})
unfolding find_all
assert_not_received msg_type direction r =
    require (is_empty (find_all msg_type direction r)) assertion_error

unfoldable pub clear : MessageRecorder → MessageRecorder
clear r = record r { records = [] }
