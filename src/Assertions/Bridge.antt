-- ===== src/Assertions/Bridge.antt =====
-- The OVOS-BRIDGE-1 helpers of hivescope/assertions.py, on the snapshots that their waits leave.
pub mod Fifo
pub mod Sessions
pub mod Sources
pub mod Baseline
pub mod Isolated
use Prim.Native.String.{◌++◌ as join}
use hivescope.Prelude.{
  ℕ, ◌-◌, String, Bool, true, false, not, ◌&&◌, ◌||◌, Option, none, some, List, [], ◌∷◌, ◌==◌,
  filter, any, all, if◌then◌else◌, length, is_empty, last?, drop, nat_eq, leb, ltb,
}
use hivescope.Prelude.Int.{ℤ, pos, leb_ℤ}
use hivescope.Outcome.{
  Outcome, ok, raise, assertion_error, attribute_error, type_error, value_error, ◌>>=◌, ◌>>◌,
  require, or_raise,
}
use hivescope.Value.{
  Value, null, bool, int, text, bytes, arr, dict, Items, nil, cons, Fields, end, field, Payload,
  plain, message, lookup, get, or_else, value_get, is_text, is_null, is_dict, truthy, eq_value,
  dict_or_empty, le_value,
}
use hivescope.Recorder.{
  Direction, inbound, bus_inject, eq_direction, RecordedMessage, MessageRecorder, matches,
}
use hivescope.Dict
use hivescope.Assertions.{
  HiveMessageType, MasterNode, SatelliteNode, Connection, injected_by, injected_as, inner_payload,
}

-- getattr(msg, "context", {}), and the same for "data"; only a Message has the attribute.
abbrev pub context_of : Payload → Value
context_of (plain v) = dict end
context_of (message m c x) = x

abbrev pub data_of : Payload → Value
data_of (plain v) = dict end
data_of (message m c x) = c

-- ((getattr(msg, "context", {}) or {}).get("session")) or {}
unfoldable pub session_of : Payload → Outcome Value
unfolding or_else value_get
session_of p = do
  session ← value_get "session" (or_else (context_of p) (dict end))
  ok (or_else session (dict end))

-- Every field has, in the session, the value that is expected of it.
unfoldable pub fields_agree : Fields → Value → Outcome Bool
unfolding value_get eq_value
fields_agree end session = ok true
fields_agree (field k expected fs) session =
    let rest = fields_agree fs session in
    do actual ← value_get k session; agree ← rest; ok (eq_value actual expected && agree)

abbrev pub has_field : String → Fields → Bool
has_field k fs = elim (lookup k fs) [ none ↦ false | some v ↦ true ]

-- The last bus_inject record from the satellite.
unfoldable pub last_injected : MasterNode → SatelliteNode → Outcome RecordedMessage
unfolding injected_by
last_injected master satellite =
    or_raise (last? (injected_by satellite.peer master.recorder)) assertion_error

unfoldable pub assert_session_inbound_preserved :
    MasterNode → SatelliteNode → Fields → Outcome (Unit {0})
unfolding session_of fields_agree last_injected
assert_session_inbound_preserved master satellite expected_session = do
  require (not (has_field "session_id" expected_session)) value_error
  entry ← last_injected master satellite
  session ← session_of entry.payload
  agree ← fields_agree expected_session session
  require agree assertion_error

-- f"{conn.session_namespace}:{declared_id}"
abbrev pub natted : String → String → String
natted namespace declared_id = join namespace (join ":" declared_id)

-- `clients.get(peer)` is read for a satellite that is no admin.
unfoldable pub expected_id : MasterNode → String → String → Bool → Outcome String
expected_id master peer declared_id true = ok declared_id
expected_id master peer declared_id false = do
  conn ← or_raise (Dict.lookup peer master.clients) assertion_error
  ok (natted conn.session_namespace declared_id)

unfoldable pub assert_session_id_natted :
    MasterNode → SatelliteNode → String → Bool → Outcome (Unit {0})
unfolding session_of last_injected expected_id
assert_session_id_natted master satellite declared_id admin = do
  peer ← or_raise satellite.peer assertion_error
  entry ← last_injected master satellite
  session ← session_of entry.payload
  actual ← value_get "session_id" session
  expected ← expected_id master peer declared_id admin
  require (is_text expected actual) assertion_error

-- records[-count:], which is all of them for `count` 0
unfoldable pub last_n {ℓ} : {A : Type ℓ} → ℕ → List A → List A
last_n count rs = if nat_eq count 0 then rs else drop (length rs - count) rs

unfoldable pub seqs_of : List RecordedMessage → Outcome (List Value)
unfolding or_else value_get
seqs_of [] = ok []
seqs_of (r ∷ rs) =
    let rest = seqs_of rs in
    do
      seq ← value_get "_fifo_seq" (or_else (data_of r.payload) (dict end))
      seqs ← rest
      ok (seq ∷ seqs)

-- No reorder is found; every pair of neighbours is compared.
unfoldable pub in_order : List Value → Outcome Bool
unfolding le_value
in_order [] = ok true
in_order (v ∷ []) = ok true
in_order (v ∷ w ∷ vs) =
    let rest = in_order (w ∷ vs) in
    do reordered ← le_value w v; fine ← rest; ok (not reordered && fine)

unfoldable pub fifo_records : MasterNode → SatelliteNode → String → List RecordedMessage
fifo_records master satellite msg_type =
    filter (λ r. r.msg_type == msg_type) (injected_by satellite.peer master.recorder)

unfoldable pub check_seqs : List Value → Outcome (Unit {0})
unfolding in_order
check_seqs seqs = do
  require (all (λ s. not (is_null s)) seqs) assertion_error
  fine ← in_order seqs
  require fine assertion_error

unfoldable pub assert_fifo_order : MasterNode → SatelliteNode → String → ℕ → Outcome (Unit {0})
unfolding fifo_records last_n seqs_of check_seqs
assert_fifo_order master satellite msg_type count = do
  let records = last_n count (fifo_records master satellite msg_type)
  require (leb count (length records)) assertion_error
  seqs ← seqs_of records
  check_seqs seqs

-- Every record's session has the value under the field.
unfoldable pub all_have : String → Value → List RecordedMessage → Outcome Bool
unfolding session_of value_get eq_value
all_have key value [] = ok true
all_have key value (r ∷ rs) =
    let rest = all_have key value rs in
    do
      session ← session_of r.payload
      actual ← value_get key session
      others ← rest
      ok (eq_value actual value && others)

abbrev pub injected_any : Option String → MessageRecorder → List RecordedMessage
injected_any none r = filter (λ m. eq_direction bus_inject m.direction) r.records
injected_any (some t) r = injected_as t r

unfoldable pub assert_session_propagated_unchanged :
    MasterNode → String → Value → Option String → Outcome (Unit {0})
unfolding all_have injected_as
assert_session_propagated_unchanged master key value msg_type = do
  let records = injected_any msg_type master.recorder
  require (not (is_empty records)) assertion_error
  same ← all_have key value records
  require same assertion_error

-- getattr(msg, "msg_type", None)
abbrev pub msg_type_of : Payload → Value
msg_type_of (plain v) = null
msg_type_of (message m c x) = m

abbrev pub is_envelope : RecordedMessage → Bool
is_envelope r = elim r.payload [ plain v ↦ false | message m c x ↦ truthy m && is_dict x ]

unfoldable pub assert_msg1_envelope : MasterNode → String → ℕ → Outcome (Unit {0})
unfolding injected_as truthy
assert_msg1_envelope master msg_type count = do
  let injected = injected_as msg_type master.recorder
  require (leb count (length injected)) assertion_error
  require (all is_envelope injected) assertion_error

-- The target's receipt, and what the others recorded after the settle time. `since` opens the window;
-- without it the window opens `settle` ticks before the receipt.
abbrev pub window_start : Option ℕ → ℕ → RecordedMessage → ℕ
window_start none settle recv = recv.timestamp - settle
window_start (some mark) settle recv = mark

unfoldable pub cross_talk : String → ℕ → MessageRecorder → Bool
cross_talk msg_type start r =
    any (λ m. matches msg_type (some inbound) m && leb start m.timestamp) r.records

unfoldable pub assert_destination_routed :
    Option RecordedMessage → List MessageRecorder → String → ℕ → Option ℕ → Outcome (Unit {0})
unfolding cross_talk
assert_destination_routed received others msg_type settle since = do
  recv ← or_raise received assertion_error
  require (not (any (cross_talk msg_type (window_start since settle recv)) others)) assertion_error

-- The dict under `key`, or {} if what is there counts as false; `.get` on another value raises.
abbrev pub sub_value : String → Value → Outcome Value
sub_value k v = do w ← value_get k v; ok (or_else w (dict end))

-- `received` is the BUS message that the wait at the satellite returned.
unfoldable pub assert_session_outbound_preserved :
    Option RecordedMessage → Fields → Outcome (Unit {0})
unfolding inner_payload fields_agree value_get or_else
assert_session_outbound_preserved received expected_session = do
  recv ← or_raise received assertion_error
  context ← sub_value "context" (dict (inner_payload recv))
  session ← sub_value "session" context
  agree ← fields_agree expected_session session
  require agree assertion_error

unfoldable pub assert_source_hidden : Option RecordedMessage → String → Outcome (Unit {0})
unfolding inner_payload value_get or_else
assert_source_hidden received generic_id = do
  recv ← or_raise received assertion_error
  context ← sub_value "context" (dict (inner_payload recv))
  source ← value_get "source" context
  require (is_text generic_id source) assertion_error
