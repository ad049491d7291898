-- ===== src/Assertions/Counts.antt =====
-- The helpers of hivescope/assertions.py that count records, peers or calls.
use hivescope.Prelude.{
  ℕ, String, Bool, true, false, not, ◌&&◌, ◌||◌, Option, none, some, List, ◌==◌, filter, any, all,
  if◌then◌else◌, nat_eq, length, is_empty, find?,
}
use hivescope.Outcome.{Outcome, assertion_error, ◌>>=◌, ◌>>◌, require, or_raise}
use hivescope.Value.{plain, message, bytes, eq_value}
use hivescope.Recorder.{
  Direction, inbound, outbound, eq_direction, RecordedMessage, MessageRecorder, find_all,
}
use hivescope.Dict.{Dict, keys, values}
use hivescope.Assertions.{
  HiveMessageType, MasterNode, SatelliteNode, Connection, contains, is_policy_denied,
  find_broadcast_inner, non_payload_types,
}

-- len(matches) == count
unfoldable pub counts : ℕ → List RecordedMessage → Outcome (Unit {0})
counts count matches = require (nat_eq (length matches) count) assertion_error

-- No node adds an error to the list.
unfoldable pub each_counts :
    ℕ → (MessageRecorder → List RecordedMessage) → List MessageRecorder → Outcome (Unit {0})
each_counts count find recipients =
    require (all (λ r. nat_eq (length (find r)) count) recipients) assertion_error

unfoldable pub connected_peers : MasterNode → List String
connected_peers master = keys master.clients

unfoldable pub assert_client_registered : MasterNode → String → Outcome (Unit {0})
unfolding connected_peers contains
assert_client_registered master peer =
    require (contains peer (connected_peers master)) assertion_error

unfoldable pub assert_client_not_registered : MasterNode → String → Outcome (Unit {0})
unfolding connected_peers contains
assert_client_not_registered master peer =
    require (not (contains peer (connected_peers master))) assertion_error

-- satellite.peer in connected_peers
abbrev pub peer_connected : Option String → MasterNode → Bool
peer_connected none master = false
peer_connected (some peer) master = contains peer (connected_peers master)

-- After the wait for the handshake event, whose outcome is the field `handshake_done`.
unfoldable pub assert_handshake_complete : MasterNode → SatelliteNode → Outcome (Unit {0})
unfolding connected_peers contains
assert_handshake_complete master satellite =
    require
      (satellite.has_transport
        && (satellite.handshake_done && peer_connected satellite.peer master))
      assertion_error

-- The first connection whose peer is the satellite's.
abbrev pub connection_of : Option String → Dict Connection → Option Connection
connection_of none clients = none
connection_of (some peer) clients = find? (λ c. c.peer == peer) (values clients)

unfoldable pub assert_encryption_match : MasterNode → SatelliteNode → Outcome (Unit {0})
assert_encryption_match master satellite = do
  conn ← or_raise (connection_of satellite.peer master.clients) assertion_error
  require (conn.cipher == satellite.cipher && conn.encoding == satellite.json_encoding)
      assertion_error

-- assert_message_routed, on the records that its wait leaves; assert_message_received_by and
-- assert_message_sent_by are its calls with a direction.
unfoldable pub assert_message_routed :
    MessageRecorder → String → ℕ → Option Direction → Outcome (Unit {0})
unfolding counts
assert_message_routed node msg_type count direction =
    counts count (find_all msg_type direction node)

abbrev pub assert_message_received_by : MessageRecorder → String → ℕ → Outcome (Unit {0})
assert_message_received_by node msg_type count =
    assert_message_routed node msg_type count (some inbound)

abbrev pub assert_message_sent_by : MessageRecorder → String → ℕ → Outcome (Unit {0})
assert_message_sent_by node msg_type count =
    assert_message_routed node msg_type count (some outbound)

unfoldable pub assert_passthrough_message_delivered :
    MessageRecorder → String → ℕ → Option Direction → Outcome (Unit {0})
unfolding counts
assert_passthrough_message_delivered node message_type count direction =
    counts count (find_all message_type direction node)

module _ (types : HiveMessageType) where
  unfoldable pub assert_hello_received : MasterNode → ℕ → Outcome (Unit {0})
  unfolding counts
  assert_hello_received master count =
      counts count (find_all types.hello (some inbound) master.recorder)

  unfoldable pub assert_bus_message_routed : MasterNode → ℕ → Outcome (Unit {0})
  unfolding counts
  assert_bus_message_routed master count =
      counts count (find_all types.bus (some inbound) master.recorder)

  unfoldable pub assert_shared_bus_received :
      MessageRecorder → ℕ → Option Direction → Outcome (Unit {0})
  unfolding counts
  assert_shared_bus_received node count direction =
      counts count (find_all types.shared_bus direction node)

  unfoldable pub assert_escalate_delivered : MasterNode → ℕ → Outcome (Unit {0})
  unfolding counts
  assert_escalate_delivered master count =
      counts count (find_all types.escalate (some inbound) master.recorder)

  unfoldable pub assert_intercom_delivered : SatelliteNode → ℕ → Outcome (Unit {0})
  unfolding counts
  assert_intercom_delivered recipient count =
      counts count (find_all types.intercom (some inbound) recipient.recorder)

  unfoldable pub assert_rendezvous_handled : MasterNode → ℕ → Outcome (Unit {0})
  unfolding counts
  assert_rendezvous_handled master count =
      counts count (find_all types.rendezvous none master.recorder)

  unfoldable pub assert_propagate_delivered : List MessageRecorder → ℕ → Outcome (Unit {0})
  unfolding each_counts
  assert_propagate_delivered recipients count =
      each_counts count (find_all types.propagate (some inbound)) recipients

  unfoldable pub assert_cascade_routed : List MessageRecorder → ℕ → Outcome (Unit {0})
  unfolding each_counts
  assert_cascade_routed nodes count = each_counts count (find_all types.cascade none) nodes

  -- The inbound records that count as deliveries when no inner type is given.
  unfoldable pub payload_records : MessageRecorder → List RecordedMessage
  payload_records r =
      filter
        (λ m.
          eq_direction inbound m.direction
          && (not (contains m.msg_type (non_payload_types types)) && not (is_policy_denied m)))
        r.records

  -- An empty inner type counts as none.
  abbrev pub broadcast_matches : Option String → MessageRecorder → List RecordedMessage
  broadcast_matches none r = payload_records r
  broadcast_matches (some inner) r =
      if inner == "" then payload_records r else find_broadcast_inner types r inner

  unfoldable pub assert_broadcast_delivered :
      List MessageRecorder → ℕ → Option String → Outcome (Unit {0})
  unfolding each_counts payload_records
  assert_broadcast_delivered recipients count inner_msg_type =
      each_counts count (broadcast_matches inner_msg_type) recipients

  unfoldable pub assert_broadcast_blocked : MessageRecorder → Outcome (Unit {0})
  assert_broadcast_blocked node =
      require (is_empty (find_all types.broadcast (some inbound) node)) assertion_error

  abbrev pub is_payload : List ℕ → RecordedMessage → Bool
  is_payload expected r = elim r.payload [
    | plain v ↦ eq_value v (bytes expected)
    | message m c x ↦ false
  ]

  abbrev pub payload_seen : Option (List ℕ) → MasterNode → Bool
  payload_seen none master = true
  payload_seen (some expected) master =
      any (λ c. eq_value (bytes c.content) (bytes expected)) master.calls
      || any (is_payload expected) (find_all types.binary (some inbound) master.recorder)

  unfoldable pub assert_binary_delivered : MasterNode → Option (List ℕ) → ℕ → Outcome (Unit {0})
  unfolding counts
  assert_binary_delivered master expected_payload count = do
    counts count (find_all types.binary (some inbound) master.recorder)
    require (payload_seen expected_payload master) assertion_error
