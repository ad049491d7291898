-- ===== src/Assertions.antt =====
-- hivescope/assertions.py: what the helpers read of a node, and the lookups that they share. The
-- values of HiveMessageType (hivemind_bus_client) are the parameter `types`.
pub mod Counts
pub mod Policy
pub mod Verdicts
pub mod Typed
pub mod Echoes
pub mod Bridge
pub mod Rounds
pub mod Blacklists
mod SessionTests
mod Tests
use hivescope.Prelude.{
  ℕ, String, Bool, true, false, not, ◌&&◌, ◌||◌, Option, none, some, List, [], ◌∷◌, ◌==◌, filter,
  any, if◌then◌else◌,
}
use hivescope.Outcome.{Outcome, ok, raise, value_error, attribute_error, ◌>>=◌, ◌>>◌, require}
use hivescope.Value.{
  Value, null, text, dict, Fields, end, Payload, plain, message, get, or_else, value_get, is_null,
  is_text, is_dict, dict_or_empty,
}
use hivescope.Recorder.{
  Direction, inbound, outbound, bus_inject, eq_direction, RecordedMessage, MessageRecorder,
  find_all,
}
use hivescope.Binary.{BinaryCall}
use hivescope.Dict.{Dict}

pub record HiveMessageType : Type 0 where
  pub handshake : String
  pub hello : String
  pub bus : String
  pub shared_bus : String
  pub broadcast : String
  pub propagate : String
  pub escalate : String
  pub intercom : String
  pub binary : String
  pub ping : String
  pub query : String
  pub cascade : String
  pub rendezvous : String
  -- the members that the repository does not name
  pub others : List String

-- What is read of a HiveMindClientConnection of the master.
pub record Connection : Type 0 where
  pub peer : String
  pub cipher : String
  pub encoding : String
  pub session_namespace : String

-- What is read of a MasterNode: `clients` is `hm_protocol.clients`, by peer, and `calls` are those of
-- its binary protocol.
pub record MasterNode : Type 0 where
  pub recorder : MessageRecorder
  pub clients : Dict Connection
  pub calls : List BinaryCall

-- What is read of a SatelliteNode: the last four are its shim's.
pub record SatelliteNode : Type 0 where
  pub recorder : MessageRecorder
  pub peer : Option String
  pub has_transport : Bool
  pub handshake_done : Bool
  pub cipher : String
  pub json_encoding : String

-- x in xs
unfoldable pub contains : String → List String → Bool
contains s xs = any (λ x. x == s) xs

abbrev pub same_peer : Option String → RecordedMessage → Bool
same_peer none r = false
same_peer (some p) r = r.peer == p

-- The `bus_inject` records of a peer, or of a type.
unfoldable pub injected_by : Option String → MessageRecorder → List RecordedMessage
injected_by peer r = filter (λ m. eq_direction bus_inject m.direction && same_peer peer m) r.records

unfoldable pub injected_as : String → MessageRecorder → List RecordedMessage
injected_as msg_type r =
    filter (λ m. eq_direction bus_inject m.direction && m.msg_type == msg_type) r.records

-- _inner_payload
unfoldable pub inner_payload : RecordedMessage → Fields
inner_payload r = elim r.payload [ plain v ↦ dict_or_empty v | message m c x ↦ end ]

-- _is_policy_denied
unfoldable pub is_policy_denied : RecordedMessage → Bool
unfolding inner_payload get
is_policy_denied r = is_text "hive.policy.denied" (get "type" (inner_payload r))

-- A denial of `_denied_records`: the type that it echoes, if it echoes one.
pub data Denial : Type 0 where
  typed untyped other : Denial

-- (data.get("denied_type") or data.get("msg_type") or data.get("type"))
unfoldable pub reported : Fields → Value
unfolding get or_else
reported fs = or_else (or_else (get "denied_type" fs) (get "msg_type" fs)) (get "type" fs)

abbrev pub denial_about : String → Value → Denial
denial_about msg_type null = untyped
denial_about msg_type v = if is_text msg_type v then typed else other

-- The part of a denied payload under "data", or {}; `.get` on anything but a dict raises.
unfoldable pub denial_data : Fields → Outcome Fields
unfolding get or_else
denial_data fs = elim (or_else (get "data" fs) (dict end)) [
  | dict gs ↦ ok gs
  | _ ↦ raise attribute_error
]

unfoldable pub classify : Option String → Fields → Outcome Denial
unfolding denial_data reported
classify none fs = ok typed
classify (some msg_type) fs = do gs ← denial_data fs; ok (denial_about msg_type (reported gs))

abbrev pub Denials : Type 0
Denials = List (RecordedMessage × Fields)

abbrev pub put : Denial → RecordedMessage × Fields → Denials × Denials → Denials × Denials
put typed d (ts, us) = (d ∷ ts, us)
put untyped d (ts, us) = (ts, d ∷ us)
put other d (ts, us) = (ts, us)

module _ (types : HiveMessageType) where
  open types use {
    handshake, hello, bus, shared_bus, broadcast, propagate, escalate, intercom, binary, ping,
    query, cascade, rendezvous, others,
  }

  -- frozenset(t.value for t in HiveMessageType)
  abbrev pub all_types : List String
  all_types =
      handshake ∷ hello ∷ bus ∷ shared_bus ∷ broadcast ∷ propagate ∷ escalate ∷ intercom ∷ binary
      ∷ ping ∷ query ∷ cascade ∷ rendezvous ∷ others

  -- _find_broadcast_inner
  unfoldable pub is_broadcast_inner : String → RecordedMessage → Bool
  unfolding get inner_payload
  is_broadcast_inner inner_msg_type r =
      eq_direction inbound r.direction
      && (r.msg_type == inner_msg_type
          || (r.msg_type == broadcast && is_text inner_msg_type (get "msg_type" (inner_payload r))))

  unfoldable pub find_broadcast_inner : MessageRecorder → String → List RecordedMessage
  unfolding is_broadcast_inner
  find_broadcast_inner r inner_msg_type = filter (is_broadcast_inner inner_msg_type) r.records

  -- _NON_PAYLOAD_TYPES
  abbrev pub non_payload_types : List String
  non_payload_types = handshake ∷ hello ∷ ping ∷ []

  -- A `hive.policy.denied` that came in on the bus type.
  unfoldable pub is_denial : RecordedMessage → Bool
  unfolding is_policy_denied
  is_denial r = eq_direction inbound r.direction && r.msg_type == bus && is_policy_denied r

  -- The loop of `_denied_records`.
  unfoldable pub sort_denials : Option String → List RecordedMessage → Outcome (Denials × Denials)
  unfolding is_denial classify inner_payload
  sort_denials msg_type [] = ok ([], [])
  sort_denials msg_type (r ∷ rs) =
      let rest = sort_denials msg_type rs in
      if is_denial r
      then (do
        d ← classify msg_type (inner_payload r)
        lists ← rest
        ok (put d (r, inner_payload r) lists))
      else rest

  abbrev pub choose : Option String → Bool → Denials × Denials → Denials
  choose none strict (ts, us) = ts
  choose (some t) true (ts, us) = ts
  choose (some t) false ([], us) = us
  choose (some t) false (d ∷ ts, us) = d ∷ ts

  abbrev pub is_type_value : Option String → Bool
  is_type_value none = false
  is_type_value (some t) = any (λ x. x == t) all_types

  -- _denied_records
  unfoldable pub denied_records : SatelliteNode → Option String → Bool → Outcome Denials
  unfolding sort_denials
  denied_records satellite msg_type strict = do
    require (not (is_type_value msg_type)) value_error
    lists ← sort_denials msg_type satellite.recorder.records
    ok (choose msg_type strict lists)
