-- ===== src/Assertions/Rounds/Tests.antt =====
-- A query that is answered, and a probe that is not.
use hivescope.Prelude.{
  ◌≡◌, refl, String, true, ◌&&◌, none, some, List, [], ◌∷◌, filter, length, nat_eq, leb, any,
}
use hivescope.Outcome.{ok, assertion_error, require}
use hivescope.Value.{text, dict, Fields, end, field, plain, get, lookup}
use hivescope.Recorder.{inbound, outbound, RecordedMessage, find_all, matches}
use hivescope.Recorder.Lookup.{entry}
use hivescope.Assertions.{MasterNode, SatelliteNode, inner_payload, contains}
use hivescope.Assertions.Rounds.{
  nested, count_answers, assert_query_routed, pings, ping_flood_id, assert_ping_responded,
}
use hivescope.Assertions.Rounds.Queries.{is_answer, is_request, inner_type, assert_query_routed_lem}
use hivescope.Assertions.Rounds.Pings.{unrelated_response}
use hivescope.Samples.{types}

abbrev node : List RecordedMessage → SatelliteNode
node rs = record {
  recorder = record { name = "S0"; records = rs };
  peer = some "p";
  has_transport = true;
  handshake_done = true;
  cipher = "c";
  json_encoding = "e";
}

abbrev listener : List RecordedMessage → MasterNode
listener rs = record { recorder = record { name = "M0"; records = rs }; clients = []; calls = [] }

abbrev query : Fields → RecordedMessage
query bus = entry inbound types.query (plain (dict (field "payload" (dict bus) end))) "p" 1

abbrev asked : MasterNode
asked = listener (query (field "type" (text "ask") end) ∷ [])

abbrev answered : SatelliteNode
answered = node (query (field "type" (text "speak") end) ∷ query end ∷ [])

query_routed : assert_query_routed types asked answered 1 (some 1) ≡ ok tt
unfolding assert_query_routed count_answers nested inner_payload get lookup filter find_all matches
    contains any
query_routed = refl

assert_query_routed_lem_example :
    assert_query_routed types asked answered 1 (some 1)
    ≡ require
        (nat_eq (length (filter (is_request types (some 1)) asked.recorder.records)) 1
          && leb 1 (length (filter (is_answer types (some 1)) answered.recorder.records)))
        assertion_error
unfolding inner_type get lookup
assert_query_routed_lem_example =
    assert_query_routed_lem types asked answered 1 (some 1) ((λ h. refl), ((λ h. refl), tt))

abbrev flooded : String → Fields
flooded id = field "flood_id" (text id) end

-- A plain PROPAGATE, a probe with the id "a", and a PROPAGATE that comes in with the id "b".
abbrev probing : SatelliteNode
probing = node (
    entry outbound types.propagate (plain (dict end)) "master" 1
    ∷ entry outbound types.propagate (plain (dict (flooded "a"))) "master" 2
    ∷ entry inbound types.propagate (plain (dict (flooded "b"))) "p" 3
    ∷ [])

other_id_passes :
    assert_ping_responded types
      (listener (entry inbound types.propagate (plain (dict end)) "q" 1 ∷ []))
      probing
      none
    ≡ ok tt
unfolding pings filter ping_flood_id inner_payload nested get lookup
other_id_passes =
    unrelated_response types
      (listener (entry inbound types.propagate (plain (dict end)) "q" 1 ∷ [])) probing none _ _ _ _
      _ _ refl refl refl refl
