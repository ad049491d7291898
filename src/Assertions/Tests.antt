-- ===== src/Assertions/Tests.antt =====
-- The assertion helpers on concrete recordings.
use hivescope.Prelude.{
  all, ℕ, ◌≡◌, ◌↔◌, refl, String, true, false, not, ◌&&◌, some, [], ◌∷◌, any, filter,
}
use hivescope.Prelude.Int.{pos}
use hivescope.Outcome.{ok, require, assertion_error}
use hivescope.Value.{
  Value, text, int, dict, end, field, plain, message, get, lookup, truthy, or_else, value_get,
}
use hivescope.Recorder.{inbound, bus_inject, RecordedMessage}
use hivescope.Recorder.Lookup.{entry}
use hivescope.Samples.{types}
use hivescope.Assertions.{MasterNode, SatelliteNode, injected_by}
use hivescope.Assertions.Policy.{assert_acl_enforced}
use hivescope.Assertions.Echoes.{echoes, is_readable}
use hivescope.Assertions.Typed.{injects, assert_acl_enforced_lem}
use hivescope.Assertions.Bridge.{assert_fifo_order, fifo_records, last_n, seqs_of}
use hivescope.Assertions.Bridge.Sources.{
  source_of, assert_source_stamped, read_sources, stable, collides,
}
use hivescope.Assertions.Bridge.Fifo.{Increasing, assert_fifo_order_iff}

-- A denial of "speak".
abbrev denial : RecordedMessage
denial =
    entry inbound "bus"
      (plain (
        dict (
          field "type" (text "hive.policy.denied")
            (field "data" (dict (field "denied_type" (text "speak") end)) end))))
      "p" 1

-- An injected "speak" with a session and a marker.
abbrev session : Value
session = dict (field "session_id" (text "ns:kitchen") end)

abbrev injected : ℕ → RecordedMessage
injected n =
    entry bus_inject "speak"
      (message (text "speak") (dict (field "_fifo_seq" (int (pos n)) end))
        (dict (field "session" session end)))
      "p" n

abbrev master : MasterNode
master = record {
  recorder = record { name = "M0"; records = injected 1 ∷ injected 2 ∷ [] };
  clients =
      ("p", record { peer = "p"; cipher = "c"; encoding = "e"; session_namespace = "ns" }) ∷ [];
  calls = [];
}

abbrev satellite : SatelliteNode
satellite = record {
  recorder = record { name = "S0"; records = denial ∷ [] };
  peer = some "p";
  has_transport = true;
  handshake_done = true;
  cipher = "c";
  json_encoding = "e";
}

assert_acl_enforced_lem_example :
    (assert_acl_enforced types master satellite "speak" false true
      ≡ require (any (echoes types "speak") satellite.recorder.records) assertion_error)
    × (assert_acl_enforced types master satellite "speak" true true
        ≡ require
            (not (any (echoes types "speak") satellite.recorder.records)
              && any (injects types (some "p") "speak") master.recorder.records)
            assertion_error)
unfolding any is_readable get lookup
assert_acl_enforced_lem_example =
    assert_acl_enforced_lem types master satellite "speak" refl (refl, tt)

assert_fifo_order_iff_example :
    (assert_fifo_order master satellite "speak" 2 ≡ ok tt) ↔ Increasing (pos 1 ∷ pos 2 ∷ [])
unfolding fifo_records last_n seqs_of injected_by value_get get lookup truthy or_else filter
assert_fifo_order_iff_example =
    assert_fifo_order_iff master satellite "speak" 2 (pos 1 ∷ pos 2 ∷ []) refl refl

-- A second peer's "speak".
abbrev sourced : String → String → RecordedMessage
sourced peer source =
    entry bus_inject "speak"
      (message (text "speak") (dict end) (dict (field "source" (text source) end))) peer 1

abbrev two_peers : MasterNode
two_peers = record master {
  recorder = record { name = "M0"; records = sourced "p" "kitchen" ∷ sourced "q" "hall" ∷ [] };
}

abbrev other_satellite : SatelliteNode
other_satellite = record satellite { peer = some "q" }

-- Each room's messages have their own source.
rooms_apart : assert_source_stamped two_peers satellite (other_satellite ∷ []) ≡ ok tt
unfolding assert_source_stamped injected_by source_of value_get get lookup truthy or_else filter any
    all read_sources stable collides
rooms_apart = refl
