-- ===== src/Assertions/Rounds.antt =====
-- The helpers of hivescope/assertions.py on round trips, `assert_query_routed` and
-- `assert_ping_responded`, on the snapshots that their waits leave.
pub mod Queries
pub mod Pings
mod Tests
use hivescope.Prelude.{
  ℕ, Bool, false, not, ◌&&◌, ◌||◌, Option, none, some, List, [], ◌∷◌, ◌==◌, filter, length,
  is_empty, nat_eq, leb, suc, if◌then◌else◌,
}
use hivescope.Outcome.{Outcome, ok, raise, assertion_error, type_error, ◌>>=◌, ◌>>◌, require}
use hivescope.Value.{Value, text, arr, dict, Fields, lookup, get, dict_or_empty, is_null, eq_value}
use hivescope.Recorder.{
  Direction, inbound, outbound, eq_direction, RecordedMessage, MessageRecorder, find_all,
}
use hivescope.Assertions.{HiveMessageType, MasterNode, SatelliteNode, inner_payload, contains}

-- Only records at or after the mark count.
abbrev pub since_mark : Option ℕ → List RecordedMessage → List RecordedMessage
since_mark none rs = rs
since_mark (some mark) rs = filter (λ r. leb mark r.timestamp) rs

-- v in _QUERY_ANSWER_TYPES; a list or a dict cannot be looked for in a set.
abbrev pub is_answer_type : Value → Outcome Bool
is_answer_type (arr vs) = raise type_error
is_answer_type (dict fs) = raise type_error
is_answer_type (text t) =
    ok (contains t ("speak" ∷ "hive.query.complete" ∷ "hive.query.timeout" ∷ []))
is_answer_type v = ok false

-- The "payload" of a payload, if it is a dict.
unfoldable pub nested : RecordedMessage → Fields
unfolding inner_payload get
nested r = dict_or_empty (get "payload" (inner_payload r))

-- payload["flood_id"], or that of the payload inside it, or None
unfoldable pub ping_flood_id : RecordedMessage → Value
unfolding inner_payload nested get lookup
ping_flood_id r = elim (lookup "flood_id" (inner_payload r)) [
  | some v ↦ v
  | none ↦ get "flood_id" (nested r)
]

module _ (types : HiveMessageType) where
  unfoldable pub count_answers : List RecordedMessage → Outcome ℕ
  unfolding nested get
  count_answers [] = ok 0
  count_answers (r ∷ rs) =
      let rest = count_answers rs in
      if eq_direction inbound r.direction && r.msg_type == types.query
      then (do
        answer ← is_answer_type (get "type" (nested r))
        others ← rest
        ok (if answer then suc others else others))
      else rest

  unfoldable pub assert_query_routed :
      MasterNode → SatelliteNode → ℕ → Option ℕ → Outcome (Unit {0})
  unfolding count_answers
  assert_query_routed master satellite count since = do
    let requests = since_mark since (find_all types.query (some inbound) master.recorder)
    require (nat_eq (length requests) count) assertion_error
    answers ← count_answers (since_mark since satellite.recorder.records)
    require (leb count answers) assertion_error

  -- The PING and PROPAGATE records of a direction.
  unfoldable pub pings : Direction → Option ℕ → MessageRecorder → List RecordedMessage
  pings direction since r = since_mark since (
      filter
        (λ m.
          eq_direction direction m.direction
          && (m.msg_type == types.ping || m.msg_type == types.propagate))
        r.records)

  -- The responses to a probe: all, if the probe carries no flood id.
  abbrev pub responses_to : RecordedMessage → List RecordedMessage → List RecordedMessage
  responses_to probe candidates =
      if is_null (ping_flood_id probe)
      then candidates
      else filter (λ r. eq_value (ping_flood_id r) (ping_flood_id probe)) candidates

  abbrev pub check_ping :
      List RecordedMessage → List RecordedMessage → List RecordedMessage → Outcome (Unit {0})
  check_ping (probe ∷ sent) (r ∷ received) candidates =
      require (not (is_empty (responses_to probe candidates))) assertion_error
  check_ping _ _ candidates = raise assertion_error

  unfoldable pub assert_ping_responded : MasterNode → SatelliteNode → Option ℕ → Outcome (Unit {0})
  unfolding pings
  assert_ping_responded master satellite since =
      check_ping (pings outbound since satellite.recorder) (pings inbound since master.recorder)
        (pings inbound since satellite.recorder)
