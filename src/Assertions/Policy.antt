-- ===== src/Assertions/Policy.antt =====
-- The policy helpers of hivescope/assertions.py: `assert_acl_enforced` and
-- `assert_policy_denied`. `str` is what Python renders a value as.
use hivescope.Prelude.{
  String, Bool, true, false, not, ◌&&◌, Option, none, some, List, [], ◌∷◌, ◌==◌, filter,
  if◌then◌else◌, is_empty,
}
use hivescope.Outcome.{Outcome, ok, raise, assertion_error, attribute_error, ◌>>=◌, ◌>>◌, require}
use hivescope.Value.{Value, text, dict, Fields, lookup, end}
use hivescope.Recorder.{bus_inject, eq_direction, RecordedMessage, MessageRecorder}
use hivescope.Assertions.{
  HiveMessageType, MasterNode, SatelliteNode, same_peer, denied_records, Denials,
}

-- peer is None or r.peer == peer
abbrev pub peer_or_any : Option String → RecordedMessage → Bool
peer_or_any none r = true
peer_or_any (some p) r = same_peer (some p) r

unfoldable pub injected_for : Option String → String → MessageRecorder → List RecordedMessage
injected_for peer msg_type r =
    filter
      (λ m. eq_direction bus_inject m.direction && (m.msg_type == msg_type && peer_or_any peer m))
      r.records

-- payload.get("data", {}), which is what is there under "data", None included
abbrev pub data_or_empty : Fields → Value
data_or_empty fs = elim (lookup "data" fs) [ none ↦ dict end | some v ↦ v ]

-- data.get("code", "")
abbrev pub code_or_empty : Value → Outcome Value
code_or_empty (dict fs) = ok (elim (lookup "code" fs) [ none ↦ text "" | some v ↦ v ])
code_or_empty _ = raise attribute_error

-- The two directions of `assert_acl_enforced`.
abbrev pub acl_verdict : Bool → Denials → List RecordedMessage → Outcome (Unit {0})
acl_verdict true denied injected = do
  require (is_empty denied) assertion_error
  require (not (is_empty injected)) assertion_error
acl_verdict false denied injected = require (not (is_empty denied)) assertion_error

module _ (types : HiveMessageType) where
  unfoldable pub assert_acl_enforced :
      MasterNode → SatelliteNode → String → Bool → Bool → Outcome (Unit {0})
  unfolding injected_for
  assert_acl_enforced master satellite msg_type allowed strict = do
    denied ← denied_records types satellite (some msg_type) strict
    acl_verdict allowed denied (injected_for satellite.peer msg_type master.recorder)

  module _ (str : Value → String) where
    -- for _, payload in denied_responses: … break
    unfoldable pub find_code : String → Denials → Outcome Bool
    find_code deny_code [] = ok false
    find_code deny_code ((r, payload) ∷ ds) =
        let rest = find_code deny_code ds in
        do
          code ← code_or_empty (data_or_empty payload)
          if str code == deny_code then ok true else rest

    abbrev pub check_code : Option String → Denials → Outcome (Unit {0})
    check_code none ds = ok tt
    check_code (some deny_code) ds = do
      found ← find_code deny_code ds
      require found assertion_error

    unfoldable pub assert_policy_denied :
        SatelliteNode → String → Option String → Bool → Outcome (Unit {0})
    unfolding find_code
    assert_policy_denied satellite msg_type deny_code strict = do
      denied ← denied_records types satellite (some msg_type) strict
      require (not (is_empty denied)) assertion_error
      check_code deny_code denied
