-- ===== src/Assertions/Bridge/Baseline.antt =====
-- `assert_session_contents_merged_over_baseline` of hivescope/assertions.py. `signature` is what
-- `_location_signature` reads of a location through the `Session` of ovos_bus_client.
use hivescope.Prelude.{
  ◌≡◌, refl, ap, String, Bool, true, false, not, ◌&&◌, ◌==◌, if◌then◌else◌, arith, Bool-cases, inl,
  inr,
}
use hivescope.Outcome.{Outcome, ok, assertion_error, value_error, ◌>>=◌, ◌>>◌, require}
use hivescope.Value.{Value, Fields, end, field, lookup, value_get, eq_value}
use hivescope.Assertions.{MasterNode, SatelliteNode}
use hivescope.Assertions.Bridge.{
  has_field, session_of, last_injected, fields_agree, assert_session_inbound_preserved,
}

module _ (signature : Value → Outcome Value) where
  abbrev pub same_location : Value → Value → Outcome Bool
  same_location actual expected = do s ← signature actual; t ← signature expected; ok (eq_value s t)

  -- actual_val is what is expected of the field
  abbrev pub field_agrees : String → Value → Value → Outcome Bool
  field_agrees key actual expected =
      if key == "location" then same_location actual expected else ok (eq_value actual expected)

  unfoldable pub baseline_agrees : Fields → Value → Outcome Bool
  unfolding value_get eq_value
  baseline_agrees end session = ok true
  baseline_agrees (field key expected fs) session =
      let rest = baseline_agrees fs session in
      do
        actual ← value_get key session
        agrees ← field_agrees key actual expected
        others ← rest
        ok (agrees && others)

  unfoldable pub assert_session_contents_merged_over_baseline :
      MasterNode → SatelliteNode → Fields → Outcome (Unit {0})
  unfolding session_of baseline_agrees last_injected
  assert_session_contents_merged_over_baseline master satellite expected_baseline = do
    require (not (has_field "session_id" expected_baseline)) value_error
    entry ← last_injected master satellite
    session ← session_of entry.payload
    agree ← baseline_agrees expected_baseline session
    require agree assertion_error

  baseline_agrees_plain :
      (fs : Fields) (session : Value)
      → has_field "location" fs ≡ false
      → baseline_agrees fs session ≡ fields_agree fs session
  unfolding baseline_agrees fields_agree lookup
  baseline_agrees_plain end session h = refl
  baseline_agrees_plain (field k v fs) session h = elim (Bool-cases (k == "location")) [
    | inl e ↦ absurd (ground arith)
    | inr e ↦ rw (e, baseline_agrees_plain fs session (ground arith)) refl
  ]

  -- On a baseline without "location", the check of the merged contents is the check of the preserved session.
  pub merged_preserved :
      (master : MasterNode) (satellite : SatelliteNode) (baseline : Fields)
      → has_field "location" baseline ≡ false
      → assert_session_contents_merged_over_baseline master satellite baseline
        ≡ assert_session_inbound_preserved master satellite baseline
  unfolding assert_session_contents_merged_over_baseline assert_session_inbound_preserved
  merged_preserved master satellite baseline h =
      ap
        (λ (agrees : Value → Outcome Bool). do
          require (not (has_field "session_id" baseline)) value_error
          entry ← last_injected master satellite
          session ← session_of entry.payload
          agree ← agrees session
          require agree assertion_error)
        (λ i. λ session. baseline_agrees_plain baseline session h i)
