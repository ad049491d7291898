-- ===== src/Assertions/Rounds/Queries.antt =====
-- `assert_query_routed` of hivescope/assertions.py against a description of the records.
use hivescope.Prelude.{
  ℕ, ◌≡◌, refl, Bool, true, false, ◌&&◌, Option, none, some, List, [], ◌∷◌, ◌==◌, filter, length,
  nat_eq, leb, All, arith,
}
use hivescope.Outcome.{ok, assertion_error, require}
use hivescope.Value.{
  Payload, plain, Value, message, end, lookup, dict_or_empty, null, bool, int, text, bytes, arr,
  dict, get,
}
use hivescope.Recorder.{inbound, eq_direction, RecordedMessage, find_all, matches}
use hivescope.Assertions.{HiveMessageType, MasterNode, SatelliteNode, contains, inner_payload}
use hivescope.Assertions.Rounds.{
  since_mark, is_answer_type, nested, count_answers, assert_query_routed,
}

-- A value that can be looked for in a set.
abbrev pub is_hashable : Value → Bool
is_hashable (arr vs) = false
is_hashable (dict fs) = false
is_hashable v = true

abbrev pub names_answer : Value → Bool
names_answer (text t) = contains t ("speak" ∷ "hive.query.complete" ∷ "hive.query.timeout" ∷ [])
names_answer v = false

is_answer_type_lem : (v : Value) → is_hashable v ≡ true → is_answer_type v ≡ ok (names_answer v)
is_answer_type_lem null h = refl
is_answer_type_lem (bool b) h = refl
is_answer_type_lem (int n) h = refl
is_answer_type_lem (text t) h = refl
is_answer_type_lem (bytes bs) h = refl
is_answer_type_lem (arr vs) h = absurd (cc)
is_answer_type_lem (dict fs) h = absurd (cc)

-- No mark is given, or the time is not before it.
abbrev pub is_recent : Option ℕ → ℕ → Bool
is_recent none time = true
is_recent (some mark) time = leb mark time

-- The "type" in the "payload" of a payload, where both are dicts.
unfoldable pub inner_type : Payload → Value
inner_type (plain (dict fs)) = elim (get "payload" fs) [ dict gs ↦ get "type" gs | _ ↦ null ]
inner_type _ = null

module _ (types : HiveMessageType) where
  -- A QUERY record that came in, not before the mark.
  abbrev pub is_request : Option ℕ → RecordedMessage → Bool
  is_request since r =
      eq_direction inbound r.direction && r.msg_type == types.query && is_recent since r.timestamp

  -- One with the type of an answer inside.
  abbrev pub is_answer : Option ℕ → RecordedMessage → Bool
  is_answer since r = is_request since r && names_answer (inner_type r.payload)

  at_type :
      (v : Value) → get "type" (dict_or_empty v) ≡ elim v [ dict gs ↦ get "type" gs | _ ↦ null ]
  unfolding get lookup
  at_type (dict fs) = refl
  at_type null = refl
  at_type (bool b) = refl
  at_type (int n) = refl
  at_type (text t) = refl
  at_type (bytes bs) = refl
  at_type (arr vs) = refl

  in_payload :
      (p : Payload)
      → get "type" (
          dict_or_empty
            (get "payload" (elim p [ plain v ↦ dict_or_empty v | message m c x ↦ end ])))
        ≡ inner_type p
  unfolding inner_type get lookup
  in_payload (plain (dict fs)) = at_type (get "payload" fs)
  in_payload (plain null) = refl
  in_payload (plain (bool b)) = refl
  in_payload (plain (int n)) = refl
  in_payload (plain (text t)) = refl
  in_payload (plain (bytes bs)) = refl
  in_payload (plain (arr vs)) = refl
  in_payload (message m c x) = refl

  inner_type_lem : (r : RecordedMessage) → get "type" (nested r) ≡ inner_type r.payload
  unfolding nested inner_payload
  inner_type_lem r = in_payload r.payload

  count_answers_lem :
      (since : Option ℕ) (rs : List RecordedMessage)
      → All (λ r. is_request since r ≡ true → is_hashable (inner_type r.payload) ≡ true) rs
      → count_answers types (since_mark since rs) ≡ ok (length (filter (is_answer since) rs))
  unfolding count_answers filter
  count_answers_lem none [] h = refl
  count_answers_lem none (r ∷ rs) h = ground (
    arith,
    is_answer_type_lem (inner_type r.payload),
    inner_type_lem r,
    h.0,
    count_answers_lem none rs h.1,
  )
  count_answers_lem (some mark) [] h = refl
  count_answers_lem (some mark) (r ∷ rs) h = ground (
    arith,
    is_answer_type_lem (inner_type r.payload),
    inner_type_lem r,
    h.0,
    count_answers_lem (some mark) rs h.1,
  )

  requests :
      (since : Option ℕ) (rs : List RecordedMessage)
      → since_mark since (filter (matches types.query (some inbound)) rs)
        ≡ filter (is_request since) rs
  unfolding filter matches
  requests none [] = refl
  requests none (r ∷ rs) = ground (arith, requests none rs)
  requests (some mark) [] = refl
  requests (some mark) (r ∷ rs) = ground (arith, requests (some mark) rs)

  -- Where no inbound QUERY record of the satellite since the mark has a list or a dict for the type inside:
  -- `assert_query_routed` passes exactly when the master has as many inbound QUERY records that are not before
  -- the mark as are asked for, from any peer, and the satellite at least as many of them with the type of an
  -- answer inside. Else it raises AssertionError. Without a mark every record counts.
  pub assert_query_routed_lem :
      (master : MasterNode) (satellite : SatelliteNode) (count : ℕ) (since : Option ℕ)
      → All
          (λ r. is_request since r ≡ true → is_hashable (inner_type r.payload) ≡ true)
          satellite.recorder.records
      → assert_query_routed types master satellite count since
        ≡ require
            (nat_eq (length (filter (is_request since) master.recorder.records)) count
              && leb count (length (filter (is_answer since) satellite.recorder.records)))
            assertion_error
  unfolding assert_query_routed find_all
  assert_query_routed_lem master satellite count since h =
      rw
        (
          requests since master.recorder.records,
          count_answers_lem since satellite.recorder.records h,
        )
        (ground arith)
