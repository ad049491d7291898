-- ===== src/Assertions/Typed.antt =====
-- What the policy helpers of hivescope/assertions.py decide, against a description of the records.
use hivescope.Prelude.{
  ◌≡◌, refl, ap, ◌∙◌, String, Bool, true, false, not, ◌&&◌, Option, none, some, List, [], ◌∷◌,
  filter, any, All, is_empty, arith, Bool-cases, inl, inr, ◌==◌,
}
use hivescope.Outcome.{Outcome, ok, raise, assertion_error, value_error, passes, require}
use hivescope.Value.{Value, null, text, dict, Fields, is_text}
use hivescope.Recorder.{MessageRecorder, RecordedMessage, bus_inject, eq_direction}
use hivescope.Assertions.{
  HiveMessageType, MasterNode, SatelliteNode, Denials, inner_payload, denial_data, denial_about,
  reported, classify, is_denial, sort_denials, denied_records, put, is_type_value,
}
use hivescope.Assertions.Echoes.{sorted_by, is_readable, readable, echoes, denial_echoes}
use hivescope.Assertions.Policy.{injected_for, assert_acl_enforced, assert_policy_denied}

Outcome-cases {ℓ} : {A : Type ℓ} (o : Outcome A) → passes o ≡ true → (a : A) × (o ≡ ok a)
Outcome-cases (ok a) h = (a, refl)
Outcome-cases (raise e) h = absurd (cc)

module _ (types : HiveMessageType) where
  -- The record is sorted with the denials of the type.
  unfoldable sorted_under : String → RecordedMessage → Bool
  sorted_under t r = is_denial types r && sorted_by t (denial_data (inner_payload r))

  -- The data of every denial decode.
  abbrev Decodes : List RecordedMessage → Type 0
  Decodes = All (λ r. is_denial types r ≡ true → passes (denial_data (inner_payload r)) ≡ true)

  -- The data of every payload with a "data" in it are a dict, or None.
  abbrev pub IsReadable : List RecordedMessage → Type 0
  IsReadable = All (λ r. is_readable r.payload ≡ true)

  IsReadable-Decodes : (rs : List RecordedMessage) → IsReadable rs → Decodes rs
  IsReadable-Decodes [] h = tt
  IsReadable-Decodes (r ∷ rs) h = ((λ d. readable r h.0), IsReadable-Decodes rs h.1)

  under_echoes : (t : String) → sorted_under t ≡ echoes types t
  unfolding sorted_under
  under_echoes t = λ i. λ r. denial_echoes types t r i

  put_about :
      (t : String) (v : Value) (d : RecordedMessage × Fields) (lists : Denials × Denials)
      → is_empty (put (denial_about t v) d lists).0 ≡ (not (is_text t v) && is_empty lists.0)
  put_about t null d (ts, us) = refl
  put_about t (Value.bool b) d (ts, us) = refl
  put_about t (Value.int n) d (ts, us) = refl
  put_about t (text s) d (ts, us) = elim (Bool-cases (t == s)) [
    | inl e ↦ rw e refl
    | inr e ↦ rw e refl
  ]
  put_about t (Value.bytes s) d (ts, us) = refl
  put_about t (Value.arr s) d (ts, us) = refl
  put_about t (dict s) d (ts, us) = refl

  sort_under :
      (t : String) (rs : List RecordedMessage)
      → Decodes rs
      → (lists : Denials × Denials) × (sort_denials types (some t) rs ≡ ok lists)
        × (is_empty lists.0 ≡ not (any (sorted_under t) rs))
  unfolding sort_denials classify sorted_under any
  sort_under t [] h = (([], []), refl, refl)
  sort_under t (r ∷ rs) h =
      let (lists, sorted, empty) = sort_under t rs h.1 in
      elim (Bool-cases (is_denial types r)) [
        | inl d ↦
            let (fs, read) = Outcome-cases (denial_data (inner_payload r)) (h.0 d) in
            (
              put (denial_about t (reported fs)) (r, inner_payload r) lists,
              rw (d, read, sorted) refl,
              rw (d, read) (put_about t (reported fs) (r, inner_payload r) lists ∙ ground arith),
            )
        | inr d ↦ (lists, rw (d, sorted) refl, rw d empty)
      ]

  sort_typed :
      (t : String) (rs : List RecordedMessage)
      → IsReadable rs
      → (lists : Denials × Denials) × (sort_denials types (some t) rs ≡ ok lists)
        × (is_empty lists.0 ≡ not (any (echoes types t) rs))
  sort_typed t rs h =
      let (lists, sorted, empty) = sort_under t rs (IsReadable-Decodes rs h) in
      (lists, sorted, empty ∙ ap (λ p. not (any p rs)) (under_echoes t))

  any-filter {ℓ} :
      {A : Type ℓ} (p : A → Bool) (xs : List A) → not (is_empty (filter p xs)) ≡ any p xs
  unfolding filter any
  any-filter p [] = refl
  any-filter p (x ∷ xs) = ground (arith, any-filter p xs)

  -- From the peer, if there is one.
  abbrev pub is_from : Option String → RecordedMessage → Bool
  is_from none m = true
  is_from (some p) m = m.peer == p

  -- A `bus_inject` record of the type, from the peer if there is one.
  abbrev pub injects : Option String → String → RecordedMessage → Bool
  injects peer t m = eq_direction bus_inject m.direction && (m.msg_type == t && is_from peer m)

  injected_any :
      (peer : Option String) (t : String) (r : MessageRecorder)
      → not (is_empty (injected_for peer t r)) ≡ any (injects peer t) r.records
  unfolding injected_for
  injected_any none t r = any-filter (injects none t) r.records
  injected_any (some p) t r = any-filter (injects (some p) t) r.records

  -- In strict mode, where the type is no envelope type, and what is under "data" in the satellite's records is a
  -- dict or None: `allowed=False` passes exactly when some denial that came in at the satellite on the BUS type
  -- echoes the type, and `allowed=True` exactly when none does and the master recorded an injection of the type
  -- from the satellite's peer. Neither raises anything but AssertionError. `allowed=False` does not look at the
  -- injections.
  pub assert_acl_enforced_lem :
      (master : MasterNode) (satellite : SatelliteNode) (t : String)
      → is_type_value types (some t) ≡ false
      → IsReadable satellite.recorder.records
      → (assert_acl_enforced types master satellite t false true
          ≡ require (any (echoes types t) satellite.recorder.records) assertion_error)
        × (assert_acl_enforced types master satellite t true true
            ≡ require
                (not (any (echoes types t) satellite.recorder.records)
                  && any (injects satellite.peer t) master.recorder.records)
                assertion_error)
  unfolding assert_acl_enforced denied_records
  assert_acl_enforced_lem master satellite t n h =
      let (lists, sorted, empty) = sort_typed t satellite.recorder.records h in
      let inj = injected_any satellite.peer t master.recorder in
      (rw (n, sorted) (rw empty (ground arith)), rw (n, sorted) (rw (empty, inj) (ground arith)))

  -- A type given by its envelope's value is refused with ValueError by both policy helpers, whatever
  -- was recorded.
  pub envelope_type_refused :
      (str : Value → String) (master : MasterNode) (satellite : SatelliteNode) (t : String)
      (allowed strict : Bool) (code : Option String)
      → is_type_value types (some t) ≡ true
      → (assert_acl_enforced types master satellite t allowed strict ≡ raise value_error)
        × (assert_policy_denied types str satellite t code strict ≡ raise value_error)
  unfolding assert_acl_enforced assert_policy_denied denied_records
  envelope_type_refused str master satellite t allowed strict code h = (rw h refl, rw h refl)
