-- ===== src/Assertions/Echoes.antt =====
-- What a denial in the records of hivescope/assertions.py says, described by its payload.
use hivescope.Prelude.{
  ◌≡◌, refl, ap, ◌∙◌, String, Bool, true, false, [], ◌∷◌, ◌&&◌, ◌==◌, if◌then◌else◌, Bool-cases,
  inl, inr, arith,
}
use hivescope.Outcome.{Outcome, ok, raise, passes, attribute_error}
use hivescope.Value.{
  Value, null, bool, int, text, bytes, arr, dict, nil, cons, Fields, end, field, Payload, plain,
  message, get, lookup, truthy, is_text, or_else, dict_or_empty,
}
use hivescope.Recorder.{RecordedMessage, inbound, eq_direction}
use hivescope.Assertions.{
  HiveMessageType, inner_payload, denial_data, reported, is_policy_denied, is_denial,
}

-- The first of the three that holds.
abbrev pub first_type : Value → Value → Value → Value
first_type denied_type msg_type type =
    if truthy denied_type then denied_type else if truthy msg_type then msg_type else type

-- The type that the data of a denial echoes.
abbrev pub echoed : Value → Value
echoed (dict fs) = first_type (get "denied_type" fs) (get "msg_type" fs) (get "type" fs)
echoed v = null

-- The payload is a denial, whose data echo the type.
unfoldable pub denies : String → Payload → Bool
denies t (plain (dict fs)) =
    is_text "hive.policy.denied" (get "type" fs) && is_text t (echoed (get "data" fs))
denies t p = false

-- The data are a dict, or None.
abbrev pub is_record : Value → Bool
is_record null = true
is_record (dict fs) = true
is_record v = false

unfoldable pub is_readable : Payload → Bool
is_readable (plain (dict fs)) = is_record (get "data" fs)
is_readable p = true

-- The type by which a denial is sorted, on the data that can be read.
abbrev pub sorted_by : String → Outcome Fields → Bool
sorted_by t (ok fs) = is_text t (reported fs)
sorted_by t (raise e) = false

reported_first : (d m u : Value) → or_else (or_else d m) u ≡ first_type d m u
unfolding or_else
reported_first d m u = elim (Bool-cases (truthy d)) [ inl e ↦ rw (e, e) refl | inr e ↦ rw e refl ]

data_echoed :
    (t : String) (v : Value)
    → sorted_by t (elim (or_else v (dict end)) [ dict gs ↦ ok gs | _ ↦ raise attribute_error ])
      ≡ is_text t (echoed v)
unfolding or_else truthy reported get lookup
data_echoed t null = refl
data_echoed t (bool true) = refl
data_echoed t (bool false) = refl
data_echoed t (int n) = elim (Bool-cases (truthy (int n))) [ inl e ↦ rw e refl | inr e ↦ rw e refl ]
data_echoed t (text s) = elim (Bool-cases (s == "")) [ inl e ↦ rw e refl | inr e ↦ rw e refl ]
data_echoed t (bytes []) = refl
data_echoed t (bytes (n ∷ ns)) = refl
data_echoed t (arr nil) = refl
data_echoed t (arr (cons v vs)) = refl
data_echoed t (dict end) = refl
data_echoed t (dict (field k v fs)) = ap (is_text t) (
    reported_first (get "denied_type" (field k v fs)) (get "msg_type" (field k v fs))
      (get "type" (field k v fs)))

inner_denies :
    (t : String) (p : Payload)
    → let fs : Fields = elim p [ plain v ↦ dict_or_empty v | message m c x ↦ end ] in
      (is_text "hive.policy.denied" (get "type" fs) && sorted_by t (denial_data fs)) ≡ denies t p
unfolding denies denial_data get lookup
inner_denies t (plain (dict fs)) =
    ap (λ b. is_text "hive.policy.denied" (get "type" fs) && b) (data_echoed t (get "data" fs))
inner_denies t (plain null) = refl
inner_denies t (plain (bool b)) = refl
inner_denies t (plain (int n)) = refl
inner_denies t (plain (text s)) = refl
inner_denies t (plain (bytes ns)) = refl
inner_denies t (plain (arr vs)) = refl
inner_denies t (message m c x) = refl

and_assoc : (a b c d : Bool) → ((a && b && c) && d) ≡ (a && b && (c && d))
and_assoc a b c d = ground arith

data_passes :
    (v : Value)
    → is_record v ≡ true
    → passes (elim (or_else v (dict end)) [ dict gs ↦ ok gs | _ ↦ raise attribute_error ]) ≡ true
unfolding or_else truthy
data_passes null h = refl
data_passes (dict end) h = refl
data_passes (dict (field k v fs)) h = refl
data_passes (bool b) h = absurd (cc)
data_passes (int n) h = absurd (cc)
data_passes (text s) h = absurd (cc)
data_passes (bytes ns) h = absurd (cc)
data_passes (arr vs) h = absurd (cc)

payload_passes :
    (p : Payload)
    → is_readable p ≡ true
    → passes (denial_data (elim p [ plain v ↦ dict_or_empty v | message m c x ↦ end ])) ≡ true
unfolding is_readable denial_data or_else truthy get lookup
payload_passes (plain (dict fs)) h = data_passes (get "data" fs) h
payload_passes (plain null) h = refl
payload_passes (plain (bool b)) h = refl
payload_passes (plain (int n)) h = refl
payload_passes (plain (text s)) h = refl
payload_passes (plain (bytes ns)) h = refl
payload_passes (plain (arr vs)) h = refl
payload_passes (message m c x) h = refl

pub readable :
    (r : RecordedMessage)
    → is_readable r.payload ≡ true
    → passes (denial_data (inner_payload r)) ≡ true
unfolding is_readable denial_data inner_payload
readable r h = payload_passes r.payload h

module _ (types : HiveMessageType) where
  -- A BUS record that came in, of a denial that echoes the type.
  unfoldable pub echoes : String → RecordedMessage → Bool
  unfolding denies
  echoes t r = eq_direction inbound r.direction && r.msg_type == types.bus && denies t r.payload

  pub denial_echoes :
      (t : String) (r : RecordedMessage)
      → (is_denial types r && sorted_by t (denial_data (inner_payload r))) ≡ echoes t r
  unfolding is_denial is_policy_denied inner_payload echoes denies denial_data
  denial_echoes t r =
      and_assoc (eq_direction inbound r.direction) (r.msg_type == types.bus) _ _
      ∙ ap (λ b. eq_direction inbound r.direction && r.msg_type == types.bus && b)
          (inner_denies t r.payload)
