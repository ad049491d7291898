-- ===== src/Recorder/Lookup.antt =====
-- What the lookups of `MessageRecorder` see after a `record`.
use hivescope.Prelude.{
  ℕ, suc, ◌≡◌, refl, String, true, false, Option, none, some, List, [], ◌∷◌, ◌++◌, filter,
  filter-append, length-append, last?-snoc, last?, append-nil, any, any-append, arith,
  if◌then◌else◌, Bool-cases, inl, inr, All-filter, last?_All, last?_cons_some, ◌||◌,
}
use hivescope.Value.{Payload}
use hivescope.Recorder.{
  Direction, RecordedMessage, MessageRecorder, record_message, matches, find_all, find,
  assert_received,
}

abbrev pub entry : Direction → String → Payload → String → ℕ → RecordedMessage
entry direction msg_type payload peer now = record {
  direction = direction;
  msg_type = msg_type;
  payload = payload;
  peer = peer;
  timestamp = now;
}

module _ (d : Direction) (t : String) (p : Payload) (peer : String) (now : ℕ)
    (r : MessageRecorder) where
  pub find_all-record_message :
      (msg_type : String) (direction : Option Direction)
      → find_all msg_type direction (record_message d t p peer now r) ≡ (
          if matches msg_type direction (entry d t p peer now)
          then find_all msg_type direction r ++ entry d t p peer now ∷ []
          else find_all msg_type direction r)
  unfolding find_all record_message filter
  find_all-record_message msg_type direction = ground (
    arith,
    filter-append (matches msg_type direction) r.records (entry d t p peer now ∷ []),
    append-nil (find_all msg_type direction r),
  )

  -- A lookup after a record returns the new entry if it matches, and what it returned before if not.
  pub find-record_message :
      (msg_type : String) (direction : Option Direction)
      → find msg_type direction (record_message d t p peer now r) ≡ (
          if matches msg_type direction (entry d t p peer now)
          then some (entry d t p peer now)
          else find msg_type direction r)
  unfolding find
  find-record_message msg_type direction = ground (
    arith,
    find_all-record_message msg_type direction,
    last?-snoc (find_all msg_type direction r) (entry d t p peer now),
  )

  -- A matching record raises the count that `assert_received` accepts by one, and any other record
  -- leaves its verdict as it was.
  pub assert_received-record_message :
      (msg_type : String) (direction : Option Direction) (count : ℕ)
      → assert_received msg_type (suc count) direction (record_message d t p peer now r) ≡ (
          if matches msg_type direction (entry d t p peer now)
          then assert_received msg_type count direction r
          else assert_received msg_type (suc count) direction r)
  unfolding assert_received
  assert_received-record_message msg_type direction count = ground (
    arith,
    find_all-record_message msg_type direction,
    length-append (find_all msg_type direction r) (entry d t p peer now ∷ []),
  )

last?-any :
    (t : String) (d : Option Direction) (rs : List RecordedMessage)
    → last? (filter (matches t d) rs) ≡ none
    → any (matches t d) rs ≡ false
unfolding filter any
last?-any t d [] h = refl
last?-any t d (r ∷ rs) h = elim (Bool-cases (matches t d r)) [
  | inl e ↦ let (y, q) = last?_cons_some r (filter (matches t d) rs) in absurd (ground arith)
  | inr e ↦ rw e (last?-any t d rs (ground arith))
]

-- A lookup that finds nothing leaves no matching record.
pub any-find-none :
    (t : String) (d : Option Direction) (r : MessageRecorder)
    → find t d r ≡ none
    → any (matches t d) r.records ≡ false
unfolding find
any-find-none t d r h = last?-any t d r.records h

pub find-matches :
    (t : String) (d : Option Direction) (r : MessageRecorder) (m : RecordedMessage)
    → find t d r ≡ some m
    → matches t d m ≡ true
unfolding find
find-matches t d r m h =
    last?_All (λ x. matches t d x ≡ true) (filter (matches t d) r.records) m
      (All-filter (matches t d) r.records) h

pub any-record_message :
    (d : Direction) (t : String) (p : Payload) (peer : String) (now : ℕ) (r : MessageRecorder)
    (msg_type : String) (direction : Option Direction)
    → any (matches msg_type direction) (record_message d t p peer now r).records ≡ (
        any (matches msg_type direction) r.records
        || matches msg_type direction (entry d t p peer now))
unfolding record_message any
any-record_message d t p peer now r msg_type direction =
    ground (arith, any-append (matches msg_type direction) r.records (entry d t p peer now ∷ []))
