-- ===== src/Assertions/Blacklists.antt =====
-- `assert_session_blacklists_injected` of hivescope/assertions.py.
use Prim.Native.String.{[] as nil_text, ◌∷◌ as cons_text}
use hivescope.Prelude.{
  ℕ, ◌≡◌, refl, ap, ◌∙◌, String, Bool, true, false, ◌&&◌, ◌||◌, some, List, [], ◌∷◌, ◌==◌, any, all,
  filter, last?, arith, eq_iff, Bool-cases, inl, inr,
}
use hivescope.Prelude.Int.{pos}
use hivescope.Outcome.{Outcome, ok, raise, assertion_error, type_error, ◌>>=◌, require, or_raise}
use hivescope.Value.{
  Value, int, text, bytes, arr, dict, Items, nil, cons, Fields, end, field, Payload, message, get,
  or_else, value_get, is_text, texts, truthy,
}
use hivescope.Recorder.{RecordedMessage}
use hivescope.Assertions.{MasterNode, SatelliteNode, injected_by, contains}

abbrev pub characters : String → Items
characters nil_text = nil
characters (cons_text c s) = cons (text (cons_text c nil_text)) (characters s)

abbrev pub numbers : List ℕ → Items
numbers [] = nil
numbers (n ∷ ns) = cons (int (pos n)) (numbers ns)

abbrev pub field_names : Fields → Items
field_names end = nil
field_names (field k v fs) = cons (text k) (field_names fs)

-- list(v)
unfoldable pub list_of : Value → Outcome Items
list_of (arr vs) = ok vs
list_of (text s) = ok (characters s)
list_of (bytes ns) = ok (numbers ns)
list_of (dict fs) = ok (field_names fs)
list_of _ = raise type_error

-- s in actual
unfoldable pub listed : String → Items → Bool
listed s nil = false
listed s (cons v vs) = is_text s v || listed s vs

-- Nothing expected under the key is missing; with nothing expected, the session is not read.
unfoldable pub none_missing : String → List String → Value → Outcome Bool
unfolding list_of listed value_get or_else
none_missing key [] session = ok true
none_missing key (e ∷ expected) session = do
  actual ← value_get key session
  items ← list_of (or_else actual (arr nil))
  ok (all (λ s. listed s items) (e ∷ expected))

-- message.context.get("session") or {}, or {} for anything but a Message with a dict
unfoldable pub session_or_empty : Payload → Value
unfolding get or_else
session_or_empty (message m c (dict fs)) = or_else (get "session" fs) (dict end)
session_or_empty _ = dict end

unfoldable pub assert_session_blacklists_injected :
    MasterNode
    → SatelliteNode
    → String
    → (expected_skills expected_intents : List String) → Outcome (Unit {0})
unfolding injected_by session_or_empty none_missing
assert_session_blacklists_injected master satellite msg_type expected_skills expected_intents = do
  peer ← or_raise satellite.peer assertion_error
  entry ←
      or_raise
        (last? (filter (λ r. r.msg_type == msg_type) (injected_by (some peer) master.recorder)))
        assertion_error
  let session = session_or_empty entry.payload
  skills ← none_missing "blacklisted_skills" expected_skills session
  intents ← none_missing "blacklisted_intents" expected_intents session
  require (skills && intents) assertion_error

eq_flip : (s t : String) → (s == t) ≡ (t == s)
eq_flip s t = elim (Bool-cases (s == t)) [
  | inl e ↦ ground (arith, e, eq_iff s t, eq_iff t s)
  | inr e ↦ ground (arith, e, eq_iff s t, eq_iff t s)
]

listed-texts : (s : String) (xs : List String) → listed s (texts xs) ≡ contains s xs
unfolding listed contains any
listed-texts s [] = refl
listed-texts s (x ∷ xs) =
    ap (λ b. b || listed s (texts xs)) (eq_flip s x) ∙ ap (λ b. (x == s) || b) (listed-texts s xs)

all-listed :
    (expected xs : List String)
    → all (λ s. listed s (texts xs)) expected ≡ all (λ s. contains s xs) expected
unfolding all
all-listed [] xs = refl
all-listed (e ∷ expected) xs = rw (listed-texts e xs, all-listed expected xs) refl

list_of-texts : (xs : List String) → list_of (or_else (arr (texts xs)) (arr nil)) ≡ ok (texts xs)
unfolding list_of or_else truthy
list_of-texts [] = refl
list_of-texts (x ∷ xs) = refl

none_missing_lem :
    (key : String) (expected xs : List String) (session : Value)
    → value_get key session ≡ ok (arr (texts xs))
    → none_missing key expected session ≡ ok (all (λ s. contains s xs) expected)
unfolding none_missing all
none_missing_lem key [] xs session e = refl
none_missing_lem key (s ∷ expected) xs session e =
    rw (e, list_of-texts xs) (ap ok (all-listed (s ∷ expected) xs))

-- For a connected satellite whose last injected record of the type carries a session with a list of skills and
-- a list of intents, the check passes exactly when every skill and every intent that is expected is among
-- them.
assert_session_blacklists_injected_lem :
    (master : MasterNode) (satellite : SatelliteNode) (msg_type peer : String)
    (expected_skills expected_intents skills intents : List String) (entry : RecordedMessage)
    → satellite.peer ≡ some peer
    → last? (filter (λ r. r.msg_type == msg_type) (injected_by (some peer) master.recorder))
      ≡ some entry
    → value_get "blacklisted_skills" (session_or_empty entry.payload) ≡ ok (arr (texts skills))
    → value_get "blacklisted_intents" (session_or_empty entry.payload) ≡ ok (arr (texts intents))
    → assert_session_blacklists_injected master satellite msg_type expected_skills expected_intents
      ≡ require
          (all (λ s. contains s skills) expected_skills
            && all (λ i. contains i intents) expected_intents)
          assertion_error
unfolding assert_session_blacklists_injected
assert_session_blacklists_injected_lem master satellite msg_type peer expected_skills
      expected_intents skills intents entry connected last has_skills has_intents =
    rw
      (
        connected,
        last,
        none_missing_lem "blacklisted_skills" expected_skills skills _ has_skills,
        none_missing_lem "blacklisted_intents" expected_intents intents _ has_intents,
      )
      refl
