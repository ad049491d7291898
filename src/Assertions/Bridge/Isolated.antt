-- ===== src/Assertions/Bridge/Isolated.antt =====
-- `assert_sessions_isolated` of hivescope/assertions.py.
use Prim.Native.Char.{code}
use Prim.Native.String.{◌++◌ as join, [] as nil_text, ◌∷◌ as cons_text}
use package.text.Mathlib.TextLemmas.{nil-append, cons-append, append_assoc, append_cancel_left}
use hivescope.Prelude.{
  ◌≡◌, ◌≢◌, refl, eq_iff, sym, ap, ◌∙◌, String, Bool, true, false, ◌||◌, Option, none, some, List,
  [], ◌∷◌, ◌==◌, any, nat_eq, length, map, if◌then◌else◌, eq_refl,
}
use hivescope.Outcome.{
  Outcome, ok, raise, assertion_error, attribute_error, ◌>>=◌, ◌>>◌, require, or_raise,
}
use hivescope.Value.{Value, text, or_else, value_get}
use hivescope.Recorder.{RecordedMessage}
use hivescope.Dict.{Dict, set_item, values}
use hivescope.Assertions.{MasterNode, SatelliteNode, injected_by}
use hivescope.Assertions.Bridge.{session_of, natted}

-- s.endswith(suffix)
unfoldable pub ends_with : String → String → Bool
ends_with suffix nil_text = nil_text == suffix
ends_with suffix (cons_text c s) = cons_text c s == suffix || ends_with suffix s

-- s.split(":", 1)[0]
unfoldable pub prefix : String → String
prefix nil_text = ""
prefix (cons_text c s) =
    let rest = prefix s in if nat_eq (code c) b':' then "" else cons_text c rest

-- What `.endswith` is called on.
abbrev pub as_text : Value → Outcome String
as_text (text s) = ok s
as_text v = raise attribute_error

-- session.get("session_id") or ""
unfoldable pub id_of : RecordedMessage → Outcome String
unfolding session_of value_get or_else
id_of r = do
  session ← session_of r.payload
  id ← value_get "session_id" session
  as_text (or_else id (text ""))

-- The id of the first record whose id ends with the suffix.
unfoldable pub match_id : String → List RecordedMessage → Outcome (Option String)
unfolding id_of ends_with
match_id suffix [] = ok none
match_id suffix (r ∷ rs) =
    let rest = match_id suffix rs in
    do id ← id_of r; if ends_with suffix id then ok (some id) else rest

unfoldable pub layer1_by_declared :
    List RecordedMessage → List String → Dict String → Outcome (Dict String)
unfolding match_id
layer1_by_declared records [] ids = ok ids
layer1_by_declared records (declared ∷ rest) ids = do
  found ← match_id (join ":" declared) records
  id ← or_raise found assertion_error
  layer1_by_declared records rest (set_item declared id ids)

-- set(xs)
unfoldable pub distinct : List String → List String
distinct [] = []
distinct (x ∷ xs) = let rest = distinct xs in if any (λ y. x == y) rest then rest else x ∷ rest

unfoldable pub check_ids : List String → List String → Outcome (Unit {0})
unfolding distinct prefix
check_ids declared_ids ids = do
  require (nat_eq (length (distinct ids)) (length declared_ids)) assertion_error
  require (nat_eq (length (distinct (map prefix ids))) 1) assertion_error

unfoldable pub assert_sessions_isolated :
    MasterNode → SatelliteNode → List String → Outcome (Unit {0})
unfolding layer1_by_declared check_ids injected_by
assert_sessions_isolated master satellite declared_ids = do
  ids ← layer1_by_declared (injected_by satellite.peer master.recorder) declared_ids []
  check_ids declared_ids (values ids)

-- A text ends with what was joined to it.
ends_with-join : (s suffix : String) → ends_with suffix (join s suffix) ≡ true
unfolding ends_with
ends_with-join nil_text nil_text = refl
ends_with-join nil_text (cons_text c s) =
    ap (ends_with (cons_text c s)) (nil-append (cons_text c s)) ∙ rw (eq_refl (cons_text c s)) refl
ends_with-join (cons_text c s) suffix =
    ap (ends_with suffix) (cons-append c s suffix) ∙ or_right _ (ends_with-join s suffix)
  where
    or_right : (a : Bool) {b : Bool} → b ≡ true → (a || b) ≡ true
    or_right true h = refl
    or_right false h = h

ends_later :
    (namespace a b : String)
    → ends_with (join ":" b) (natted namespace (join a (join ":" b))) ≡ true
ends_later namespace a b =
    let regroup : natted namespace (join a (join ":" b))
        ≡ join (join namespace (join ":" a)) (join ":" b) =
      ap (join namespace) (sym (append_assoc ":" a (join ":" b)))
      ∙ sym (append_assoc namespace (join ":" a) (join ":" b)) in
    ap (ends_with (join ":" b)) regroup ∙ ends_with-join (join namespace (join ":" a)) (join ":" b)

module _ (first second : RecordedMessage) (id : String) (first_id : id_of first ≡ ok id) where
  first_found :
      (suffix : String)
      → ends_with suffix id ≡ true
      → match_id suffix (first ∷ second ∷ []) ≡ ok (some id)
  unfolding match_id
  first_found suffix e = rw (first_id, e) refl

  both_first :
      (x y : String)
      → (x == y) ≡ false
      → ends_with (join ":" x) id ≡ true
      → ends_with (join ":" y) id ≡ true
      → layer1_by_declared (first ∷ second ∷ []) (x ∷ y ∷ []) [] ≡ ok ((x, id) ∷ (y, id) ∷ [])
  unfolding layer1_by_declared set_item
  both_first x y apart e f = rw (first_found (join ":" x) e, first_found (join ":" y) f, apart) refl

same_ids_refused : (x y id : String) → check_ids (x ∷ y ∷ []) (id ∷ id ∷ []) ≡ raise assertion_error
unfolding check_ids distinct any
same_ids_refused x y id = rw (eq_refl id) refl

-- If a satellite has declared two ids of which one is the other behind a prefix and a colon, and the first of
-- its two records carries the longer one, each behind the namespace of the connection, the check fails,
-- although the two sessions that reached the bus have different ids.
pub isolated_refused :
    (master : MasterNode) (satellite : SatelliteNode) (namespace a b : String)
    (first second : RecordedMessage)
    → injected_by satellite.peer master.recorder ≡ first ∷ second ∷ []
    → id_of first ≡ ok (natted namespace (join a (join ":" b)))
    → id_of second ≡ ok (natted namespace b)
    → (join a (join ":" b) == b) ≡ false
    → (assert_sessions_isolated master satellite (join a (join ":" b) ∷ b ∷ [])
        ≡ raise assertion_error)
      × (natted namespace (join a (join ":" b)) ≢ natted namespace b)
unfolding assert_sessions_isolated
isolated_refused master satellite namespace a b first second recorded first_id second_id apart =
    let id = natted namespace (join a (join ":" b)) in
    (
      rw
          (
            recorded,
            both_first first second id first_id (join a (join ":" b)) b apart
                (ends_with-join namespace (join ":" (join a (join ":" b))))
                (ends_later namespace a b),
          )
          (same_ids_refused (join a (join ":" b)) b id),
      λ same.
          let tails : join ":" (join a (join ":" b)) ≡ join ":" b =
            append_cancel_left namespace (join ":" (join a (join ":" b))) (join ":" b) same in
          let equal : join a (join ":" b) ≡ b =
            append_cancel_left ":" (join a (join ":" b)) b tails in
          absurd (let yes = (eq_iff (join a (join ":" b)) b).1 equal in cc),
    )
