-- ===== src/Assertions/Bridge/Sources.antt =====
-- `assert_source_stamped` of hivescope/assertions.py.
use hivescope.Prelude.{
  ◌≡◌, refl, String, Bool, true, false, not, ◌&&◌, ◌||◌, List, [], ◌∷◌, ◌==◌, any, all, map,
  if◌then◌else◌, is_empty, arith, eq_iff, Bool-cases, inl, inr,
}
use hivescope.Outcome.{Outcome, ok, assertion_error, type_error, ◌>>=◌, ◌>>◌, require}
use hivescope.Value.{Value, null, text, arr, dict, end, or_else, value_get, truthy, eq_value}
use hivescope.Recorder.{RecordedMessage, MessageRecorder}
use hivescope.Assertions.{MasterNode, SatelliteNode, injected_by}
use hivescope.Assertions.Bridge.{context_of}

-- (getattr(msg, "context", {}) or {}).get("source")
unfoldable pub source_of : RecordedMessage → Outcome Value
unfolding or_else value_get
source_of r = value_get "source" (or_else (context_of r.payload) (dict end))

-- A list or a dict cannot be added to a set.
abbrev pub hashable : Value → Bool
hashable (arr vs) = false
hashable (dict fs) = false
hashable v = true

unfoldable pub read_sources : List RecordedMessage → Outcome (List Value)
unfolding source_of truthy
read_sources [] = ok []
read_sources (r ∷ rs) =
    let rest = read_sources rs in
    do
      source ← source_of r
      require (not (truthy source) || hashable source) type_error
      sources ← rest
      ok (source ∷ sources)

-- len(sources) <= 1
unfoldable pub stable : List Value → Bool
unfolding eq_value
stable [] = true
stable (v ∷ vs) = all (eq_value v) vs

abbrev pub first_or_null : List Value → Value
first_or_null [] = null
first_or_null (v ∷ vs) = v

-- The loop over the records of another satellite, up to its break.
unfoldable pub collides : Value → List RecordedMessage → Outcome Bool
unfolding source_of truthy eq_value
collides mine [] = ok false
collides mine (r ∷ rs) =
    let rest = collides mine rs in
    do source ← source_of r; if truthy source && eq_value source mine then ok true else rest

unfoldable pub any_collides : Value → MessageRecorder → List SatelliteNode → Outcome Bool
unfolding collides injected_by
any_collides mine recorder [] = ok false
any_collides mine recorder (other ∷ others) =
    let rest = any_collides mine recorder others in
    do found ← collides mine (injected_by other.peer recorder); later ← rest; ok (found || later)

unfoldable pub assert_source_stamped :
    MasterNode → SatelliteNode → List SatelliteNode → Outcome (Unit {0})
unfolding read_sources stable any_collides injected_by truthy
assert_source_stamped master satellite other_satellites = do
  let my_records = injected_by satellite.peer master.recorder
  require (not (is_empty my_records)) assertion_error
  sources ← read_sources my_records
  require (all truthy sources && stable sources) assertion_error
  collision ← any_collides (first_or_null sources) master.recorder other_satellites
  require (not collision) assertion_error

-- The records' sources are the given texts.
abbrev HasSources : List RecordedMessage → List String → Type 0
HasSources [] [] = Unit
HasSources (r ∷ rs) (u ∷ us) = (source_of r ≡ ok (text u)) × HasSources rs us
HasSources _ _ = ⊥

-- So are those of each of the other satellites.
abbrev OthersHave : MessageRecorder → List SatelliteNode → List (List String) → Type 0
OthersHave recorder [] [] = Unit
OthersHave recorder (o ∷ os) (us ∷ uss) =
    HasSources (injected_by o.peer recorder) us × OthersHave recorder os uss
OthersHave recorder _ _ = ⊥

read_sources_text :
    (rs : List RecordedMessage) (us : List String)
    → HasSources rs us
    → read_sources rs ≡ ok (map text us)
unfolding read_sources
read_sources_text [] [] h = refl
read_sources_text [] (u ∷ us) h = elim h [ ]
read_sources_text (r ∷ rs) [] h = elim h [ ]
read_sources_text (r ∷ rs) (u ∷ us) h = rw (h.0, read_sources_text rs us h.1) (ground arith)

collides_text :
    (t : String) (rs : List RecordedMessage) (us : List String)
    → (t == "") ≡ false
    → HasSources rs us
    → collides (text t) rs ≡ ok (any (λ u. u == t) us)
unfolding collides any truthy eq_value
collides_text t [] [] n h = refl
collides_text t [] (u ∷ us) n h = elim h [ ]
collides_text t (r ∷ rs) [] n h = elim h [ ]
collides_text t (r ∷ rs) (u ∷ us) n h =
    rw (h.0, collides_text t rs us n h.1) (ground (arith, eq_iff u t, eq_iff u "", eq_iff t ""))

any_collides_text :
    (t : String) (recorder : MessageRecorder) (os : List SatelliteNode) (uss : List (List String))
    → (t == "") ≡ false
    → OthersHave recorder os uss
    → any_collides (text t) recorder os ≡ ok (any (any (λ u. u == t)) uss)
unfolding any_collides any
any_collides_text t recorder [] [] n h = refl
any_collides_text t recorder [] (us ∷ uss) n h = elim h [ ]
any_collides_text t recorder (o ∷ os) [] n h = elim h [ ]
any_collides_text t recorder (o ∷ os) (us ∷ uss) n h =
    rw
      (
        collides_text t (injected_by o.peer recorder) us n h.0,
        any_collides_text t recorder os uss n h.1,
      )
      refl

HasSources-some :
    (rs : List RecordedMessage) (t : String) (ts : List String)
    → HasSources rs (t ∷ ts)
    → is_empty rs ≡ false
HasSources-some [] t ts h = elim h [ ]
HasSources-some (r ∷ rs) t ts h = refl

all-map {ℓ κ} :
    {A : Type ℓ} {B : Type κ} (p : B → Bool) (f : A → B) (xs : List A)
    → all p (map f xs) ≡ all (λ x. p (f x)) xs
unfolding all
all-map p f [] = refl
all-map p f (x ∷ xs) = rw (all-map p f xs) refl

sources_verdict :
    (t : String) (ts : List String)
    → (all truthy (map text (t ∷ ts)) && stable (map text (t ∷ ts)))
      ≡ (all (λ u. not (u == "")) (t ∷ ts) && all (λ u. t == u) ts)
unfolding stable truthy eq_value
sources_verdict t ts = rw (all-map truthy text (t ∷ ts), all-map (eq_value (text t)) text ts) refl

-- Where the sources that the satellite's and the others' injected records carry are texts, the check passes
-- exactly when none of the satellite's is empty, all of them are the first one, and no record of another
-- satellite carries that one. Else it raises AssertionError.
assert_source_stamped_lem :
    (master : MasterNode) (satellite : SatelliteNode) (others : List SatelliteNode) (t : String)
    (ts : List String) (uss : List (List String))
    → HasSources (injected_by satellite.peer master.recorder) (t ∷ ts)
    → OthersHave master.recorder others uss
    → assert_source_stamped master satellite others
      ≡ require
          (all (λ u. not (u == "")) (t ∷ ts)
            && (all (λ u. t == u) ts && not (any (any (λ u. u == t)) uss)))
          assertion_error
unfolding assert_source_stamped
assert_source_stamped_lem master satellite others t ts uss mine theirs =
    rw (HasSources-some _ t ts mine, read_sources_text _ (t ∷ ts) mine, sources_verdict t ts)
      (elim (Bool-cases (t == "")) [
        | inl e ↦ unfold all in rw e refl
        | inr e ↦ rw (any_collides_text t master.recorder others uss e theirs) (ground arith)
      ])
