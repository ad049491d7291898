-- ===== src/Agent/Query/Streams.antt =====
-- What a query of hivescope/plugins/agent.py yields.
use hivescope.Prelude.{
  ◌≡◌, ◌⊎◌, inl, inr, refl, sym, ap, ◌∙◌, String, Bool, true, false, ◌&&◌, List, [], ◌∷◌, ◌++◌,
  ◌==◌, All, filter, Bool-cases, if◌then◌else◌,
}
use hivescope.Outcome.{Outcome, ok, raise, timeout_error}
use hivescope.Value.{Value, null, is_null}
use hivescope.Agent.{Message}
use hivescope.Agent.Query.{correlates, on_speak, on_done, queued, consume, natural_language_query}

module _ {A : Type 0} (p : A → Bool) where
  filter_keep : (x : A) (xs : List A) → p x ≡ true → filter p (x ∷ xs) ≡ x ∷ filter p xs
  unfolding filter
  filter_keep x xs e = rw e refl

  filter_drop : (x : A) (xs : List A) → p x ≡ false → filter p (x ∷ xs) ≡ filter p xs
  unfolding filter
  filter_drop x xs e = rw e refl

neither :
    (b c : Bool) (xs ys : List Value)
    → (if b && false then xs else []) ++ (if c && false then ys else []) ≡ []
neither true true xs ys = refl
neither true false xs ys = refl
neither false true xs ys = refl
neither false false xs ys = refl

-- A message of another query puts nothing in the queue.
other_silent :
    (qid : String) (m : Message) → correlates qid m ≡ false → on_speak qid m ++ on_done qid m ≡ []
unfolding on_speak on_done
other_silent qid m h =
    rw h (neither (m.msg_type == "speak") (m.msg_type == "ovos.utterance.handled") _ _)

queued-cons :
    (qid : String) (m : Message) (ms ns : List Message)
    → queued qid ns ≡ queued qid ms
    → queued qid (m ∷ ns) ≡ queued qid (m ∷ ms)
unfolding queued
queued-cons qid m ms ns h = ap (λ q. on_speak qid m ++ on_done qid m ++ q) h

queued-other :
    (qid : String) (m : Message) (ms : List Message)
    → correlates qid m ≡ false
    → queued qid ms ≡ queued qid (m ∷ ms)
unfolding queued
queued-other qid m ms e = sym (ap (λ q. q ++ queued qid ms) (other_silent qid m e))

queued-filter :
    (qid : String) (ms : List Message) → queued qid (filter (correlates qid) ms) ≡ queued qid ms
unfolding filter
queued-filter qid [] = refl
queued-filter qid (m ∷ ms) = elim (Bool-cases (correlates qid m)) [
  | inl e ↦
      ap (queued qid) (filter_keep (correlates qid) m ms e)
      ∙ queued-cons qid m ms (filter (correlates qid) ms) (queued-filter qid ms)
  | inr e ↦
      ap (queued qid) (filter_drop (correlates qid) m ms e)
      ∙ queued-filter qid ms
      ∙ queued-other qid m ms e
]

-- Some chunks, none of them null, and then the end-of-query sentinel; or the timeout.
abbrev pub Streams : Bool → List Value × Outcome (Unit {0}) → Type 0
Streams raise_on_timeout r =
    (chunks : List Value) × All (λ v. is_null v ≡ false) chunks
    × (((r.0 ≡ chunks ++ null ∷ []) × (r.1 ≡ ok tt))
        ⊎ ((raise_on_timeout ≡ true) × (r.0 ≡ chunks) × (r.1 ≡ raise timeout_error)))

consume-Streams :
    (raise_on_timeout : Bool) (q : List Value)
    → Streams raise_on_timeout (consume raise_on_timeout q)
unfolding consume
consume-Streams true [] = ([], tt, inr (refl, refl, refl))
consume-Streams false [] = ([], tt, inl (refl, refl))
consume-Streams raise_on_timeout (v ∷ q) = elim (Bool-cases (is_null v)) [
  | inl e ↦ rw e ([], tt, inl (refl, refl))
  | inr e ↦
      let (chunks, full, how) = consume-Streams raise_on_timeout q in
      rw e (
        v ∷ chunks,
        (e, full),
        elim how [
          | inl (ys, done) ↦ inl (ap (λ zs. v ∷ zs) ys, done)
          | inr (asked, ys, late) ↦ inr (asked, ap (λ zs. v ∷ zs) ys, late)
        ],
      )
]

-- Whatever the bus emits while a query waits, the generator yields chunks that are not None and then None and
-- ends, or, if it is asked to, raises after them at its timeout; and the messages of other queries change
-- nothing of it.
pub natural_language_query-Streams :
    (raise_on_timeout : Bool) (qid : String) (ms : List Message)
    → Streams raise_on_timeout (natural_language_query raise_on_timeout qid ms)
      × (natural_language_query raise_on_timeout qid (filter (correlates qid) ms)
          ≡ natural_language_query raise_on_timeout qid ms)
unfolding natural_language_query
natural_language_query-Streams raise_on_timeout qid ms = (
  consume-Streams raise_on_timeout (queued qid ms),
  ap (consume raise_on_timeout) (queued-filter qid ms),
)
