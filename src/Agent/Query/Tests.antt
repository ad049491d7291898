-- ===== src/Agent/Query/Tests.antt =====
-- A query that is answered in two chunks while another one is asked.
use hivescope.Prelude.{◌≡◌, refl, String, true, false, List, [], ◌∷◌, filter}
use hivescope.Outcome.{ok, raise, timeout_error}
use hivescope.Value.{null, text, end, field, lookup, get}
use hivescope.Agent.{Message}
use hivescope.Agent.Query.{correlates, on_speak, on_done, queued, consume, natural_language_query}
use hivescope.Agent.Query.Streams.{Streams, natural_language_query-Streams}

abbrev says : String → String → Message
says qid s = record {
  msg_type = "speak";
  content = field "utterance" (text s) end;
  context = field "query_id" (text qid) end;
}

abbrev ends : String → Message
ends qid = record {
  msg_type = "ovos.utterance.handled";
  content = end;
  context = field "query_id" (text qid) end;
}

abbrev bus : List Message
bus =
    says "q" "one"
    ∷ says "other" "x"
    ∷ ends "other"
    ∷ says "q" "two"
    ∷ ends "q"
    ∷ says "q" "late"
    ∷ []

two_chunks : natural_language_query false "q" bus ≡ (text "one" ∷ text "two" ∷ null ∷ [], ok tt)
unfolding natural_language_query queued on_speak on_done correlates consume lookup get
two_chunks = refl

unanswered :
    natural_language_query true "q" (says "q" "one" ∷ []) ≡ (text "one" ∷ [], raise timeout_error)
unfolding natural_language_query queued on_speak on_done correlates consume lookup get
unanswered = refl

natural_language_query-Streams_example :
    Streams false (natural_language_query false "q" bus)
    × (natural_language_query false "q" (filter (correlates "q") bus)
        ≡ natural_language_query false "q" bus)
natural_language_query-Streams_example = natural_language_query-Streams false "q" bus
