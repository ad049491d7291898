-- ===== src/Agent/Query.antt =====
-- hivescope/plugins/agent.py: `natural_language_query`, on the messages that the bus emits while it waits.
-- After them nothing more comes within the timeout. The query id is fresh; the utterance is emitted first,
-- and what answers it is among the messages.
pub mod Streams
mod Tests
use hivescope.Prelude.{
  String, Bool, true, false, ◌&&◌, Option, none, some, List, [], ◌∷◌, ◌++◌, ◌==◌, if◌then◌else◌,
}
use hivescope.Outcome.{Outcome, ok, raise, timeout_error}
use hivescope.Value.{Value, null, text, is_text, is_null, get, lookup}
use hivescope.Agent.{Message}

-- msg.context.get("query_id") == qid
unfoldable pub correlates : String → Message → Bool
unfolding get
correlates qid m = is_text qid (get "query_id" m.context)

-- msg.data.get("utterance", "")
abbrev pub utterance : Option Value → Value
utterance none = text ""
utterance (some v) = v

-- What the two handlers put in the queue.
unfoldable pub on_speak : String → Message → List Value
unfolding correlates lookup
on_speak qid m =
    if m.msg_type == "speak" && correlates qid m
    then utterance (lookup "utterance" m.content) ∷ []
    else []

unfoldable pub on_done : String → Message → List Value
unfolding correlates
on_done qid m = if m.msg_type == "ovos.utterance.handled" && correlates qid m then null ∷ [] else []

unfoldable pub queued : String → List Message → List Value
unfolding on_speak on_done
queued qid [] = []
queued qid (m ∷ ms) = on_speak qid m ++ on_done qid m ++ queued qid ms

-- The values that the generator yields, and how it ends.
unfoldable pub consume : (raise_on_timeout : Bool) → List Value → List Value × Outcome (Unit {0})
consume true [] = ([], raise timeout_error)
consume false [] = (null ∷ [], ok tt)
consume raise_on_timeout (chunk ∷ q) =
    let (rest, end) = consume raise_on_timeout q in
    if is_null chunk then (null ∷ [], ok tt) else (chunk ∷ rest, end)

unfoldable pub natural_language_query :
    (raise_on_timeout : Bool) → String → List Message → List Value × Outcome (Unit {0})
unfolding queued consume
natural_language_query raise_on_timeout qid ms = consume raise_on_timeout (queued qid ms)
