-- ===== src/Assertions/SessionTests.antt =====
-- The session helpers on two injected messages.
use hivescope.Prelude.{◌≡◌, ◌≢◌, refl, String, true, some, [], ◌∷◌, filter}
use hivescope.Outcome.{raise, assertion_error}
use hivescope.Value.{
  text, arr, texts, dict, end, field, message, get, lookup, truthy, or_else, value_get,
}
use hivescope.Recorder.{bus_inject, RecordedMessage}
use hivescope.Recorder.Lookup.{entry}
use hivescope.Assertions.{MasterNode, SatelliteNode, injected_by}
use hivescope.Assertions.Bridge.{session_of, natted}
use hivescope.Assertions.Bridge.Isolated.{id_of, assert_sessions_isolated, isolated_refused}

abbrev injected : String → RecordedMessage
injected id =
    entry bus_inject "speak"
      (message (text "speak") (dict end) (
        dict (
          field "session"
            (dict (
              field "session_id" (text id) (
                field "blacklisted_skills" (arr (texts ("weather" ∷ "news" ∷ [])))
                  (field "blacklisted_intents" (arr (texts [])) end))))
            end)))
      "p" 1

abbrev master : MasterNode
master = record {
  recorder = record { name = "M0"; records = injected "ns:a:b" ∷ injected "ns:b" ∷ [] };
  clients = [];
  calls = [];
}

abbrev satellite : SatelliteNode
satellite = record {
  recorder = record { name = "S0"; records = [] };
  peer = some "p";
  has_transport = true;
  handshake_done = true;
  cipher = "c";
  json_encoding = "e";
}

prefixed_refused :
    (assert_sessions_isolated master satellite ("a:b" ∷ "b" ∷ []) ≡ raise assertion_error)
    × (natted "ns" "a:b" ≢ natted "ns" "b")
unfolding injected_by filter id_of session_of value_get or_else truthy get lookup
prefixed_refused =
    isolated_refused master satellite "ns" "a" "b" (injected "ns:a:b") (injected "ns:b") refl refl
      refl refl
