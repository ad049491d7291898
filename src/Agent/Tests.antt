-- ===== src/Agent/Tests.antt =====
-- The handlers of the agent protocol on concrete messages.
use hivescope.Prelude.{Bool, true, ◌↔◌, ◌≡◌, String, List, [], ◌∷◌, filter, All}
use hivescope.Value.{Value, text, end, field, get}
use hivescope.Outcome.{Outcome, ok}
use hivescope.Samples.{types}
use hivescope.Agent.{Message, handle_internal_mycroft}
use hivescope.Agent.Routing.{Names, HidesSource, reached, handle_internal_mycroft_lem}

abbrev clients : List String
clients = "p" ∷ "q" ∷ []

abbrev reply_to_q : Message
reply_to_q = record {
  msg_type = "speak";
  content = end;
  context = field "destination" (text "q") (field "source" (text "agent") end);
}

abbrev request : Message
request = record {
  msg_type = "hive.send.downstream";
  content = field "msg_type" (text "bus") (field "peer" (text "q") end);
  context = end;
}

handle_internal_mycroft_lem_example :
    (is_named : String → Bool) × ((p : String)
      → (is_named p ≡ true) ↔ Names (get "destination" reply_to_q.context) p)
    × (reached (handle_internal_mycroft types clients reply_to_q) ≡ filter is_named clients)
    × All HidesSource (handle_internal_mycroft types clients reply_to_q)
handle_internal_mycroft_lem_example = handle_internal_mycroft_lem types clients reply_to_q

-- Any type.
abbrev accepts : Value → Outcome (Unit {0})
accepts v = ok tt
