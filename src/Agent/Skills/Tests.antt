-- ===== src/Agent/Skills/Tests.antt =====
-- A skill that speaks twice while a helper polls.
use hivescope.Prelude.{
  String, true, false, ◌≡◌, ◌↔◌, refl, some, none, List, [], ◌∷◌, leb, length, filter, last?,
}
use hivescope.Outcome.{import_error, ok, raise, require, assertion_error}
use hivescope.Value.{text, end, field, lookup}
use hivescope.Agent.{Message, injected_as, assert_injected, last_injected}
use hivescope.Agent.Skills.{
  assert_skill_emitted, spoken_utterances, skill_messages, enough, wait_for_skill_emission,
  wait_last_injected, new_capture,
}
use hivescope.Agent.Skills.Polling.{afterwards, wait_for_skill_emission_lem}

abbrev says : String → Message
says s = record { msg_type = "speak"; content = field "utterance" (text s) end; context = end }

abbrev handled : Message
handled = record { msg_type = "ovos.utterance.handled"; content = end; context = end }

abbrev pauses : List (List Message)
pauses = [] ∷ (says "one" ∷ []) ∷ (handled ∷ says "two" ∷ []) ∷ []

-- Two come where one is asked for; the exact assertion at the end refuses.
polled :
    (wait_for_skill_emission "speak" 1 [] pauses ≡ ok tt)
    × (assert_skill_emitted "speak" 1 (afterwards [] pauses) ≡ raise assertion_error)
    × (wait_for_skill_emission "speak" 3 [] pauses ≡ raise assertion_error)
unfolding wait_for_skill_emission enough injected_as filter assert_skill_emitted assert_injected
    afterwards
polled = (refl, refl, refl)

spoken : spoken_utterances (afterwards [] pauses) ≡ text "one" ∷ text "two" ∷ []
unfolding spoken_utterances afterwards injected_as filter lookup
spoken = refl

first_found :
    (wait_last_injected "speak" [] pauses ≡ some (says "one"))
    × (wait_last_injected "other" [] pauses ≡ none)
unfolding wait_last_injected last_injected injected_as filter last?
first_found = (refl, refl)

wait_for_skill_emission_lem_example :
    (wait_for_skill_emission "speak" 2 [] pauses
      ≡ require (leb 2 (length (skill_messages "speak" (afterwards [] pauses)))) assertion_error)
    × ((wait_last_injected "speak" [] pauses ≡ none)
        ↔ (wait_for_skill_emission "speak" 1 [] pauses ≡ raise assertion_error))
wait_for_skill_emission_lem_example = wait_for_skill_emission_lem "speak" 2 [] pauses

-- A capture session as what it was made with. An empty list of what to ignore stands for the default.
captures :
    (new_capture true
        ("eof" ∷ [])
        ("noise" ∷ [])
        (λ (m : String) eof ignored. ok (eof ∷ ignored ∷ []))
        "croft"
        (some ("done" ∷ []))
        (some [])
      ≡ ok ((("done" ∷ []) ∷ ("noise" ∷ []) ∷ []), record { timed_out = false }))
    × (new_capture false [] [] (λ (m : String) eof ignored. ok m) "croft" none none
        ≡ raise import_error)
unfolding new_capture
captures = (refl, refl)
