-- ===== src/Agent/Skills.antt =====
-- hivescope/plugins/ovoscope_agent.py: `OvoscopeAgentProtocol` and `_HarnessCaptureSession`. MiniCroft and its
-- capture session are packages outside the repository. A helper that polls is given what was injected when it
-- starts and what each pause between two looks brings; it looks for the last time after the last of them.
pub mod Polling
pub mod Lifecycle
mod Tests
use hivescope.Prelude.{
  ℕ, String, Bool, false, not, Option, none, some, List, [], ◌∷◌, ◌++◌, ◌==◌, leb, length, map,
  if◌then◌else◌,
}
use hivescope.Outcome.{Outcome, ok, ◌>>=◌, ◌>>◌, require, assertion_error, import_error}
use hivescope.Value.{Value, lookup}
use hivescope.Agent.{Message, injected_as, last_injected, assert_injected, assert_not_injected}
use hivescope.Agent.Bus.{Bus, post_init, shutdown}
use hivescope.Agent.Query.{utterance}

unfoldable pub assert_skill_emitted : String → ℕ → List Message → Outcome (Unit {0})
assert_skill_emitted msg_type count injected = assert_injected msg_type count injected

unfoldable pub assert_skill_not_emitted : String → List Message → Outcome (Unit {0})
assert_skill_not_emitted msg_type injected = assert_not_injected msg_type injected

unfoldable pub skill_messages : String → List Message → List Message
unfolding injected_as
skill_messages msg_type injected = injected_as msg_type injected

unfoldable pub last_speak : List Message → Option Message
last_speak injected = last_injected "speak" injected

unfoldable pub spoken_utterances : List Message → List Value
unfolding injected_as lookup
spoken_utterances injected =
    map (λ m. utterance (lookup "utterance" m.content)) (injected_as "speak" injected)

-- len(matches) >= count
unfoldable pub enough : String → ℕ → List Message → Bool
unfolding injected_as
enough msg_type count injected = leb count (length (injected_as msg_type injected))

unfoldable pub wait_for_skill_emission :
    String → ℕ → (injected : List Message) → (pauses : List (List Message)) → Outcome (Unit {0})
unfolding enough
wait_for_skill_emission msg_type count injected [] =
    require (enough msg_type count injected) assertion_error
wait_for_skill_emission msg_type count injected (more ∷ pauses) =
    let rest = wait_for_skill_emission msg_type count (injected ++ more) pauses in
    if enough msg_type count injected then ok tt else rest

abbrev pub or_next : Option Message → Option Message → Option Message
or_next none rest = rest
or_next (some m) rest = some m

unfoldable pub wait_last_injected :
    String → (injected : List Message) → (pauses : List (List Message)) → Option Message
unfolding last_injected
wait_last_injected msg_type injected [] = last_injected msg_type injected
wait_last_injected msg_type injected (more ∷ pauses) =
    or_next (last_injected msg_type injected)
      (wait_last_injected msg_type (injected ++ more) pauses)

-- self.timed_out; what was captured belongs to the capture session that it wraps.
pub record HarnessCaptureSession : Type 0 where
  pub timed_out : Bool

-- names or default
abbrev pub or_default : Option (List String) → List String → List String
or_default none default = default
or_default (some []) default = default
or_default (some (name ∷ names)) default = name ∷ names

-- A capture session is a `C`; `default_eof` and `default_ignored` are the defaults of its package, which may be
-- missing.
module _ {M C : Type 0} (installed : Bool) (default_eof default_ignored : List String)
    (capture_session : M → (eof_msgs ignore_messages : List String) → Outcome C) where
  unfoldable pub new_capture :
      M → (eof_msgs ignore_messages : Option (List String)) → Outcome (C × HarnessCaptureSession)
  new_capture minicroft eof_msgs ignore_messages =
      require installed import_error
      >> (capture_session minicroft (or_default eof_msgs default_eof)
            (or_default ignore_messages default_ignored)
          >>= λ cap. ok (cap, record { timed_out = false }))

-- `done` is what the event's wait returns; `finished` is what `finish` returns.
unfoldable pub wait :
    (done : Bool) → (finished : List Message) → HarnessCaptureSession × List Message
wait done finished = (record { timed_out = not done }, finished)

unfoldable pub assert_complete : HarnessCaptureSession → Outcome (Unit {0})
assert_complete c = require (not c.timed_out) assertion_error

-- A MiniCroft is an `M`; whether its `stop` raises or not, it leaves `stop m b` of the bus `b`.
module _ {M : Type 0} (bus_of : M → Bus) (get_minicroft : List String → Outcome M)
    (stop : M → Bus → Bus) where
  pub record OvoscopeAgent : Type 0 where
    pub minicroft : Option M
    pub bus : Bus

  abbrev pub loaded : List String → Option M → Outcome M
  loaded skill_ids none = get_minicroft skill_ids
  loaded skill_ids (some m) = ok m

  -- __post_init__
  unfoldable pub make_agent : ℕ → List String → Option M → Outcome OvoscopeAgent
  make_agent i skill_ids given = loaded skill_ids given >>= λ m.
      ok (record { minicroft = some m; bus = post_init i (bus_of m) })

  abbrev pub left_on : Option M → Bus → Bus
  left_on none b = b
  left_on (some m) b = stop m b

  unfoldable pub shutdown_agent : ℕ → OvoscopeAgent → OvoscopeAgent
  shutdown_agent i a = record { minicroft = none; bus = left_on a.minicroft (shutdown i a.bus) }
