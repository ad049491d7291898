-- ===== src/Node/Master/Recording/Tests.antt =====
-- A listener that greets whom it meets and injects what it is told, and refuses its second frame.
use hivescope.Prelude.{◌≡◌, refl, some, ℕ, suc, String, none, [], ◌∷◌, nat_eq, if◌then◌else◌}
use hivescope.Outcome.{ok, raise, runtime_error}
use hivescope.Recorder.{outbound, bus_inject, assert_received}
use hivescope.Value.{plain, text}
use hivescope.Node.{Received}
use hivescope.Node.Master.{Parsed, typed, frame_type, text_frame, includes, starts_with}
use hivescope.Recorder.Lookup.{entry}
use hivescope.Node.Master.Recording.{
  Call, handle_message, handle_inject_agent_msg, handle_new_client, send_msg, Program, done, look,
  put, call, exec, run_recorded,
}
use hivescope.Node.Master.Recording.Histories.{
  Plain, site_of, bare, records_in, records_of, wrapped_in, copies,
}
use hivescope.Node.Master.Recording.Counting.{calls, assert_received-run_recorded}
use hivescope.Node.Master.Recording.Transparent.{run_recorded-Transparent}

-- The state is the number of frames that were sent.
abbrev methods : Call → Program ℕ
methods (handle_new_client c) =
    call (send_msg (text_frame "hello") c)
      (λ o. call (send_msg (text_frame "shake") c) (λ o'. done o'))
methods (handle_message m c) = call (handle_inject_agent_msg m c) done
methods (handle_inject_agent_msg m c) = done (ok tt)
methods (send_msg f c) =
    look (λ n. if nat_eq n 1 then done (raise runtime_error) else put (suc n) (done (ok tt)))

abbrev json : String → Parsed
json s = typed s

abbrev peer : ℕ → ℕ → String
peer n c = "peer"

abbrev clock : ℕ → ℕ
clock n = n

abbrev start : Plain ℕ
start = record { state = 0; history = [] }

abbrev greeted : Plain ℕ
greeted = (bare (λ ns. none) json peer clock methods 2 (handle_new_client 7) start).0

-- Both frames are recorded, the one that was refused too.
two_recorded :
    records_in (λ ns. none) json peer clock greeted.history
    ≡ entry outbound "hello" (plain (text "hello")) "peer" 0
      ∷ entry outbound "shake" (plain (text "shake")) "peer" 1
      ∷ []
unfolding bare exec records_in records_of wrapped_in copies frame_type includes starts_with
two_recorded = refl

run_recorded-Transparent_example :
    run_recorded
      (λ ns. none)
      json
      peer
      clock
      methods
      2
      (handle_new_client 7)
      (site_of (λ ns. none) json peer clock "M0" [] start)
    ≡ (site_of (λ ns. none) json peer clock "M0" [] greeted, raise runtime_error)
unfolding bare exec
run_recorded-Transparent_example =
    run_recorded-Transparent (λ ns. none) json peer clock methods 2 (handle_new_client 7) "M0" []
      start

abbrev told : Received
told = record { msg_type = "bus"; payload = plain (text "hi") }

-- What the message injects is counted under its type.
assert_received-run_recorded_example :
    (assert_received "bus" 1
        (some bus_inject)
        (run_recorded
          (λ ns. none)
          json
          peer
          clock
          methods
          2
          (handle_message told 7)
          (site_of (λ ns. none) json peer clock "M0" [] start)).0.recorder
      ≡ ok tt)
unfolding bare exec calls
assert_received-run_recorded_example =
    assert_received-run_recorded (λ ns. none) json peer clock bus_inject "bus" refl methods 2
      (handle_message told 7) "M0" 0 1
