-- ===== src/Loopback/Sender/Tests.antt =====
-- A connection's sender on a concrete run.
use hivescope.Prelude.{ℕ, ◌≡◌, refl, ◌⊎◌, true, none, some, List, [], ◌∷◌, ◌++◌}
use hivescope.Loopback.Sender.{
  Sender, Event, message, disconnect, sync_send, sync_disconnect, callback, handler_ends, gets,
  init, step, run,
}
use hivescope.Loopback.Sender.Order.{payloads, run-IsFifo}

abbrev events : List (Event ℕ)
events =
    sync_send 7
    ∷ callback
    ∷ sync_send 8
    ∷ gets true
    ∷ sync_disconnect 4003 "no"
    ∷ callback
    ∷ callback
    ∷ gets true
    ∷ gets true
    ∷ []

sent_in_order : (run events init).sent ≡ 7 ∷ 8 ∷ []
unfolding run step init
sent_in_order = refl

closed_as_asked : (run events init).closed ≡ some 4003
unfolding run step init
closed_as_asked = refl

run-IsFifo_example :
    let s = run events init in
    (given_up : List ℕ) × (s.submitted
      ≡ s.sent ++ (given_up ++ (payloads s.aqueue ++ payloads s.scheduled)))
    × ((given_up ≡ []) ⊎ ((code : ℕ) × (s.closed ≡ some code)))
run-IsFifo_example = run-IsFifo events

-- The protocol says why it disconnects, and raises.
abbrev waiting : Sender ℕ
waiting = record {
  scheduled = message 7 ∷ disconnect 4003 "no" ∷ [];
  aqueue = [];
  submitted = 7 ∷ [];
  sent = [];
  closed = none;
}

abbrev later : List (Event ℕ)
later = callback ∷ callback ∷ gets true ∷ gets true ∷ []

closed_with_1000 : (run (handler_ends ∷ later) waiting).closed ≡ some 1000
unfolding run step
closed_with_1000 = refl
