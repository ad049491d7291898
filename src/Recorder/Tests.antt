-- ===== src/Recorder/Tests.antt =====
-- The recorder on concrete records and runs.
use hivescope.Prelude.{◌≡◌, refl, true, false, Option, none, some, [], ◌∷◌, filter, last?, any}
use hivescope.Value.{plain, null}
use hivescope.Recorder.{
  inbound, outbound, RecordedMessage, MessageRecorder, init, record_message, matches, find,
  find_all,
}
use hivescope.Recorder.Lookup.{entry}
use hivescope.Recorder.Waiting.{
  Query, Wait, waiting, returned, begin, advance, advance_at, recorded, waiter, other_records,
  deadline, Reach, here, next, pending,
}
use hivescope.Recorder.Wakeups.{wait_for_sound}
use hivescope.Recorder.Deadline.{no_lost_wakeup}
use hivescope.Recorder.Returning.{advances, wait_for_returns}
use hivescope.Recorder.Race.{asked, lost_wakeup}

abbrev first : RecordedMessage
first = entry inbound "bus" (plain null) "p" 1

abbrev one : MessageRecorder
one = record { name = "M0"; records = first ∷ [] }

abbrev any_bus : Query
any_bus = record { msg_type = "bus"; direction = none }

abbrev found : Wait
found = record {
  recorder = one;
  registered = false;
  is_set = false;
  expired = false;
  phase = returned (some first);
}

abbrev empty : MessageRecorder
empty = record { name = "M0"; records = [] }

abbrev late : Wait
late = record {
  recorder = empty;
  registered = false;
  is_set = false;
  expired = true;
  phase = returned none;
}

abbrev woken_up : Wait
woken_up = record {
  recorder = one;
  registered = true;
  is_set = true;
  expired = false;
  phase = waiting;
}

found-Reach : Reach any_bus false (begin one) found
unfolding advance advance_at begin find find_all matches last? filter
found-Reach = next (next (next here (waiter _)) (waiter _)) (waiter _)

late-Reach : Reach any_bus true (begin empty) late
unfolding advance advance_at begin find find_all matches last? filter
late-Reach =
    next (next (next (next (next here (deadline _)) (waiter _)) (waiter _)) (waiter _)) (waiter _)

woken_up-Reach : Reach any_bus false (begin empty) woken_up
unfolding advance advance_at begin find find_all matches last? filter recorded record_message
woken_up-Reach =
    next (next (next (next here (waiter _)) (waiter _)) (waiter _))
      (other_records inbound "bus" (plain null) "p" 1 _)

wait_for_sound_example : (matches "bus" none first ≡ true) × (found.registered ≡ false)
wait_for_sound_example = wait_for_sound any_bus false one found first found-Reach refl

no_lost_wakeup_example : woken_up.is_set ≡ true
unfolding pending matches any
no_lost_wakeup_example = no_lost_wakeup any_bus empty woken_up refl woken_up-Reach refl refl refl

wait_for_returns_example :
    (r : Option RecordedMessage) × ((advances 6 any_bus (record woken_up { expired = true })).phase
      ≡ returned r)
wait_for_returns_example = wait_for_returns any_bus (record woken_up { expired = true }) refl

lost_wakeup_example :
    (s : Wait) × Reach
      (asked "bus" inbound outbound (plain null) (plain null) "p" "q" 1 2)
      false
      (begin (init ""))
      s
    × (s.phase ≡ waiting)
    × (s.expired ≡ false)
    × (s.is_set ≡ false)
    × (pending (asked "bus" inbound outbound (plain null) (plain null) "p" "q" 1 2) s ≡ true)
lost_wakeup_example = lost_wakeup "bus" inbound outbound (plain null) (plain null) "p" "q" 1 2 refl
