-- ===== src/Recorder/Waiting.antt =====
-- `MessageRecorder.wait_for` of hivescope/recorder.py as a thread: each phase is one step that the
-- lock, or the event, makes atomic, and other threads may record or clear between two of them.
use hivescope.Prelude.{
  ℕ, ◌≡◌, String, Bool, true, false, ◌||◌, ◌&&◌, Option, none, some, ◌==◌, if◌then◌else◌, any,
}
use hivescope.Value.{Payload}
use hivescope.Recorder.{
  Direction, RecordedMessage, MessageRecorder, record_message, clear, find, matches,
}

pub record Query : Type 0 where
  pub msg_type : String
  pub direction : Option Direction

pub data Phase : Type 0 where
  start looking loop_head waiting woken checking clearing : Phase
  leaving returned : Option RecordedMessage → Phase

-- `registered`: the event is in `_waiters[msg_type]`; `is_set`: its flag; `expired`: the deadline
-- has passed.
pub record Wait : Type 0 where
  pub recorder : MessageRecorder
  pub registered : Bool
  pub is_set : Bool
  pub expired : Bool
  pub phase : Phase

unfoldable pub begin : MessageRecorder → Wait
begin r = record {
  recorder = r;
  registered = false;
  is_set = false;
  expired = false;
  phase = start;
}

abbrev pub or_leave : Option RecordedMessage → Phase → Phase
or_leave none next = next
or_leave (some r) next = leaving (some r)

unfoldable pub advance_at : Query → Phase → Wait → Wait
advance_at q start s = record s { registered = true; phase = looking }
advance_at q looking s = record s {
  phase = or_leave (find q.msg_type q.direction s.recorder) loop_head;
}
advance_at q loop_head s = record s { phase = if s.expired then leaving none else waiting }
advance_at q waiting s = record s { phase = if s.is_set || s.expired then woken else waiting }
advance_at q woken s = record s {
  phase = or_leave (find q.msg_type q.direction s.recorder) checking;
}
advance_at q checking s = record s { phase = if s.is_set then clearing else leaving none }
advance_at q clearing s = record s { is_set = false; phase = loop_head }
advance_at q (leaving result) s = record s { registered = false; phase = returned result }
advance_at q (returned result) s = s

unfoldable pub advance : Query → Wait → Wait
unfolding advance_at
advance q s = advance_at q s.phase s

-- `record` of another thread sets the event of each waiter on the record's type.
unfoldable pub recorded : Query → Direction → String → Payload → String → ℕ → Wait → Wait
recorded q direction msg_type payload peer now s = record s {
  recorder = record_message direction msg_type payload peer now s.recorder;
  is_set = s.is_set || (s.registered && msg_type == q.msg_type);
}

-- `clears` tells whether other threads call `clear`.
pub data Step (q : Query) (clears : Bool) : Wait → Wait → Type 0 where
  waiter : (s : Wait) → Step q clears s (advance q s)
  other_records :
      (d : Direction) (t : String) (p : Payload) (peer : String) (now : ℕ) (s : Wait)
      → Step q clears s (recorded q d t p peer now s)
  other_clears :
      (s : Wait) → clears ≡ true → Step q clears s (record s { recorder = clear s.recorder })
  deadline : (s : Wait) → Step q clears s (record s { expired = true })

pub data Reach (q : Query) (clears : Bool) (s : Wait) : Wait → Type 0 where
  here : Reach q clears s s
  next : {t u : Wait} → Reach q clears s t → Step q clears t u → Reach q clears s u

-- A record that the call looks for is there.
unfoldable pub pending : Query → Wait → Bool
pending q s = any (matches q.msg_type q.direction) s.recorder.records
