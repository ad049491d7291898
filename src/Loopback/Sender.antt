-- ===== src/Loopback/Sender.antt =====
-- The sender task of a connection of hivescope/plugins/loopback.py: `sync_send`, `sync_disconnect` and
-- `message_sender`. The protocol's calls schedule their items on the loop, which moves one at a time to the
-- queue; the finally block of the handler puts its item in the queue itself.
pub mod Order
pub mod Overtaking
mod Tests
use hivescope.Prelude.{ℕ, String, Bool, true, false, Option, none, some, List, [], ◌∷◌, ◌++◌}

pub data Item (A : Type 0) : Type 0 where
  message : A → Item A
  disconnect : ℕ → String → Item A

-- `scheduled` are the callbacks that wait in the loop; `submitted` what `sync_send` was given and `sent` what
-- the socket took; `closed` the code that the sender closed the socket with.
pub record Sender (A : Type 0) : Type 0 where
  pub scheduled : List (Item A)
  pub aqueue : List (Item A)
  pub submitted : List A
  pub sent : List A
  pub closed : Option ℕ

-- What happens: the protocol sends or disconnects, the loop runs a callback, the handler ends, or the sender
-- gets the next item, where a socket may refuse a message.
pub data Event (A : Type 0) : Type 0 where
  sync_send : A → Event A
  sync_disconnect : ℕ → String → Event A
  callback handler_ends : Event A
  gets : (accepted : Bool) → Event A

module _ {A : Type 0} where
  unfoldable pub init : Sender A
  init = record { scheduled = []; aqueue = []; submitted = []; sent = []; closed = none }

  abbrev pub put_nowait : List (Item A) → Sender A → Sender A
  put_nowait [] s = s
  put_nowait (item ∷ items) s = record s { scheduled = items; aqueue = s.aqueue ++ item ∷ [] }

  -- One turn of `message_sender`; an exception of the socket ends it with the code 1000.
  abbrev pub turn : Bool → List (Item A) → Sender A → Sender A
  turn accepted [] s = s
  turn true (message payload ∷ items) s = record s { aqueue = items; sent = s.sent ++ payload ∷ [] }
  turn false (message payload ∷ items) s = record s { aqueue = items; closed = some 1000 }
  turn accepted (disconnect code reason ∷ items) s = record s { aqueue = items; closed = some code }

  abbrev pub when_open : Option ℕ → Sender A → Sender A → Sender A
  when_open none s t = t
  when_open (some code) s t = s

  unfoldable pub step : Event A → Sender A → Sender A
  step (sync_send payload) s = record s {
    scheduled = s.scheduled ++ message payload ∷ [];
    submitted = s.submitted ++ payload ∷ [];
  }
  step (sync_disconnect code reason) s = record s {
    scheduled = s.scheduled ++ disconnect code reason ∷ [];
  }
  step callback s = put_nowait s.scheduled s
  step handler_ends s = record s { aqueue = s.aqueue ++ disconnect 1000 "" ∷ [] }
  step (gets accepted) s = when_open s.closed s (turn accepted s.aqueue s)

  unfoldable pub run : List (Event A) → Sender A → Sender A
  unfolding step
  run [] s = s
  run (e ∷ es) s = run es (step e s)
