-- ===== src/Agent/Bus.antt =====
-- hivescope/plugins/agent.py: what `TestAgentProtocol.__post_init__` installs on its bus, and `shutdown`. A
-- protocol object is a number and is made once. `bus.emit` is the closure that it is: the bus's own, or the
-- wrapper of a protocol around the closure that was there.
pub mod Nesting
pub mod Leaking
mod Tests
use hivescope.Prelude.{
  ℕ, String, Bool, true, false, not, Option, none, some, List, [], ◌∷◌, ◌++◌, nat_eq, filter,
  if◌then◌else◌,
}
use hivescope.Agent.{Message}

pub data Emit : Type 0 where
  original : Emit
  recording : ℕ → Emit → Emit

-- `orig_emit i` is none before the protocol is made and after its shutdown.
pub record Bus : Type 0 where
  pub emit : Emit
  pub handlers : List (String × ℕ)
  pub orig_emit : ℕ → Option Emit
  pub injected : ℕ → List Message

abbrev pub put {ℓ} : {A : Type ℓ} → ℕ → A → (ℕ → A) → ℕ → A
put i a f j = if nat_eq i j then a else f j

-- register_bus_handlers
abbrev pub register_bus_handlers : ℕ → List (String × ℕ) → List (String × ℕ)
register_bus_handlers i hs = hs ++ ("hive.send.downstream", i) ∷ ("message", i) ∷ []

unfoldable pub post_init : ℕ → Bus → Bus
post_init i b = record b {
  emit = recording i b.emit;
  orig_emit = put i (some b.emit) b.orig_emit;
  handlers = register_bus_handlers i b.handlers;
}

-- self.bus.emit is wrapper
unfoldable pub is_wrapper : ℕ → Emit → Bool
is_wrapper i original = false
is_wrapper i (recording j e) = nat_eq i j

abbrev pub unwrapped : ℕ → Option Emit → Emit → Emit
unwrapped i none e = e
unwrapped i (some orig) e = if is_wrapper i e then orig else e

unfoldable pub shutdown : ℕ → Bus → Bus
unfolding is_wrapper
shutdown i b = record b {
  handlers = filter (λ h. not (nat_eq i h.1)) b.handlers;
  emit = unwrapped i (b.orig_emit i) b.emit;
  orig_emit = put i none b.orig_emit;
}

-- What is emitted: a message, or a text that is none.
pub data Emission : Type 0 where
  a_message : Message → Emission
  unreadable : String → Emission

abbrev pub record_in : Emission → List Message → List Message
record_in (a_message m) ms = ms ++ m ∷ []
record_in (unreadable s) ms = ms

-- `bus.emit(msg)`: each layer records, and calls the next.
unfoldable pub call : Emit → Emission → (ℕ → List Message) → ℕ → List Message
call original m injected = injected
call (recording i e) m injected = call e m (put i (record_in m (injected i)) injected)

unfoldable pub emit_on : Emission → Bus → Bus
unfolding call
emit_on m b = record b { injected = call b.emit m b.injected }

pub data Life : Type 0 where
  makes shuts : ℕ → Life
  emits : Emission → Life

unfoldable pub live : Life → Bus → Bus
unfolding post_init shutdown emit_on
live (makes i) b = post_init i b
live (shuts i) b = shutdown i b
live (emits m) b = emit_on m b

unfoldable pub run : List Life → Bus → Bus
unfolding live
run [] b = b
run (l ∷ ls) b = run ls (live l b)
