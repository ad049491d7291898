-- ===== src/Loopback.antt =====
-- hivescope/plugins/loopback.py: the life cycle of `LoopbackNetworkProtocol` and the registry
-- `_LIVE_FLOORS` that all its instances share. The order of the registry is not observed. Threads, sockets
-- and the server's configuration are the environment's: what a start or a join came to is an argument.
pub mod Floors
pub mod Zombie
pub mod Clients
pub mod Sender
pub mod Threads
mod Tests
use hivescope.Prelude.{
  ℕ, String, Bool, true, false, not, ◌&&◌, ◌||◌, Option, none, some, List, [], ◌∷◌, nat_eq,
  if◌then◌else◌,
}
use hivescope.Outcome.{Outcome, ok, raise, runtime_error, or_raise}

pub record Protocol : Type 0 where
  pub min_protocol_version : ℕ
  pub url : Option String
  pub has_thread : Bool
  pub broken : Bool

abbrev pub Floors : Type 0
Floors = List (ℕ × ℕ)

-- `config` is the floor in the process-wide server configuration.
pub record World : Type 0 where
  pub floors : Floors
  pub config : Option ℕ
  pub protocols : ℕ → Protocol

-- What a start comes to: the configuration cannot be written, the server fails, no answer comes within
-- ten seconds, or the server listens at a URL.
pub data Startup : Type 0 where
  config_error failed stalled : Startup
  listening : String → Startup

-- _LIVE_FLOORS.pop(key, None)
unfoldable pub pop : ℕ → Floors → Floors
pop k [] = []
pop k ((j, f) ∷ fs) = let rest = pop k fs in if nat_eq j k then rest else (j, f) ∷ rest

unfoldable pub lookup : ℕ → Floors → Option ℕ
lookup k [] = none
lookup k ((j, f) ∷ fs) = let rest = lookup k fs in if nat_eq j k then some f else rest

-- Some other live instance has another floor.
unfoldable pub conflicts : ℕ → ℕ → Floors → Bool
conflicts key floor [] = false
conflicts key floor ((k, f) ∷ fs) =
    (not (nat_eq k key) && not (nat_eq f floor)) || conflicts key floor fs

abbrev pub put : ℕ → Protocol → (ℕ → Protocol) → ℕ → Protocol
put i p ps j = if nat_eq i j then p else ps j

-- The part of `run` after the configuration is written.
unfoldable pub start : ℕ → Startup → World → World × Outcome (Unit {0})
unfolding pop
start i (listening url) w = (
  record {
    floors = (i, (w.protocols i).min_protocol_version) ∷ pop i w.floors;
    config = some (w.protocols i).min_protocol_version;
    protocols = put i (record (w.protocols i) { url = some url; has_thread = true }) w.protocols;
  },
  ok tt,
)
start i config_error w = (w, raise runtime_error)
start i _ w = (
  record {
    floors = pop i w.floors;
    config = some (w.protocols i).min_protocol_version;
    protocols = put i (record (w.protocols i) { has_thread = true; broken = true }) w.protocols;
  },
  raise runtime_error,
)

unfoldable pub run : ℕ → Startup → World → World × Outcome (Unit {0})
unfolding start conflicts
run i startup w =
    if (w.protocols i).broken
    then (w, raise runtime_error)
    else if (w.protocols i).has_thread
    then (w, ok tt)
    else if conflicts i (w.protocols i).min_protocol_version w.floors
    then (w, raise runtime_error)
    else start i startup w

-- The thread is joined or, still alive after five seconds, kept.
abbrev pub after_join : Bool → Protocol → Protocol
after_join joined p =
    if p.has_thread
    then (if joined then record p { has_thread = false } else record p { broken = true })
    else p

unfoldable pub stop : ℕ → Bool → World → World
unfolding pop
stop i joined w = record {
  floors = pop i w.floors;
  config = w.config;
  protocols = put i (record (after_join joined (w.protocols i)) { url = none }) w.protocols;
}

unfoldable pub url_of : ℕ → World → Outcome String
url_of i w = or_raise (w.protocols i).url runtime_error

pub data Call : Type 0 where
  runs : ℕ → Startup → Call
  stops : ℕ → Bool → Call

unfoldable pub step : Call → World → World
unfolding run stop
step (runs i startup) w = (run i startup w).0
step (stops i joined) w = stop i joined w

unfoldable pub history : List Call → World → World
unfolding step
history [] w = w
history (c ∷ cs) w = history cs (step c w)

-- Instances as they are made, with the floors that they ask for.
unfoldable pub fresh : (ℕ → ℕ) → World
fresh floor = record {
  floors = [];
  config = none;
  protocols = λ i. record {
    min_protocol_version = floor i;
    url = none;
    has_thread = false;
    broken = false;
  };
}
