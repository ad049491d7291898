-- ===== src/Loopback/Threads.antt =====
-- hivescope/plugins/loopback.py: `run` and `stop` of one instance in the caller's thread, step by step, beside
-- the server thread: `_run_server`, `_start_server` and `_shutdown_loop`. One thread calls the instance. The
-- registry of the other instances and the configuration are seen in whether a start is refused; a server that
-- is bound has a socket.
pub mod Sound
pub mod Running
pub mod Stopping
pub mod Late
mod Tests
use hivescope.Prelude.{
  ℕ, ◌≡◌, String, Bool, true, false, not, ◌&&◌, ◌||◌, Option, none, some, if◌then◌else◌,
}
use hivescope.Outcome.{Outcome, ok, raise, runtime_error}

-- `_run_server`: the thread has begun; it awaits `_start_server`; that has returned; `run_forever`; an
-- exception is caught; `_shutdown_loop`; the thread has ended.
pub data ServerPhase : Type 0 where
  absent spawned binding bound serving failed closing ended : ServerPhase

-- `run`: `_ready.wait`, the look at `_startup_error`. `stop`: draining the clients, joining the thread, and
-- the clearing at its end.
pub data CallerPhase : Type 0 where
  free waiting checking draining joining clearing : CallerPhase

-- `thread` and `loop`: `_thread` and `_loop` are not None; `listens`: the server's socket is open; `stopping`:
-- `loop.stop` is scheduled; `result`: what the last `run` came to.
pub record Threads : Type 0 where
  pub server : ServerPhase
  pub caller : CallerPhase
  pub thread : Bool
  pub broken : Bool
  pub registered : Bool
  pub ready : Bool
  pub startup_error : Bool
  pub url : Option String
  pub loop : Bool
  pub listens : Bool
  pub stopping : Bool
  pub result : Outcome (Unit {0})

unfoldable pub fresh : Threads
fresh = record {
  server = absent;
  caller = free;
  thread = false;
  broken = false;
  registered = false;
  ready = false;
  startup_error = false;
  url = none;
  loop = false;
  listens = false;
  stopping = false;
  result = ok tt;
}

-- No server thread is alive.
abbrev pub is_over : ServerPhase → Bool
is_over absent = true
is_over ended = true
is_over phase = false

-- The part of `run` up to the start of the thread.
unfoldable pub spawn : Threads → Threads
spawn s = record s {
  registered = true;
  ready = false;
  startup_error = false;
  thread = true;
  stopping = false;
  server = spawned;
  caller = waiting;
}

-- The `except` of `run`.
unfoldable pub give_up : Threads → Threads
give_up s = record s {
  broken = true;
  registered = false;
  caller = free;
  result = raise runtime_error;
}

-- run's look at `_startup_error`
unfoldable pub conclude : Threads → Threads
unfolding give_up
conclude s = if s.startup_error then give_up s else record s { caller = free; result = ok tt }

-- loop.call_soon_threadsafe(loop.stop)
unfoldable pub schedule_stop : Threads → Threads
schedule_stop s = record s { stopping = s.stopping || not (is_over s.server); caller = joining }

-- `join` has returned: within its five seconds, or at their end.
unfoldable pub join : Threads → Threads
join s =
    if s.thread
    then (if is_over s.server
        then record s { thread = false; caller = clearing }
        else record s { broken = true; caller = clearing })
    else record s { caller = clearing }

unfoldable pub clear : Threads → Threads
clear s = record s { url = none; ready = false; registered = false; caller = free }

-- The `finally` of `_run_server`
unfoldable pub shutdown_loop : Threads → Threads
shutdown_loop s = record s { listens = false; loop = false; server = ended }

pub data Step : Threads → Threads → Type 0 where
  -- run
  run_broken :
      (s : Threads)
      → s.caller ≡ free
      → s.broken ≡ true
      → Step s (record s { result = raise runtime_error })
  run_again :
      (s : Threads)
      → s.caller ≡ free
      → s.broken ≡ false
      → s.thread ≡ true
      → Step s (record s { result = ok tt })
  -- another instance has another floor, or the configuration cannot be written
  run_refused :
      (s : Threads)
      → s.caller ≡ free
      → s.broken ≡ false
      → s.thread ≡ false
      → Step s (record s { result = raise runtime_error })
  run_starts :
      (s : Threads) → s.caller ≡ free → s.broken ≡ false → s.thread ≡ false → Step s (spawn s)
  becomes_ready :
      (s : Threads) → s.caller ≡ waiting → s.ready ≡ true → Step s (record s { caller = checking })
  times_out : (s : Threads) → s.caller ≡ waiting → s.ready ≡ false → Step s (give_up s)
  concludes : (s : Threads) → s.caller ≡ checking → Step s (conclude s)
  -- stop
  stop_drains :
      (s : Threads) → s.caller ≡ free → s.loop ≡ true → Step s (record s { caller = draining })
  stop_joins :
      (s : Threads) → s.caller ≡ free → s.loop ≡ false → Step s (record s { caller = joining })
  drained : (s : Threads) → s.caller ≡ draining → Step s (schedule_stop s)
  joined : (s : Threads) → s.caller ≡ joining → Step s (join s)
  clears : (s : Threads) → s.caller ≡ clearing → Step s (clear s)
  -- the server thread
  opens_loop :
      (s : Threads) → s.server ≡ spawned → Step s (record s { loop = true; server = binding })
  binds :
      (s : Threads) (u : String)
      → s.server ≡ binding
      → Step s (record s { url = some u; listens = true; server = bound })
  bind_fails :
      (s : Threads)
      → s.server ≡ binding
      → Step s (record s { startup_error = true; server = failed })
  serves : (s : Threads) → s.server ≡ bound → Step s (record s { ready = true; server = serving })
  crashes :
      (s : Threads)
      → s.server ≡ serving
      → Step s (record s { startup_error = true; server = failed })
  loop_stops :
      (s : Threads)
      → s.server ≡ serving
      → s.stopping ≡ true
      → Step s (record s { server = closing })
  reports : (s : Threads) → s.server ≡ failed → Step s (record s { ready = true; server = closing })
  shuts_down : (s : Threads) → s.server ≡ closing → Step s (shutdown_loop s)

-- The exceptions of the server thread: its server cannot be bound, or the loop that serves ends by one.
abbrev pub is_fault : {s t : Threads} → Step s t → Bool
is_fault (bind_fails s e) = true
is_fault (crashes s e) = true
is_fault st = false

-- `s` is led to the other state by steps of which none is a fault.
pub data Calm (s : Threads) : Threads → Type 0 where
  still : Calm s s
  onward : {t u : Threads} → Calm s t → (st : Step t u) → is_fault st ≡ false → Calm s u

pub data Reach (s : Threads) : Threads → Type 0 where
  here : Reach s s
  next : {t u : Threads} → Reach s t → Step t u → Reach s u
