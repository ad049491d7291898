-- ===== src/Loopback/Threads/Sound.antt =====
-- What holds of the threads of a loopback server after any interleaving of their steps.
use hivescope.Prelude.{◌≡◌, refl, String, Bool, true, false, Option, none, some, arith}
use hivescope.Loopback.Threads.{
  ServerPhase, binding, bound, serving, failed, closing, CallerPhase, waiting, checking, clearing,
  Threads, fresh, is_over, spawn, give_up, conclude, schedule_stop, join, clear, shutdown_loop,
  Step, run_broken, run_again, run_refused, run_starts, becomes_ready, times_out, concludes,
  stop_drains, stop_joins, drained, joined, clears, opens_loop, binds, bind_fails, serves, crashes,
  loop_stops, reports, shuts_down, Reach, here, next,
}

-- `run` waits for its server.
abbrev pub in_run : CallerPhase → Bool
in_run waiting = true
in_run checking = true
in_run phase = false

abbrev pub has_bound : ServerPhase → Bool
has_bound bound = true
has_bound serving = true
has_bound phase = false

abbrev pub is_some : Option String → Bool
is_some none = false
is_some (some u) = true

abbrev pub is_serving : ServerPhase → Bool
is_serving serving = true
is_serving phase = false

abbrev pub needs_loop : ServerPhase → Bool
needs_loop binding = true
needs_loop bound = true
needs_loop serving = true
needs_loop failed = true
needs_loop closing = true
needs_loop phase = false

abbrev pub is_failed : ServerPhase → Bool
is_failed failed = true
is_failed phase = false

abbrev pub is_clearing : CallerPhase → Bool
is_clearing clearing = true
is_clearing phase = false

pub record IsSound (s : Threads) : Type 0 where
  pub joined_only : s.thread ≡ false → is_over s.server ≡ true
  pub over : is_over s.server ≡ true → (s.listens ≡ false) × (s.loop ≡ false)
  pub busy :
      in_run s.caller ≡ true
      → (s.thread ≡ true) × (s.broken ≡ false) × (s.registered ≡ true) × (s.stopping ≡ false)
  pub up :
      in_run s.caller ≡ true → s.ready ≡ true → s.startup_error ≡ false → is_serving s.server ≡ true
  pub known : in_run s.caller ≡ true → has_bound s.server ≡ true → is_some s.url ≡ true
  pub alive : needs_loop s.server ≡ true → s.loop ≡ true
  pub reported : is_failed s.server ≡ true → s.startup_error ≡ true
  pub checked : s.caller ≡ checking → s.ready ≡ true
  pub clean :
      s.thread ≡ false
      → is_clearing s.caller ≡ false
      → (s.url ≡ none) × (s.registered ≡ false) × (s.ready ≡ false)

Step-IsSound : {s t : Threads} → Step s t → IsSound s → IsSound t
unfolding spawn give_up conclude schedule_stop join clear shutdown_loop
Step-IsSound (run_broken s c b) h = ground arith
Step-IsSound (run_again s c b t) h = ground arith
Step-IsSound (run_refused s c b t) h = ground arith
Step-IsSound (run_starts s c b t) h = ground arith
Step-IsSound (becomes_ready s c r) h = ground arith
Step-IsSound (times_out s c r) h = ground arith
Step-IsSound (concludes s c) h = ground arith
Step-IsSound (stop_drains s c l) h = ground arith
Step-IsSound (stop_joins s c l) h = ground arith
Step-IsSound (drained s c) h = ground arith
Step-IsSound (joined s c) h = ground arith
Step-IsSound (clears s c) h = ground arith
Step-IsSound (opens_loop s e) h = ground arith
Step-IsSound (binds s u e) h = ground arith
Step-IsSound (bind_fails s e) h = ground arith
Step-IsSound (serves s e) h = ground arith
Step-IsSound (crashes s e) h = ground arith
Step-IsSound (loop_stops s e st) h = ground arith
Step-IsSound (reports s e) h = ground arith
Step-IsSound (shuts_down s e) h = ground arith

fresh-IsSound : IsSound fresh
unfolding fresh
fresh-IsSound = record {
  joined_only = λ e. refl;
  over = λ e. (refl, refl);
  busy = λ e. absurd (cc);
  up = λ e r x. absurd (cc);
  known = λ e b. absurd (cc);
  alive = λ e. absurd (cc);
  reported = λ e. absurd (cc);
  checked = λ e. absurd (cc);
  clean = λ e c. (refl, refl, refl);
}

pub Reach-IsSound : {s : Threads} → Reach fresh s → IsSound s
Reach-IsSound here = fresh-IsSound
Reach-IsSound (next r st) = Step-IsSound st (Reach-IsSound r)
