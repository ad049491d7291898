-- ===== src/Loopback/Threads/Tests.antt =====
-- A server that starts and is stopped, and one that comes too late.
use hivescope.Prelude.{◌≡◌, refl, String, true, false, none, some}
use hivescope.Outcome.{raise, runtime_error}
use hivescope.Loopback.Threads.{
  serving, free, Threads, fresh, is_over, spawn, give_up, conclude, schedule_stop, join, clear,
  shutdown_loop, run_starts, becomes_ready, concludes, stop_drains, drained, joined, clears,
  opens_loop, binds, serves, loop_stops, shuts_down, Reach, Calm, here, next,
}
use hivescope.Loopback.Threads.Running.{run_returns_serving, no_thread-IsClean}
use hivescope.Loopback.Threads.Late.{late_server}
use hivescope.Loopback.Threads.Stopping.{IsStopped, stop_can_end}

-- `run` up to its look at the error.
abbrev started : (s : Threads) × Reach fresh s
unfolding fresh spawn
started =
    let spawns = next here (run_starts fresh refl refl refl) in
    let opens = next spawns (opens_loop _ refl) in
    let bound = next opens (binds _ "ws://127.0.0.1:4711/" refl) in
    (_, next (next bound (serves _ refl)) (becomes_ready _ refl refl))

-- The same, `run` having returned, and then `stop`.
abbrev stopped : (s : Threads) × Reach fresh s
unfolding fresh spawn conclude give_up schedule_stop join clear shutdown_loop
stopped =
    let runs = next started.1 (concludes _ refl) in
    let drains = next (next runs (stop_drains _ refl refl)) (drained _ refl) in
    let shuts = next (next drains (loop_stops _ refl refl)) (shuts_down _ refl) in
    (_, next (next shuts (joined _ refl)) (clears _ refl))

stopped_server : (stopped.0.url ≡ none) × (stopped.0.thread ≡ false) × (stopped.0.broken ≡ false)
unfolding fresh spawn conclude give_up schedule_stop join clear shutdown_loop
stopped_server = (refl, refl, refl)

run_returns_serving_example :
    (u : String) × ((conclude started.0).url ≡ some u)
    × ((conclude started.0).server ≡ serving)
    × ((conclude started.0).registered ≡ true)
    × ((conclude started.0).broken ≡ false)
unfolding fresh spawn conclude give_up
run_returns_serving_example = run_returns_serving started.1 refl refl

no_thread-IsClean_example :
    (is_over stopped.0.server ≡ true)
    × (stopped.0.listens ≡ false)
    × (stopped.0.loop ≡ false)
    × (stopped.0.url ≡ none)
    × (stopped.0.registered ≡ false)
unfolding fresh spawn conclude give_up schedule_stop join clear shutdown_loop
no_thread-IsClean_example = no_thread-IsClean stopped.1 refl refl

late_server_example :
    (s : Threads) × Reach fresh s
    × (s.result ≡ raise runtime_error)
    × (s.caller ≡ free)
    × (s.broken ≡ true)
    × (s.registered ≡ false)
    × (s.server ≡ serving)
    × (s.listens ≡ true)
    × (s.url ≡ some "ws://127.0.0.1:4711/")
late_server_example = late_server "ws://127.0.0.1:4711/"

stop_can_end_example : (t : Threads) × Calm (late_server "ws://127.0.0.1:4711/").0 t × IsStopped t
stop_can_end_example =
    stop_can_end (late_server "ws://127.0.0.1:4711/").1 (late_server "ws://127.0.0.1:4711/").3
