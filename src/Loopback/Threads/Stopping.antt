-- ===== src/Loopback/Threads/Stopping.antt =====
-- `stop` can always be brought to its end.
use hivescope.Prelude.{◌≡◌, refl, true, false, none, arith, Bool-cases, inl, inr}
use hivescope.Loopback.Threads.{
  ServerPhase, absent, spawned, binding, bound, serving, failed, closing, ended, free, draining,
  joining, clearing, Threads, fresh, is_over, schedule_stop, join, clear, shutdown_loop, Step,
  stop_drains, stop_joins, drained, joined, clears, opens_loop, binds, serves, loop_stops, reports,
  shuts_down, Reach, Calm, still, onward, is_fault,
}
use hivescope.Loopback.Threads.Sound.{IsSound, Reach-IsSound}

Calm-trans : {s t u : Threads} → Calm s t → Calm t u → Calm s u
Calm-trans r still = r
Calm-trans r (onward q st n) = onward (Calm-trans r q) st n

-- What is left of a `stop`.
abbrev pub IsStopped : Threads → Type 0
IsStopped s =
    (s.caller ≡ free)
    × (s.thread ≡ false)
    × (is_over s.server ≡ true)
    × (s.url ≡ none)
    × (s.registered ≡ false)

abbrev Stops : Threads → Type 0
Stops s = (t : Threads) × Calm s t × IsStopped t

-- The server's steps, and then the caller's.
first : {s t : Threads} (st : Step s t) → is_fault st ≡ false → Stops t → Stops s
first st n (t, r, q) = (t, Calm-trans (onward still st n) r, q)

clearing_stops :
    (s : Threads) → s.caller ≡ clearing → s.thread ≡ false → is_over s.server ≡ true → Stops s
unfolding clear
clearing_stops s c t o = (clear s, onward still (clears s c) refl, (refl, t, o, refl, refl))

joining_stops : (s : Threads) → s.caller ≡ joining → is_over s.server ≡ true → Stops s
unfolding join
joining_stops s c o = elim (Bool-cases s.thread) [
  | inl t ↦
      first (joined s c) refl
        (rw (t, o) (clearing_stops (record s { thread = false; caller = clearing }) refl refl o))
  | inr t ↦
      first (joined s c) refl
        (rw t (clearing_stops (record s { thread = false; caller = clearing }) refl refl o))
]

idle_stops : (s : Threads) → s.caller ≡ free → s.loop ≡ false → is_over s.server ≡ true → Stops s
idle_stops s c l o = first (stop_joins s c l) refl (joining_stops _ refl o)

serving_stops : (s : Threads) → s.caller ≡ free → s.loop ≡ true → s.server ≡ serving → Stops s
unfolding schedule_stop shutdown_loop
serving_stops s c l e =
    let drains = stop_drains s c l in
    let d = record s { caller = draining } in
    let scheduled : (schedule_stop d).stopping ≡ true = rw e (ground arith) in
    first drains refl (
      first (drained d refl) refl (
        first (loop_stops (schedule_stop d) e scheduled) refl (
          first (shuts_down (record (schedule_stop d) { server = closing }) refl) refl
            (joining_stops _ refl refl))))

closing_stops : (s : Threads) → s.caller ≡ free → s.server ≡ closing → Stops s
unfolding shutdown_loop
closing_stops s c e = first (shuts_down s e) refl (idle_stops _ c refl refl)

bound_stops : (s : Threads) → s.caller ≡ free → s.loop ≡ true → s.server ≡ bound → Stops s
bound_stops s c l e = first (serves s e) refl (serving_stops _ c l refl)

binding_stops : (s : Threads) → s.caller ≡ free → s.loop ≡ true → s.server ≡ binding → Stops s
binding_stops s c l e = first (binds s "" e) refl (bound_stops _ c l refl)

stops_at : (p : ServerPhase) (s : Threads) → s.server ≡ p → s.caller ≡ free → IsSound s → Stops s
stops_at absent s e c h = idle_stops s c (h.over (rw e refl)).1 (rw e refl)
stops_at ended s e c h = idle_stops s c (h.over (rw e refl)).1 (rw e refl)
stops_at spawned s e c h = first (opens_loop s e) refl (binding_stops _ c refl refl)
stops_at binding s e c h = binding_stops s c (h.alive (rw e refl)) e
stops_at bound s e c h = bound_stops s c (h.alive (rw e refl)) e
stops_at serving s e c h = serving_stops s c (h.alive (rw e refl)) e
stops_at failed s e c h = first (reports s e) refl (closing_stops _ c refl)
stops_at closing s e c h = closing_stops s c e

-- `stop` can always be brought to its end without a fault of the server: between two calls, in whatever state the
-- interleaving has left the two threads, there are further steps, none of which is an exception of the server
-- thread, to a state between two calls in which no thread is alive or held, and the instance has no URL and no
-- floor in the registry.
pub stop_can_end :
    {s : Threads} → Reach fresh s → s.caller ≡ free → (t : Threads) × Calm s t × IsStopped t
stop_can_end {s} r c = stops_at s.server s refl c (Reach-IsSound r)
