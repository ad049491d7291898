-- ===== src/Loopback/Threads/Late.antt =====
-- A loopback server that is bound after `run` has given up.
use hivescope.Prelude.{◌≡◌, refl, String, true, false, some}
use hivescope.Outcome.{raise, runtime_error}
use hivescope.Loopback.Threads.{
  serving, free, Threads, fresh, spawn, give_up, run_starts, times_out, opens_loop, binds, serves,
  Reach, here, next,
}

-- For any URL there is an interleaving after which `run` has raised, the instance is broken and its floor is
-- off the registry, while its server serves and the instance has the URL.
pub late_server :
    (u : String)
    → (s : Threads) × Reach fresh s
      × (s.result ≡ raise runtime_error)
      × (s.caller ≡ free)
      × (s.broken ≡ true)
      × (s.registered ≡ false)
      × (s.server ≡ serving)
      × (s.listens ≡ true)
      × (s.url ≡ some u)
unfolding fresh spawn give_up
late_server u =
    let starts = next here (run_starts fresh refl refl refl) in
    let gives_up = next starts (times_out _ refl refl) in
    let opens = next gives_up (opens_loop _ refl) in
    let bound = next opens (binds _ u refl) in
    (_, next bound (serves _ refl), refl, refl, refl, refl, refl, refl, refl)
