-- ===== src/Loopback/Threads/Running.antt =====
-- What the threads of a loopback server guarantee.
use hivescope.Prelude.{◌≡◌, refl, String, true, false, Option, none, some, arith}
use hivescope.Outcome.{ok}
use hivescope.Loopback.Threads.Sound.{is_some, is_serving, Reach-IsSound}
use hivescope.Loopback.Threads.{
  ServerPhase, absent, spawned, binding, bound, serving, failed, closing, ended, free, checking,
  Threads, fresh, is_over, give_up, conclude, Reach,
}

known_url : (o : Option String) → is_some o ≡ true → (u : String) × (o ≡ some u)
known_url none h = absurd (cc)
known_url (some u) h = (u, refl)

serving_is : (p : ServerPhase) → is_serving p ≡ true → p ≡ serving
serving_is serving h = refl
serving_is absent h = absurd (cc)
serving_is spawned h = absurd (cc)
serving_is binding h = absurd (cc)
serving_is bound h = absurd (cc)
serving_is failed h = absurd (cc)
serving_is closing h = absurd (cc)
serving_is ended h = absurd (cc)

no_error : (s : Threads) → (conclude s).result ≡ ok tt → s.startup_error ≡ false
unfolding conclude give_up
no_error s h = ground arith

-- However the steps of the two threads are interleaved: when a `run` that has waited for its server returns
-- without an error, the server is in its loop, its URL is known, its floor is registered and the instance is
-- not broken.
pub run_returns_serving :
    {s : Threads}
    → Reach fresh s
    → s.caller ≡ checking
    → (conclude s).result ≡ ok tt
    → (u : String) × ((conclude s).url ≡ some u)
      × ((conclude s).server ≡ serving)
      × ((conclude s).registered ≡ true)
      × ((conclude s).broken ≡ false)
unfolding conclude
run_returns_serving {s} r c e =
    let h = Reach-IsSound r in
    let fine = no_error s e in
    let up = h.up (ground arith) (h.checked c) fine in
    let (u, q) = known_url s.url (h.known (ground arith) (ground arith)) in
    rw fine (u, q, serving_is s.server up, ground (arith, h.busy), ground (arith, h.busy))

-- Between two calls, however the threads are interleaved: an instance that holds no thread has none alive,
-- so that the next `run` starts no second server beside one, and it has no open socket, no event loop, no
-- URL and no floor in the registry.
pub no_thread-IsClean :
    {s : Threads}
    → Reach fresh s
    → s.caller ≡ free
    → s.thread ≡ false
    → (is_over s.server ≡ true)
      × (s.listens ≡ false)
      × (s.loop ≡ false)
      × (s.url ≡ none)
      × (s.registered ≡ false)
no_thread-IsClean {s} r c t =
    let h = Reach-IsSound r in
    let over = h.joined_only t in
    let (u, f, e) = h.clean t (rw c refl) in (over, (h.over over).0, (h.over over).1, u, f)
