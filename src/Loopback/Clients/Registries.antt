-- ===== src/Loopback/Clients/Registries.antt =====
-- The registries of hivescope/plugins/loopback.py hold exactly the running handlers, also after
-- they are drained.
use hivescope.Prelude.{
  ℕ, ◌≤◌, ◌⊎◌, nat_eq_iff, All-append, String, any, ◌≡◌, refl, ap, Bool, true, Option, some, List,
  [], ◌∷◌, ◌++◌, All, arith, filter, nat_eq, Bool-cases, inl, inr,
}
use hivescope.Outcome.{Outcome, ok, raise}
use hivescope.Recorder.{MessageRecorder}
use hivescope.Loopback.Clients.{
  Server, init, member, remove, finish, enter, Frame, undecodable, fails_in_handler, handled,
  on_frame, Event, arrives, receives, ends, step, serve, drain_clients,
}
use hivescope.Loopback.Clients.Lists.{All-remove, member_self, filter_all}
use hivescope.Loopback.Clients.Sessions.{replay, init-Serves, serve-keeps}

pub record Registers (s : Server) : Type 0 where
  pub clients : s.clients ≡ s.running
  pub sockets : s.sockets ≡ s.running
  pub handler_tasks : s.handler_tasks ≡ s.running

-- `handle_client_disconnected` returns.
abbrev pub Returns : Event → Type 0
Returns (arrives new gone) = gone ≡ ok tt
Returns (receives name peer now i frame) = Unit
Returns (ends i gone) = gone ≡ ok tt

init-Registers : (r : Option MessageRecorder) → Registers (init r)
unfolding init
init-Registers r = record { clients = refl; sockets = refl; handler_tasks = refl }

finish-Registers : (i : ℕ) (s : Server) → Registers s → Registers (finish i (ok tt) s)
unfolding finish
finish-Registers i s h = record {
  clients = ap (λ xs. remove i xs) h.clients;
  sockets = ap (λ xs. remove i xs) h.sockets;
  handler_tasks = ap (λ xs. remove i xs) h.handler_tasks;
}

entered-Registers :
    (gone : Outcome (Unit {0})) (s : Server) → Registers s → Registers (enter (ok tt) gone s)
unfolding enter
entered-Registers gone s h = record {
  clients = ap (λ xs. xs ++ s.next_conn ∷ []) h.clients;
  sockets = ap (λ xs. xs ++ s.next_conn ∷ []) h.sockets;
  handler_tasks = ap (λ xs. xs ++ s.next_conn ∷ []) h.handler_tasks;
}

enter-Registers :
    (new : Outcome (Unit {0})) (s : Server) → Registers s → Registers (enter new (ok tt) s)
unfolding enter
enter-Registers (ok u) s h = entered-Registers (ok tt) s h
enter-Registers (raise e) s h =
    finish-Registers s.next_conn (enter (ok tt) (ok tt) s) (entered-Registers (ok tt) s h)

on_frame-Registers :
    (name peer : String) (now i : ℕ) (frame : Frame) (s : Server)
    → Registers s
    → Registers (on_frame name peer now i frame s)
unfolding on_frame
on_frame-Registers name peer now i (undecodable error) s h = record {
  clients = h.clients;
  sockets = h.sockets;
  handler_tasks = h.handler_tasks;
}
on_frame-Registers name peer now i (fails_in_handler error) s h = record {
  clients = h.clients;
  sockets = h.sockets;
  handler_tasks = h.handler_tasks;
}
on_frame-Registers name peer now i handled s h = record {
  clients = h.clients;
  sockets = h.sockets;
  handler_tasks = h.handler_tasks;
}

step-Registers : (e : Event) (s : Server) → Returns e → Registers s → Registers (step e s)
unfolding step
step-Registers (arrives new gone) s r h = rw r (enter-Registers new s h)
step-Registers (receives name peer now i frame) s r h = elim (Bool-cases (member i s.running)) [
  | inl m ↦ rw m (on_frame-Registers name peer now i frame s h)
  | inr m ↦ rw m h
]
step-Registers (ends i gone) s r h = elim (Bool-cases (member i s.running)) [
  | inl m ↦ rw (m, r) (finish-Registers i s h)
  | inr m ↦ rw m h
]

serve-keeps_Registers :
    (es : List Event) (s : Server) → All Returns es → Registers s → Registers (serve es s)
unfolding serve
serve-keeps_Registers [] s r h = h
serve-keeps_Registers (e ∷ es) s r h =
    serve-keeps_Registers es (step e s) r.1 (step-Registers e s r.0 h)

-- Of the connections that are running, each was there, or has come after `n` had been given out.
abbrev pub Known : (there : List ℕ) (n : ℕ) → Server → Type 0
Known there n s = All (λ i. (member i there ≡ true) ⊎ (n ≤ i)) s.running × (n ≤ s.next_conn)

-- A task that is over leaves the others.
finish-Known :
    (there : List ℕ) (n i : ℕ) (gone : Outcome (Unit {0})) (s : Server)
    → Known there n s
    → Known there n (finish i gone s)
unfolding finish
finish-Known there n i (ok u) s h =
    (All-remove (λ j. (member j there ≡ true) ⊎ (n ≤ j)) i s.running h.0, h.1)
finish-Known there n i (raise e) s h =
    (All-remove (λ j. (member j there ≡ true) ⊎ (n ≤ j)) i s.running h.0, h.1)

entered-Known :
    (there : List ℕ) (n : ℕ) (gone : Outcome (Unit {0})) (s : Server)
    → Known there n s
    → Known there n (enter (ok tt) gone s)
unfolding enter
entered-Known there n gone s h = (
  All-append (λ j. (member j there ≡ true) ⊎ (n ≤ j)) s.running (s.next_conn ∷ []) h.0
      (inr h.1, tt),
  omega (arith, h.1),
)

enter-Known :
    (there : List ℕ) (n : ℕ) (new gone : Outcome (Unit {0})) (s : Server)
    → Known there n s
    → Known there n (enter new gone s)
unfolding enter
enter-Known there n (ok u) gone s h = entered-Known there n gone s h
enter-Known there n (raise e) gone s h =
    finish-Known there n s.next_conn gone (enter (ok tt) gone s) (entered-Known there n gone s h)

on_frame-Known :
    (there : List ℕ) (n : ℕ) (name peer : String) (now i : ℕ) (frame : Frame) (s : Server)
    → Known there n s
    → Known there n (on_frame name peer now i frame s)
unfolding on_frame
on_frame-Known there n name peer now i (undecodable error) s h = h
on_frame-Known there n name peer now i (fails_in_handler error) s h = h
on_frame-Known there n name peer now i handled s h = h

step-Known :
    (there : List ℕ) (n : ℕ) (e : Event) (s : Server) → Known there n s → Known there n (step e s)
unfolding step
step-Known there n (arrives new gone) s h = enter-Known there n new gone s h
step-Known there n (receives name peer now i frame) s h = elim (Bool-cases (member i s.running)) [
  | inl m ↦ rw m (on_frame-Known there n name peer now i frame s h)
  | inr m ↦ rw m h
]
step-Known there n (ends i gone) s h = elim (Bool-cases (member i s.running)) [
  | inl m ↦ rw m (finish-Known there n i gone s h)
  | inr m ↦ rw m h
]

serve-Known :
    (there : List ℕ) (n : ℕ) (es : List Event) (s : Server)
    → Known there n s
    → Known there n (serve es s)
unfolding serve
serve-Known there n [] s h = h
serve-Known there n (e ∷ es) s h = serve-Known there n es (step e s) (step-Known there n e s h)

member-filter :
    (p : ℕ → Bool) (i : ℕ) (xs : List ℕ)
    → member i xs ≡ true
    → p i ≡ true
    → member i (filter p xs) ≡ true
unfolding member any filter
member-filter p i [] h q = h
member-filter p i (x ∷ xs) h q = elim (Bool-cases (nat_eq i x)) [
  | inl e ↦
      let same : i ≡ x = (nat_eq_iff i x).0 e in
      let kept : p x ≡ true = rw (← same) q in rw kept (rw e refl)
  | inr e ↦
      let rest = member-filter p i xs (ground (arith)) q in
      elim (Bool-cases (p x)) [ inl k ↦ rw k (rw e rest) | inr k ↦ rw k rest ]
]

-- What runs and was there is among the tasks that are kept by `p`.
kept_or_new :
    (p : ℕ → Bool) (there : List ℕ) (n : ℕ) (xs : List ℕ)
    → All (λ i. (member i there ≡ true) ⊎ (n ≤ i)) xs
    → All (λ i. p i ≡ true) xs
    → All (λ i. (member i (filter p there) ≡ true) ⊎ (n ≤ i)) xs
kept_or_new p there n [] h k = tt
kept_or_new p there n (x ∷ xs) h k = (
  elim h.0 [ inl m ↦ inl (member-filter p x there m k.0) | inr le ↦ inr le ],
  kept_or_new p there n xs h.1 k.1,
)

members_known :
    (n : ℕ) (xs there : List ℕ)
    → All (λ i. member i there ≡ true) xs
    → All (λ i. (member i there ≡ true) ⊎ (n ≤ i)) xs
members_known n [] there h = tt
members_known n (x ∷ xs) there h = (inl h.0, members_known n xs there h.1)

-- If `handle_client_disconnected` always returns: whatever has happened on the loop before `_drain_clients` and happens
-- while it waits, new connections included, `_drain_clients` closes the socket of every connection whose
-- handler runs when it begins. When it ends, the registries of clients, sockets and handler tasks hold exactly
-- the connections whose handlers still run, and the protocol has been told that all others are gone. Each that
-- still runs has had its task cancelled, or has arrived after the sockets had been closed.
pub drain_clients_lem :
    (before closing waiting : List Event) (r : Option MessageRecorder)
    → All Returns before
    → All Returns closing
    → All Returns waiting
    → let s = serve before (init r) in
      let d = drain_clients closing waiting s in
      (d.closed_sockets ≡ s.running)
      × Registers d.left
      × (replay d.left.calls [] ≡ some d.left.running)
      × All (λ i. (member i d.cancelled ≡ true) ⊎ ((serve closing s).next_conn ≤ i)) d.left.running
unfolding drain_clients
drain_clients_lem before closing waiting r rb rc rest =
    let s = serve before (init r) in
    let t = serve closing s in
    let u = serve waiting t in
    let registers = serve-keeps_Registers before (init r) rb (init-Registers r) in
    let at_tasks = serve-keeps_Registers closing s rc registers in
    let serves =
      serve-keeps waiting t (serve-keeps closing s (serve-keeps before (init r) (init-Serves r))) in
    let tasks : filter (λ i. member i t.running) t.handler_tasks ≡ t.running =
      rw at_tasks.handler_tasks
        (filter_all (λ i. member i t.running) t.running (member_self t.running)) in
    let known =
      serve-Known t.running t.next_conn waiting t
        (members_known t.next_conn t.running t.running (member_self t.running), omega arith) in
    (
      registers.sockets,
      serve-keeps_Registers waiting t rest at_tasks,
      serves.sessions,
      rw tasks (
          kept_or_new (λ i. member i u.running) t.running t.next_conn u.running known.0
            (member_self u.running)),
    )
