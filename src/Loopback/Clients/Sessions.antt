-- ===== src/Loopback/Clients/Sessions.antt =====
-- What the protocol is told of the connections of hivescope/plugins/loopback.py is, for every order of
-- events, a history of sessions: each is opened once, gets its messages, and is closed once.
use hivescope.Prelude.{
  ℕ, suc, String, ◌<◌, ◌≡◌, refl, true, false, Option, none, some, List, [], ◌∷◌, ◌++◌, All,
  All-append, arith, Bool-cases, Option-cases, inl, inr, if◌then◌else◌,
}
use hivescope.Outcome.{Outcome, ok, raise}
use hivescope.Recorder.{MessageRecorder}
use hivescope.Loopback.Clients.{
  Call, handle_new_client, handle_message, handle_client_disconnected, Server, init, member, remove,
  told, finish, enter, Frame, undecodable, fails_in_handler, handled, on_frame, Event, arrives,
  receives, ends, step, serve,
}
use hivescope.Loopback.Clients.Lists.{All-remove, All-mono, member-fresh, member-snoc}

-- The open sessions after a call; none if the call breaks the protocol of sessions.
unfoldable pub observe : Call → List ℕ → Option (List ℕ)
unfolding member remove
observe (handle_new_client i) live = if member i live then none else some (live ++ i ∷ [])
observe (handle_message i) live = if member i live then some live else none
observe (handle_client_disconnected i) live = if member i live then some (remove i live) else none

unfoldable pub replay : List Call → List ℕ → Option (List ℕ)
unfolding observe
replay [] live = some live
replay (c ∷ cs) live = elim (observe c live) [ none ↦ none | some after ↦ replay cs after ]

replay-snoc :
    (cs : List Call) (c : Call) (live mid after : List ℕ)
    → replay cs live ≡ some mid
    → observe c mid ≡ some after
    → replay (cs ++ c ∷ []) live ≡ some after
unfolding replay
replay-snoc [] c live mid after h k = ground (arith)
replay-snoc (d ∷ cs) c live mid after h k = elim (Option-cases (observe d live)) [
  | inl e ↦ absurd (ground (arith))
  | inr (next, e) ↦ rw (replay, e) (replay-snoc cs c next mid after (rw (replay, e) at h) k)
]

-- The abstract view: the calls that were made are a history of sessions, and those open are of the handlers
-- that run.
pub record Serves (s : Server) : Type 0 where
  pub fresh : All (λ i. i < s.next_conn) s.running
  pub sessions : replay s.calls [] ≡ some s.running

pub init-Serves : (r : Option MessageRecorder) → Serves (init r)
unfolding init replay
init-Serves r = record { fresh = tt; sessions = refl }

opened :
    (i : ℕ) (live : List ℕ)
    → member i live ≡ false
    → observe (handle_new_client i) live ≡ some (live ++ i ∷ [])
unfolding observe
opened i live m = rw m refl

spoken :
    (i : ℕ) (live : List ℕ) → member i live ≡ true → observe (handle_message i) live ≡ some live
unfolding observe
spoken i live m = rw m refl

left :
    (i : ℕ) (live : List ℕ)
    → member i live ≡ true
    → observe (handle_client_disconnected i) live ≡ some (remove i live)
unfolding observe
left i live m = rw m refl

finish-Serves :
    (i : ℕ) (gone : Outcome (Unit {0})) (s : Server)
    → member i s.running ≡ true
    → Serves s
    → Serves (finish i gone s)
unfolding finish
finish-Serves i (ok u) s m h = record {
  fresh = All-remove (λ j. j < s.next_conn) i s.running h.fresh;
  sessions = replay-snoc s.calls _ [] s.running _ h.sessions (left i s.running m);
}
finish-Serves i (raise e) s m h = record {
  fresh = All-remove (λ j. j < s.next_conn) i s.running h.fresh;
  sessions = replay-snoc s.calls _ [] s.running _ h.sessions (left i s.running m);
}

entered-Serves : (gone : Outcome (Unit {0})) (s : Server) → Serves s → Serves (enter (ok tt) gone s)
unfolding enter
entered-Serves gone s h =
    let i = s.next_conn in
    record {
      fresh =
          All-append (λ j. j < suc i) s.running (i ∷ [])
            (All-mono i (suc i) s.running (omega arith) h.fresh) (omega arith, tt);
      sessions =
          replay-snoc s.calls _ [] s.running _ h.sessions
            (opened i s.running (member-fresh i s.running h.fresh));
    }

enter-Serves : (new gone : Outcome (Unit {0})) (s : Server) → Serves s → Serves (enter new gone s)
unfolding enter
enter-Serves (ok u) gone s h = entered-Serves gone s h
enter-Serves (raise e) gone s h =
    finish-Serves s.next_conn gone (enter (ok tt) gone s) (member-snoc s.next_conn s.running)
      (entered-Serves gone s h)

told-Serves :
    (i : ℕ) (s : Server) → member i s.running ≡ true → Serves s → Serves (told (handle_message i) s)
told-Serves i s m h = record {
  fresh = h.fresh;
  sessions =
      replay-snoc s.calls (handle_message i) [] s.running s.running h.sessions
        (spoken i s.running m);
}

on_frame-Serves :
    (name peer : String) (now i : ℕ) (frame : Frame) (s : Server)
    → member i s.running ≡ true
    → Serves s
    → Serves (on_frame name peer now i frame s)
unfolding on_frame
on_frame-Serves name peer now i (undecodable error) s m h = record {
  fresh = h.fresh;
  sessions = h.sessions;
}
on_frame-Serves name peer now i (fails_in_handler error) s m h =
    let k = told-Serves i s m h in record { fresh = k.fresh; sessions = k.sessions }
on_frame-Serves name peer now i handled s m h = told-Serves i s m h

pub step-Serves : (e : Event) (s : Server) → Serves s → Serves (step e s)
unfolding step
step-Serves (arrives new gone) s h = enter-Serves new gone s h
step-Serves (receives name peer now i frame) s h = elim (Bool-cases (member i s.running)) [
  | inl m ↦ rw m (on_frame-Serves name peer now i frame s m h)
  | inr m ↦ rw m h
]
step-Serves (ends i gone) s h = elim (Bool-cases (member i s.running)) [
  | inl m ↦ rw m (finish-Serves i gone s m h)
  | inr m ↦ rw m h
]

-- From any state that serves, every series of events leads to one that serves.
pub serve-keeps : (es : List Event) (s : Server) → Serves s → Serves (serve es s)
unfolding serve
serve-keeps [] s h = h
serve-keeps (e ∷ es) s h = serve-keeps es (step e s) (step-Serves e s h)
