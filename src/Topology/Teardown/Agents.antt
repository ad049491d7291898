-- ===== src/Topology/Teardown/Agents.antt =====
-- `stop_all` of hivescope/topology.py and the agent protocols of several masters on one bus: it shuts them down
-- in the order in which the builder holds the masters. The agent protocol of a master has the master's number.
use hivescope.Prelude.{ℕ, ◌≡◌, refl, false, some, List, [], ◌∷◌, ◌++◌, All, nat_eq}
use hivescope.Topology.{Master}
use hivescope.Agent.Bus.{Emit, recording, Bus, post_init, shutdown}
use hivescope.Agent.Bus.Nesting.{shutdown-emit, nat_eq_refl}
use hivescope.Agent.Bus.Leaking.{shutdown-inner}

-- The agents are made.
unfoldable pub make_agents : List Master → Bus → Bus
make_agents [] b = b
make_agents (m ∷ ms) b = make_agents ms (post_init m.id b)

-- The loop of `stop_all` calls `shutdown` of each.
unfoldable pub stop_agents : List Master → Bus → Bus
stop_agents [] b = b
stop_agents (m ∷ ms) b = stop_agents ms (shutdown m.id b)

-- `emit` with a wrapper of each, the first innermost.
unfoldable pub wrapped : List Master → Emit → Emit
wrapped [] e = e
wrapped (m ∷ ms) e = wrapped ms (recording m.id e)

make_agents-snoc :
    (ms : List Master) (n : Master) (b : Bus)
    → make_agents (ms ++ n ∷ []) b ≡ post_init n.id (make_agents ms b)
unfolding make_agents
make_agents-snoc [] n b = refl
make_agents-snoc (m ∷ ms) n b = make_agents-snoc ms n (post_init m.id b)

stop_agents-snoc :
    (ms : List Master) (n : Master) (b : Bus)
    → stop_agents (ms ++ n ∷ []) b ≡ shutdown n.id (stop_agents ms b)
unfolding stop_agents
stop_agents-snoc [] n b = refl
stop_agents-snoc (m ∷ ms) n b = stop_agents-snoc ms n (shutdown m.id b)

make_agents-emit : (ms : List Master) (b : Bus) → (make_agents ms b).emit ≡ wrapped ms b.emit
unfolding make_agents wrapped post_init
make_agents-emit [] b = refl
make_agents-emit (m ∷ ms) b = make_agents-emit ms (post_init m.id b)

-- The shutdowns of the others leave the outermost wrapper and what it keeps.
others_stop :
    (n : ℕ) (e : Emit) (ms : List Master) (b : Bus)
    → All (λ m. nat_eq m.id n ≡ false) ms
    → b.emit ≡ recording n e
    → b.orig_emit n ≡ some e
    → ((stop_agents ms b).emit ≡ recording n e) × ((stop_agents ms b).orig_emit n ≡ some e)
unfolding stop_agents
others_stop n e [] b apart top kept = (top, kept)
others_stop n e (m ∷ ms) b apart top kept =
    others_stop n e ms (shutdown m.id b) apart.1 (shutdown-inner m.id n e b apart.0 top)
      (unfold shutdown in rw apart.0 kept)

outermost :
    (n : ℕ) (e : Emit) (c : Bus)
    → c.emit ≡ e
    → ((post_init n c).emit ≡ recording n e) × ((post_init n c).orig_emit n ≡ some e)
unfolding post_init
outermost n e c same = rw (same, nat_eq_refl n) (refl, refl)

-- On one bus, the agent protocols of any masters, the last one's apart from the others', are made in the order
-- in which the builder holds the masters, and `stop_all` shuts them down in that order: every wrapper but the
-- last one's stays on the bus, around the `emit` that it had.
pub stop_agents-make_agents :
    (ms : List Master) (n : Master) (b : Bus)
    → All (λ m. nat_eq m.id n.id ≡ false) ms
    → (stop_agents (ms ++ n ∷ []) (make_agents (ms ++ n ∷ []) b)).emit ≡ wrapped ms b.emit
stop_agents-make_agents ms n b apart =
    let c = make_agents ms b in
    let (top, kept) = outermost n.id (wrapped ms b.emit) c (make_agents-emit ms b) in
    let (left, still) = others_stop n.id (wrapped ms b.emit) ms (post_init n.id c) apart top kept in
    rw (make_agents-snoc ms n b, stop_agents-snoc ms n (post_init n.id c))
      (shutdown-emit n.id (wrapped ms b.emit) (stop_agents ms (post_init n.id c)) left still)
