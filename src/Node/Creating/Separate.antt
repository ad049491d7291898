-- ===== src/Node/Creating/Separate.antt =====
-- Masters of hivescope/node.py share what the caller gives, and nothing else.
use hivescope.Prelude.{
  ℕ, ◌+◌, ◌≤◌, ◌<◌, ◌≡◌, ◌≢◌, refl, Bool, true, false, Option, none, some, List, [], ◌∷◌, All,
  arith,
}
use hivescope.Node.Creating.{
  Request, MasterNode, create_master, create_masters, or_made, network_for,
}

abbrev pub GivenBelow : ℕ → Option ℕ → Type 0
GivenBelow n none = Unit
GivenBelow n (some x) = x < n

-- The agent and the database that are given are there before.
abbrev pub IsGiven : ℕ → Request → Type 0
IsGiven n r = GivenBelow n r.agent_protocol × GivenBelow n r.db

-- Two masters have different objects; an agent or a database that both have was given.
abbrev pub Apart : ℕ → MasterNode → MasterNode → Type 0
Apart start m k =
    (m.identity ≢ k.identity)
    × (m.binary_protocol ≢ k.binary_protocol)
    × (m.hm_protocol ≢ k.hm_protocol)
    × (m.recorder ≢ k.recorder)
    × (m.network_protocol ≢ k.network_protocol)
    × (m.agent_protocol ≡ k.agent_protocol → m.agent_protocol < start)
    × (m.db ≡ k.db → m.db < start)

abbrev pub AllApart : ℕ → List MasterNode → Type 0
AllApart start [] = Unit
AllApart start (m ∷ ms) = All (Apart start m) ms × AllApart start ms

-- The parts of a master have one agent, one database, one listener and one recorder.
abbrev pub IsWhole : MasterNode → Type 0
IsWhole m =
    (m.binary_agent ≡ m.agent_protocol)
    × (m.listener.agent_protocol ≡ m.agent_protocol)
    × (m.listener.db ≡ m.db)
    × (m.listener.identity ≡ m.identity)
    × (m.listener.binary_data_protocol ≡ m.binary_protocol)
    × (m.listener.recorder ≡ m.recorder)
    × (m.network.hm_protocol ≡ m.hm_protocol)

listener_of : (b : Bool) (l r : ℕ) → (network_for b l r).hm_protocol ≡ l
listener_of true l r = refl
listener_of false l r = refl

-- Made from `n` on.
abbrev Later : ℕ → ℕ → MasterNode → Type 0
Later start n k =
    (n ≤ k.identity)
    × (n ≤ k.binary_protocol)
    × (n ≤ k.hm_protocol)
    × (n ≤ k.recorder)
    × (n ≤ k.network_protocol)
    × (start ≤ k.agent_protocol → n ≤ k.agent_protocol)
    × (start ≤ k.db → n ≤ k.db)

or_made_later :
    (start n made : ℕ) (o : Option ℕ)
    → n ≤ made
    → GivenBelow start o
    → start ≤ or_made o made
    → n ≤ or_made o made
or_made_later start n made none h g s = h
or_made_later start n made (some x) h g s = absurd (omega arith)

Later-step :
    (start : ℕ) (r : Request) (n l : ℕ)
    → l ≤ n
    → IsGiven start r
    → Later start l (create_master r n).0
unfolding create_master
Later-step start r n l h g = (
  h,
  omega arith,
  omega arith,
  omega arith,
  omega arith,
  or_made_later start l (n + 2) r.agent_protocol (omega arith) g.0,
  or_made_later start l (n + 1) r.db (omega arith) g.1,
)

create_masters-Later :
    (start : ℕ) (rs : List Request) (n l : ℕ)
    → l ≤ n
    → All (IsGiven start) rs
    → All (Later start l) (create_masters rs n)
unfolding create_masters create_master
create_masters-Later start [] n l h g = tt
create_masters-Later start (r ∷ rs) n l h g =
    (Later-step start r n l h g.0, create_masters-Later start rs (n + 7) l (omega arith) g.1)

shared_given :
    (start n made a : ℕ) (o : Option ℕ)
    → start ≤ made
    → made < n
    → GivenBelow start o
    → (start ≤ a → n ≤ a)
    → or_made o made ≡ a
    → or_made o made < start
shared_given start n made a none low high g later e = absurd (omega (arith, later (omega arith)))
shared_given start n made a (some x) low high g later e = g

Apart-step :
    (start : ℕ) (r : Request) (n : ℕ) (k : MasterNode)
    → start ≤ n
    → IsGiven start r
    → Later start (n + 7) k
    → Apart start (create_master r n).0 k
unfolding create_master
Apart-step start r n k h g later = (
  λ e. omega arith,
  λ e. omega arith,
  λ e. omega arith,
  λ e. omega arith,
  λ e. omega arith,
  shared_given start (n + 7) (n + 2) k.agent_protocol r.agent_protocol (omega arith) (omega arith)
      g.0 later.5,
  shared_given start (n + 7) (n + 1) k.db r.db (omega arith) (omega arith) g.1 later.6,
)

All-Apart :
    (start : ℕ) (r : Request) (n : ℕ) (ks : List MasterNode)
    → start ≤ n
    → IsGiven start r
    → All (Later start (n + 7)) ks
    → All (Apart start (create_master r n).0) ks
All-Apart start r n [] h g later = tt
All-Apart start r n (k ∷ ks) h g later =
    (Apart-step start r n k h g later.0, All-Apart start r n ks h g later.1)

create_masters-Apart :
    (start : ℕ) (rs : List Request) (n : ℕ)
    → start ≤ n
    → All (IsGiven start) rs
    → AllApart start (create_masters rs n)
unfolding create_masters
create_masters-Apart start [] n h g = tt
create_masters-Apart start (r ∷ rs) n h g =
    let after : n + 7 ≡ (create_master r n).1 = unfold create_master in refl in
    (
      All-Apart start r n (create_masters rs (create_master r n).1) h g.0
          (rw (← after) (create_masters-Later start rs (n + 7) (n + 7) (omega arith) g.1)),
      create_masters-Apart start rs (create_master r n).1 (rw (← after) (omega arith)) g.1,
    )

create_master-IsWhole : (r : Request) (n : ℕ) → IsWhole (create_master r n).0
unfolding create_master
create_master-IsWhole r n =
    (refl, refl, refl, refl, refl, refl, listener_of r.use_loopback (n + 4) (n + 5))

create_masters-IsWhole : (rs : List Request) (n : ℕ) → All IsWhole (create_masters rs n)
unfolding create_masters
create_masters-IsWhole [] n = tt
create_masters-IsWhole (r ∷ rs) n =
    (create_master-IsWhole r n, create_masters-IsWhole rs (create_master r n).1)

-- Where the agents and databases that the callers give are there before: of any series of masters that
-- `MasterNode.create` makes, no two share an identity, a binary protocol, a listener, a recorder or a network
-- protocol, and an agent or a database only where it was given; and within each the binary protocol and the
-- listener have the master's agent, the listener its database, its identity and its recorder, and the network
-- protocol its listener.
pub create_masters-Separate :
    (start : ℕ) (rs : List Request)
    → All (IsGiven start) rs
    → AllApart start (create_masters rs start) × All IsWhole (create_masters rs start)
create_masters-Separate start rs g =
    (create_masters-Apart start rs start (omega arith) g, create_masters-IsWhole rs start)
