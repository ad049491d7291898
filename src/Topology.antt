-- ===== src/Topology.antt =====
-- hivescope/topology.py: `TopologyBuilder` and `RelayNode`. A node object is known by a number and its
-- name. What a network protocol, a handshake or a disconnection comes to is a parameter; buses and
-- temporary files are left out.
pub mod Wiring
pub mod Building
pub mod Starting
pub mod Stopping
pub mod Faults
pub mod Teardown
mod Tests
use Prim.Native.String.{◌++◌ as join}
use hivescope.Prelude.{
  ℕ, suc, String, Bool, true, false, Option, none, some, List, [], ◌∷◌, ◌++◌, ◌==◌, ◌&&◌, all,
  nat_eq, if◌then◌else◌,
}
use hivescope.Outcome.{
  Exception, Outcome, ok, raise, key_error, type_error, runtime_error, ◌>>=◌, ◌>>◌, or_raise,
  require,
}
use hivescope.Value.{Fields}
use hivescope.Dict.{Dict, lookup, set_item, values}
use hivescope.Assertions.{contains}

pub record Master : Type 0 where
  pub id : ℕ
  pub name : String

pub record Satellite : Type 0 where
  pub id : ℕ
  pub name : String

-- The relay's two sides share one agent and bus.
pub record RelayNode : Type 0 where
  pub name : String
  pub upstream : Satellite
  pub listener : Master

pub data Upstream : Type 0 where
  master_node : Master → Upstream
  relay_node : RelayNode → Upstream
  another_object : Upstream

-- (satellite_name, master_name, connect_kwargs)
pub record Entry : Type 0 where
  pub satellite_name : String
  pub master_name : String
  pub connect_kwargs : Fields

-- The master that a satellite's `_connection` leads to, by their numbers; none is None.
abbrev pub Links : Type 0
Links = ℕ → Option ℕ

-- `next_id` numbers the node objects as they are made; `links` belongs to the satellites.
pub record TopologyBuilder : Type 0 where
  pub masters : Dict Master
  pub satellites : Dict Satellite
  pub relays : Dict RelayNode
  pub connections : List Entry
  pub next_id : ℕ
  pub links : Links

unfoldable pub init : TopologyBuilder
init = record {
  masters = [];
  satellites = [];
  relays = [];
  connections = [];
  next_id = 0;
  links = λ i. none;
}

-- The keywords that MasterNode.create takes.
abbrev pub known_option : String → Bool
known_option k = contains k ("require_crypto" ∷ "handshake_enabled" ∷ "agent_protocol" ∷ "db" ∷ [])

unfoldable pub add_master :
    String → List String → TopologyBuilder → Outcome (TopologyBuilder × Master)
add_master name options t = do
  require (all known_option options) type_error
  let node : Master = record { id = t.next_id; name = name }
  ok (record t { masters = set_item name node t.masters; next_id = suc t.next_id }, node)

unfoldable pub resolve_listener : Upstream → Outcome Master
resolve_listener (master_node m) = ok m
resolve_listener (relay_node r) = ok r.listener
resolve_listener another_object = raise type_error

unfoldable pub add_satellite :
    String → Upstream → Fields → TopologyBuilder → Outcome (TopologyBuilder × Satellite)
unfolding resolve_listener
add_satellite name upstream connect_kwargs t = do
  listener ← resolve_listener upstream
  let node : Satellite = record { id = t.next_id; name = name }
  let entry : Entry = record {
    satellite_name = name;
    master_name = listener.name;
    connect_kwargs = connect_kwargs;
  }
  ok (
    record t {
      satellites = set_item name node t.satellites;
      connections = t.connections ++ entry ∷ [];
      next_id = suc t.next_id;
    },
    node,
  )

unfoldable pub add_relay :
    String → Upstream → Fields → TopologyBuilder → Outcome (TopologyBuilder × RelayNode)
unfolding resolve_listener
add_relay name upstream connect_kwargs t = do
  parent ← resolve_listener upstream
  let sat : Satellite = record { id = t.next_id; name = join name "_sat" }
  let master : Master = record { id = suc t.next_id; name = join name "_master" }
  let entry : Entry = record {
    satellite_name = join name "_sat";
    master_name = parent.name;
    connect_kwargs = connect_kwargs;
  }
  let relay : RelayNode = record { name = name; upstream = sat; listener = master }
  ok (
    record t {
      masters = set_item (join name "_master") master t.masters;
      satellites = set_item (join name "_sat") sat t.satellites;
      relays = set_item name relay t.relays;
      connections = t.connections ++ entry ∷ [];
      next_id = suc (suc t.next_id);
    },
    relay,
  )

unfoldable pub get_master : String → TopologyBuilder → Outcome Master
get_master name t = or_raise (lookup name t.masters) key_error

unfoldable pub get_satellite : String → TopologyBuilder → Outcome Satellite
get_satellite name t = or_raise (lookup name t.satellites) key_error

unfoldable pub get_relay : String → TopologyBuilder → Outcome RelayNode
get_relay name t = or_raise (lookup name t.relays) key_error

-- What `sat.connect` comes to: the handshake completes; it does not, with the connection already set; or
-- the call raises before there is a connection.
pub data Handshake : Type 0 where
  completes stalls : Handshake
  refused : Exception → Handshake

abbrev pub set_link : ℕ → Option ℕ → Links → Links
set_link i v links j = if nat_eq i j then v else links j

abbrev pub is_linked : Option ℕ → Bool
is_linked none = false
is_linked (some m) = true

module _ (run : ℕ → Outcome (Unit {0})) (handshake : ℕ → ℕ → Fields → Handshake) where
  unfoldable pub run_all : List Master → Outcome (Unit {0})
  run_all [] = ok tt
  run_all (m ∷ ms) = run m.id >> run_all ms

  abbrev pub connected : Handshake → ℕ → ℕ → Links → Links × Outcome (Unit {0})
  connected completes s m links = (set_link s (some m) links, ok tt)
  connected stalls s m links = (set_link s (some m) links, raise runtime_error)
  connected (refused e) s m links = (links, raise e)

  -- One turn of the loop of `start_all`.
  unfoldable pub connect_entry : TopologyBuilder → Entry → Links → Links × Outcome (Unit {0})
  connect_entry t c links = elim (lookup c.satellite_name t.satellites) [
    | none ↦ (links, raise key_error)
    | some sat ↦
        if is_linked (links sat.id) then (links, ok tt) else elim (lookup c.master_name t.masters) [
          | none ↦ (links, raise key_error)
          | some master ↦
              connected (handshake sat.id master.id c.connect_kwargs) sat.id master.id links
        ]
  ]

  abbrev pub go_on :
      Links × Outcome (Unit {0}) → (Links → Links × Outcome (Unit {0})) → Links × Outcome (Unit {0})
  go_on (links, ok u) f = f links
  go_on (links, raise e) f = (links, raise e)

  unfoldable pub connect_all : TopologyBuilder → List Entry → Links → Links × Outcome (Unit {0})
  unfolding connect_entry
  connect_all t [] links = (links, ok tt)
  connect_all t (c ∷ cs) links = go_on (connect_entry t c links) (λ l. connect_all t cs l)

  abbrev pub started : TopologyBuilder → Outcome (Unit {0}) → TopologyBuilder × Outcome (Unit {0})
  started t (raise e) = (t, raise e)
  started t (ok u) =
      let (links, result) = connect_all t t.connections t.links in
      (record t { links = links }, result)

  unfoldable pub start_all : TopologyBuilder → TopologyBuilder × Outcome (Unit {0})
  unfolding run_all connect_all
  start_all t = started t (run_all (values t.masters))

-- `disconnects` tells of each satellite whether its `disconnect` returns; one that raises keeps its
-- connection. No exception leaves `stop_all`.
module _ (disconnects : ℕ → Bool) where
  unfoldable pub disconnect_all : List Satellite → Links → Links
  disconnect_all [] links = links
  disconnect_all (s ∷ ss) links =
      disconnect_all ss
        (if is_linked (links s.id) && disconnects s.id then set_link s.id none links else links)

  unfoldable pub stop_all : TopologyBuilder → TopologyBuilder
  unfolding disconnect_all
  stop_all t = record t { links = disconnect_all (values t.satellites) t.links }

-- The calls that build a topology; an upstream is taken from the builder by its name.
pub data Add : Type 0 where
  master : String → List String → Add
  satellite_of relay_of : (name upstream : String) → Fields → Add
  satellite_of_relay relay_of_relay : (name upstream : String) → Fields → Add

unfoldable pub add : Add → TopologyBuilder → Outcome TopologyBuilder
unfolding add_master add_satellite add_relay get_master get_relay
add (master name options) t = do (u, node) ← add_master name options t; ok u
add (satellite_of name upstream kwargs) t = do
  m ← get_master upstream t
  (u, node) ← add_satellite name (master_node m) kwargs t
  ok u
add (relay_of name upstream kwargs) t = do
  m ← get_master upstream t
  (u, node) ← add_relay name (master_node m) kwargs t
  ok u
add (satellite_of_relay name upstream kwargs) t = do
  r ← get_relay upstream t
  (u, node) ← add_satellite name (relay_node r) kwargs t
  ok u
add (relay_of_relay name upstream kwargs) t = do
  r ← get_relay upstream t
  (u, node) ← add_relay name (relay_node r) kwargs t
  ok u

unfoldable pub build : List Add → TopologyBuilder → Outcome TopologyBuilder
unfolding add
build [] t = ok t
build (a ∷ adds) t = do u ← add a t; build adds u
