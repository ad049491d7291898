-- ===== src/Topology/Teardown/Tests.antt =====
-- A master and a satellite, of which the satellite's disconnection and the agent's shutdown fail.
use hivescope.Prelude.{ℕ, ◌≡◌, refl, Bool, true, false, not, ◌&&◌, List, [], ◌∷◌, all, none}
use hivescope.Outcome.{ok}
use hivescope.Value.{end}
use hivescope.Dict.{set_item, lookup, has_key}
use hivescope.Topology.{
  Master, init, Add, master, satellite_of, add, add_master, add_satellite, get_master,
  resolve_listener, stop_all,
}
use hivescope.Topology.Teardown.{
  Part, agent, listener, World, make_dirs, add_node, build_nodes, stop_everything, stop_satellites,
  stop_satellite, stop_masters, stop_master, stop_part, remove_dir,
}
use hivescope.Topology.Teardown.Releasing.{is_master, is_satellite, stop_everything_lem}
use hivescope.Agent.Bus.{original, Bus}
use hivescope.Topology.Teardown.Agents.{make_agents, stop_agents, wrapped, stop_agents-make_agents}
use hivescope.Topology.Teardown.Leaving.{empty, all_new, nothing_left, replaced_stays}

abbrev fails : ℕ → Bool
fails i = false

abbrev but_agents : Part → ℕ → Bool
but_agents agent i = false
but_agents p i = true

abbrev all_live : Part → ℕ → Bool
all_live p i = true

abbrev adds : List Add
adds = master "M0" [] ∷ satellite_of "S0" "M0" end ∷ []

abbrev built : World
built = record {
  builder = record init {
    masters = ("M0", record { id = 0; name = "M0" }) ∷ [];
    satellites = ("S0", record { id = 1; name = "S0" }) ∷ [];
    connections = record { satellite_name = "S0"; master_name = "M0"; connect_kwargs = end } ∷ [];
    next_id = 2;
  };
  dirs = make_dirs 1 2 (make_dirs 0 1 (λ i. false));
  live = all_live;
}

build_nodes-adds : build_nodes adds (empty all_live) ≡ ok built
unfolding build_nodes add_node add add_master add_satellite get_master resolve_listener init
    set_item lookup all
build_nodes-adds = refl

-- The agent stays wired; the listener's threads and the directory are gone.
agent_stays :
    ((stop_everything fails but_agents built).live agent 0 ≡ true)
    × ((stop_everything fails but_agents built).live listener 0 ≡ false)
    × ((stop_everything fails but_agents built).dirs 1 ≡ false)
unfolding stop_everything stop_satellites stop_satellite stop_masters stop_master stop_part
    remove_dir make_dirs init
agent_stays = (refl, refl, refl)

stop_everything_lem_example :
    ((stop_everything fails but_agents built).dirs 1
      ≡ (built.dirs 1 && (not (is_satellite 1 built.builder) && not (is_master 1 built.builder))))
    × ((stop_everything fails but_agents built).live agent 1
        ≡ (built.live agent 1 && not (is_master 1 built.builder && but_agents agent 1)))
    × ((stop_everything fails but_agents built).builder ≡ stop_all fails built.builder)
stop_everything_lem_example = stop_everything_lem fails but_agents built agent 1

new_names : all_new adds (empty all_live) ≡ true
unfolding all_new add_node add add_master add_satellite get_master resolve_listener init set_item
    lookup has_key all
new_names = refl

nothing_left_example : (stop_everything fails but_agents built).dirs 1 ≡ false
nothing_left_example =
    nothing_left fails but_agents adds all_live built build_nodes-adds new_names 1

replaced_stays_example :
    (w : World) × (build_nodes (master "M0" [] ∷ master "M0" [] ∷ []) (empty all_live) ≡ ok w)
    × ((stop_everything fails but_agents w).dirs 0 ≡ true)
    × ((stop_everything fails but_agents w).dirs 1 ≡ false)
replaced_stays_example = replaced_stays fails but_agents "M0" all_live

abbrev named : ℕ → Master
named i = record { id = i; name = "M" }

abbrev shared_bus : Bus
shared_bus = record { emit = original; handlers = []; orig_emit = λ i. none; injected = λ i. [] }

-- Three masters on one bus: two wrappers stay.
stop_agents-make_agents_example :
    (stop_agents
      (named 0 ∷ named 1 ∷ named 2 ∷ [])
      (make_agents (named 0 ∷ named 1 ∷ named 2 ∷ []) shared_bus)).emit
    ≡ wrapped (named 0 ∷ named 1 ∷ []) original
stop_agents-make_agents_example =
    stop_agents-make_agents (named 0 ∷ named 1 ∷ []) (named 2) shared_bus (refl, (refl, tt))
