-- ===== src/Scenarios/Hubs.antt =====
-- `star_topology` and `hierarchical_hubs` of hivescope/scenarios.py, for every count.
use hivescope.Prelude.{ℕ, ◌-◌, ◌≡◌, refl, List, [], ◌∷◌, ◌++◌, all}
use hivescope.Outcome.{Outcome, ok}
use hivescope.Dict.{lookup, set_item}
use hivescope.Topology.{
  Master, master_node, TopologyBuilder, Entry, init, add_master, resolve_listener,
}
use hivescope.Topology.Wiring.{Known}
use hivescope.Scenarios.{three_satellites, range, add_relays, star_topology, hierarchical_hubs}
use hivescope.Scenarios.Names.{chain, last_hub, leaves}

-- The master that every scenario starts with.
start : TopologyBuilder
start = record init { masters = ("M0", record { id = 0; name = "M0" }) ∷ []; next_id = 1 }

start_known : Known (master_node (record { id = 0; name = "M0" })) start
unfolding resolve_listener start init lookup
start_known = let m : Master = record { id = 0; name = "M0" } in (m, refl, (m, refl))

start-add_master : add_master "M0" [] init ≡ ok (start, record { id = 0; name = "M0" })
unfolding start add_master init all set_item
start-add_master = refl

-- The connections of `hierarchical_hubs`: the relays in a chain under the master, the satellites under the
-- last of them.
unfoldable pub hub_connections : (num_levels sats_per_relay : ℕ) → List Entry
hub_connections num_levels sats_per_relay =
    chain "M0" (range 1 (num_levels - 1))
    ++ leaves (last_hub "M0" (range 1 (num_levels - 1))) (range 0 sats_per_relay)

-- `star_topology` is `hierarchical_hubs` with one level, and `three_satellites` is `star_topology` with three.
pub star_one_level :
    ((n : ℕ) → star_topology n ≡ hierarchical_hubs 1 n) × (three_satellites ≡ star_topology 3)
unfolding star_topology hierarchical_hubs three_satellites add_relays
star_one_level = ((λ n. rw start-add_master refl), refl)
