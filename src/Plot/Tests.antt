-- ===== src/Plot/Tests.antt =====
-- Plots of concrete topologies.
use hivescope.Prelude.{some, ◌≡◌, refl, String, none, List, [], ◌∷◌, all, any, filter, All}
use hivescope.Value.{end}
use hivescope.Dict.{lookup, set_item, has_key}
use hivescope.Topology.{
  TopologyBuilder, init, add_master, add_satellite, get_master, resolve_listener, Add, master,
  satellite_of, add, build,
}
use hivescope.Plot.{
  strip_suffix, member, insert, relay_bases, canonical, add_nodes, seen, add_edges, nodes,
  builder_edges,
}
use hivescope.Plot.Discovery.{mapper_graph, add_peers, node_label, add_routes, add_targets}
use hivescope.Plot.Graphs.{Joins, IsDrawn, build-IsDrawn}

abbrev masters : List String
masters = "M0" ∷ "R0_master" ∷ []

abbrev sats : List String
sats = "R0_sat" ∷ "S0" ∷ "R0" ∷ []

merged_nodes : (nodes masters sats ("R0" ∷ []) ≡ "M0" ∷ "R0" ∷ "S0" ∷ [])
unfolding add_nodes canonical insert strip_suffix relay_bases member any filter
merged_nodes = refl

abbrev adds : List Add
adds = master "M0" [] ∷ satellite_of "S0" "M0" end ∷ []

abbrev small : TopologyBuilder
small = record {
  masters = ("M0", record { id = 0; name = "M0" }) ∷ [];
  satellites = ("S0", record { id = 1; name = "S0" }) ∷ [];
  relays = [];
  connections = record { satellite_name = "S0"; master_name = "M0"; connect_kwargs = end } ∷ [];
  next_id = 2;
  links = λ i. none;
}

small_edges : builder_edges small ≡ ("M0", "S0") ∷ []
unfolding add_edges canonical strip_suffix relay_bases seen any filter
small_edges = refl

build-IsDrawn_example :
    All (Joins ("M0" ∷ []) ("S0" ∷ []) []) (builder_edges small)
    × All (IsDrawn ("M0" ∷ []) ("S0" ∷ []) [] (builder_edges small)) small.connections
unfolding build add add_master add_satellite get_master resolve_listener init all lookup set_item
build-IsDrawn_example = build-IsDrawn adds small refl

-- A peer that answered, and one that is only on a route.
discovered :
    mapper_graph
      (some "M0")
      (("M0", record { latency_ms = some "3"; site_id = "" }) ∷ [])
      (("M0", "S0" ∷ []) ∷ [])
    ≡ record {
      nodes = ("M0", some "[self]\nM0  3ms") ∷ ("S0", some "S0") ∷ [];
      edges = ("M0", "S0") ∷ [];
    }
unfolding mapper_graph add_peers node_label add_routes add_targets set_item has_key
discovered = refl
