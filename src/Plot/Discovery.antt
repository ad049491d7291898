-- ===== src/Plot/Discovery.antt =====
-- `plot_hive_mapper` of hivescope/topology_plot.py: the graph of what was discovered. A latency comes as the
-- text that it prints.
use Prim.Native.String.{◌++◌ as join}
use hivescope.Prelude.{
  String, Bool, false, Option, none, some, List, [], ◌∷◌, ◌++◌, ◌==◌, if◌then◌else◌,
}
use hivescope.Dict.{Dict, set_item, has_key}

pub record NodeInfo : Type 0 where
  pub latency_ms : Option String
  pub site_id : String

-- The nodes with their labels, none for one that `add_edge` made, and the edges in the order of `add_edge`, where
-- one that is there changes nothing.
pub record Graph : Type 0 where
  pub nodes : Dict (Option String)
  pub edges : List (String × String)

abbrev pub is_peer : Option String → String → Bool
is_peer none peer = false
is_peer (some root) peer = peer == root

abbrev pub site_text : String → String
site_text site = if site == "" then "" else join "\n(" (join site ")")

abbrev pub latency_text : Option String → String
latency_text none = ""
latency_text (some ms) = join "  " (join ms "ms")

unfoldable pub node_label : Option String → String → NodeInfo → String
node_label root peer info =
    let label = join peer (join (site_text info.site_id) (latency_text info.latency_ms)) in
    if is_peer root peer then join "[self]\n" label else label

unfoldable pub add_peers :
    Option String → Dict NodeInfo → Dict (Option String) → Dict (Option String)
unfolding node_label set_item
add_peers root [] nodes = nodes
add_peers root ((peer, info) ∷ peers) nodes =
    add_peers root peers (set_item peer (some (node_label root peer info)) nodes)

-- if n not in G: G.add_node(n, …)
abbrev pub ensure : String → Option String → Dict (Option String) → Dict (Option String)
ensure n label nodes = if has_key n nodes then nodes else set_item n label nodes

abbrev pub add_target : String → String → Graph → Graph
add_target src tgt g = record {
  nodes = ensure src none (ensure tgt (some tgt) g.nodes);
  edges = g.edges ++ (src, tgt) ∷ [];
}

unfoldable pub add_targets : String → List String → Graph → Graph
unfolding set_item has_key
add_targets src [] g = g
add_targets src (tgt ∷ targets) g = add_targets src targets (add_target src tgt g)

unfoldable pub add_routes : Dict (List String) → Graph → Graph
unfolding add_targets
add_routes [] g = g
add_routes ((src, targets) ∷ routes) g = add_routes routes (add_targets src targets g)

unfoldable pub mapper_graph : Option String → Dict NodeInfo → Dict (List String) → Graph
unfolding add_peers add_routes
mapper_graph root peers routes =
    add_routes routes (record { nodes = add_peers root peers []; edges = [] })

-- G.nodes[n].get("label", n)
abbrev pub shown : Option (Option String) → String → String
shown (some (some label)) n = label
shown _ n = n
