-- ===== src/Plot.antt =====
-- hivescope/topology_plot.py: the graphs that `plot_topology_builder` and `plot_hive_mapper` draw. The order
-- of a set is not observed, and colours' values are left out. Layout and saving are in Plot/Drawing.
pub mod Members
pub mod Graphs
pub mod Merging
pub mod Discovery
pub mod Closing
pub mod Drawing
mod Tests
use Prim.Native.String.{◌++◌ as join, [] as nil_text, ◌∷◌ as cons_text}
use hivescope.Prelude.{
  String, Bool, true, false, not, ◌&&◌, ◌||◌, Option, none, some, List, [], ◌∷◌, ◌++◌, ◌==◌, any,
  filter, map, if◌then◌else◌,
}
use hivescope.Dict.{Dict, keys}
use hivescope.Topology.{TopologyBuilder, Entry}

-- s[:-len(suffix)], if s ends with the suffix
unfoldable pub strip_suffix : String → String → Option String
strip_suffix suffix nil_text = if nil_text == suffix then some "" else none
strip_suffix suffix (cons_text c s) =
    let rest = strip_suffix suffix s in
    if cons_text c s == suffix
    then some ""
    else elim rest [ none ↦ none | some base ↦ some (cons_text c base) ]

unfoldable pub member : String → List String → Bool
member x xs = any (λ y. x == y) xs

-- set.add
unfoldable pub insert : String → List String → List String
unfolding member
insert x xs = if member x xs then xs else xs ++ x ∷ []

-- `masters` and `satellites` are the names of the nodes that are registered, `relays` those of the relays.
module _ (master_names sat_names : List String) (registry : List String) where
  unfoldable pub relay_bases : List String
  unfolding member
  relay_bases =
      filter (λ b. member (join b "_sat") sat_names && member (join b "_master") master_names)
        registry

  abbrev pub merged : Option String → String → String
  merged none name = name
  merged (some base) name = if member base relay_bases then base else name

  -- A name that has one of the suffixes has not the other.
  unfoldable pub canonical : String → String
  unfolding strip_suffix relay_bases member
  canonical name = elim (strip_suffix "_sat" name) [
    | some base ↦ merged (some base) name
    | none ↦ merged (strip_suffix "_master" name) name
  ]

  unfoldable pub role : String → String
  unfolding relay_bases member
  role canon =
      if member canon relay_bases
      then "relay_sat"
      else if member canon master_names
      then "master"
      else "satellite"

  unfoldable pub label : String → String
  unfolding relay_bases member
  label canon = if member canon relay_bases then join canon "\n(relay)" else canon

  unfoldable pub add_nodes : List String → List String → List String
  unfolding canonical insert
  add_nodes [] nodes = nodes
  add_nodes (n ∷ names) nodes = add_nodes names (insert (canonical n) nodes)

  -- (src, dst) in seen_edges
  unfoldable pub seen : String → String → List (String × String) → Bool
  seen src dst edges = any (λ e. src == e.0 && dst == e.1) edges

  abbrev pub add_edge : String → String → List (String × String) → List (String × String)
  add_edge src dst edges =
      if not (src == dst) && not (seen src dst edges) then edges ++ (src, dst) ∷ [] else edges

  unfoldable pub add_edges : List Entry → List (String × String) → List (String × String)
  unfolding canonical seen
  add_edges [] edges = edges
  add_edges (c ∷ cs) edges =
      add_edges cs (add_edge (canonical c.master_name) (canonical c.satellite_name) edges)

  abbrev pub nodes : List String
  nodes = add_nodes (master_names ++ sat_names) []

-- The names are those of the node objects, which stand under them.
abbrev pub builder_nodes : TopologyBuilder → List String
builder_nodes t = nodes (keys t.masters) (keys t.satellites) (keys t.relays)

abbrev pub builder_edges : TopologyBuilder → List (String × String)
builder_edges t = add_edges (keys t.masters) (keys t.satellites) (keys t.relays) t.connections []
