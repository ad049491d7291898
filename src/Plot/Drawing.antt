-- ===== src/Plot/Drawing.antt =====
-- hivescope/topology_plot.py: which layout is computed, and which files are written. What networkx and
-- matplotlib come to is a parameter; the positions of a graph are a `P`.
mod Files
mod Tests
use Prim.Native.String.{◌++◌ as join}
use hivescope.Prelude.{
  String, Bool, true, false, Option, none, some, List, [], ◌∷◌, ◌++◌, ◌==◌, if◌then◌else◌,
}
use hivescope.Outcome.{Outcome, ok, raise, type_error, ◌>>=◌}

-- The layouts of a graph; `wide` tells whether the spring layout is given k=2.8.
pub record Layouts (P : Type 0) : Type 0 where
  pub spring : (wide : Bool) → Outcome P
  pub kamada_kawai : Outcome P
  pub shell : Outcome P
  pub circular : Outcome P
  pub spectral : Outcome P

-- try: first, except Exception: second
abbrev pub or_else_try : {P : Type 0} → Outcome P → Outcome P → Outcome P
or_else_try (ok p) second = ok p
or_else_try (raise e) second = second

unfoldable pub choose_layout : {P : Type 0} → Layouts P → String → Outcome P
choose_layout g layout =
    if layout == "spring"
    then g.spring true
    else if layout == "kamada_kawai"
    then or_else_try g.kamada_kawai (g.spring true)
    else if layout == "shell"
    then g.shell
    else if layout == "circular"
    then g.circular
    else if layout == "spectral"
    then or_else_try g.spectral (g.spring false)
    else g.spring true

-- A call that draws figures: the absolute paths of the figures that it has saved without an error, and what
-- it came to.
abbrev pub Drawn : Type 0 → Type 0
Drawn A = List String × Outcome A

abbrev pub saved : String → Outcome (Unit {0}) → Drawn String
saved path (ok tt) = (path ∷ [], ok path)
saved path (raise e) = ([], raise e)

-- The registry of relays: the one that is given, or that of the builder, if it has one.
abbrev pub registry_of : {R : Type 0} → Option R → Option R → Outcome R
registry_of (some relays) builder = ok relays
registry_of none (some relays) = ok relays
registry_of none none = raise type_error

abbrev pub with_registry : {R : Type 0} → Outcome R → (R → Drawn String) → Drawn String
with_registry (ok relays) draw = draw relays
with_registry (raise e) draw = ([], raise e)

abbrev pub both : Drawn String → Drawn String → Drawn (String × String)
both (files, ok p1) (files', ok p2) = (files ++ files', ok (p1, p2))
both (files, ok p1) (files', raise e) = (files ++ files', raise e)
both (files, raise e) drawn = (files, raise e)

-- `render` is the drawing of a figure and the saving of it at a path, with the folders that it needs;
-- `render_placeholder` is that of the figure without nodes.
module _ {P : Type 0} (abspath : String → String) (render : P → String → Outcome (Unit {0})) where
  unfoldable pub draw_graph : Layouts P → String → String → Drawn String
  unfolding choose_layout
  draw_graph g path layout =
      saved (abspath path) (choose_layout g layout >>= λ pos. render pos path)

  unfoldable pub plot_topology_builder :
      {R : Type 0} → Option R → Option R → (R → Layouts P) → String → String → Drawn String
  unfolding draw_graph
  plot_topology_builder builder_relays relays graph path layout =
      with_registry (registry_of relays builder_relays) (λ r. draw_graph (graph r) path layout)

  module _ (render_placeholder : String → Outcome (Unit {0})) where
    -- An empty mapper gives a placeholder, with no layout.
    unfoldable pub plot_hive_mapper : (is_empty : Bool) → Layouts P → String → String → Drawn String
    unfolding draw_graph
    plot_hive_mapper is_empty graph path layout =
        if is_empty
        then saved (abspath path) (render_placeholder path)
        else draw_graph graph path layout

    unfoldable pub plot_topology_and_discovery :
        (join_path : String → String → String) {R : Type 0}
        → Option R
        → (R → Layouts P)
        → (is_empty : Bool) → Layouts P
        → (dir_path : String) → (prefix layout_static layout_dynamic : String)
        → Drawn (String × String)
    unfolding plot_topology_builder plot_hive_mapper
    plot_topology_and_discovery join_path builder_relays graph is_empty discovered dir_path prefix
          layout_static layout_dynamic =
        both
          (plot_topology_builder builder_relays none graph
            (join_path dir_path (join prefix "_static.png")) layout_static)
          (plot_hive_mapper is_empty discovered (join_path dir_path (join prefix "_discovery.png"))
            layout_dynamic)
