-- ===== src/Plot/Drawing/Files.antt =====
-- What the plots of hivescope/topology_plot.py write.
use Prim.Native.String.{◌++◌ as join}
use hivescope.Prelude.{◌≡◌, refl, String, Bool, true, false, some, [], ◌∷◌, ◌==◌, if◌then◌else◌}
use hivescope.Outcome.{Outcome, ok, raise, passes}
use hivescope.Plot.Drawing.{
  Layouts, or_else_try, choose_layout, draw_graph, plot_topology_builder, plot_hive_mapper,
  plot_topology_and_discovery,
}

-- A graph for which the spring, the shell and the circular layout can be computed.
pub record CanLay {P : Type 0} (g : Layouts P) : Type 0 where
  pub spring : (wide : Bool) → passes (g.spring wide) ≡ true
  pub shell : passes g.shell ≡ true
  pub circular : passes g.circular ≡ true

or_else_try-passes :
    {P : Type 0} (a b : Outcome P) → passes b ≡ true → passes (or_else_try a b) ≡ true
or_else_try-passes (ok p) b h = refl
or_else_try-passes (raise e) b h = h

passes_if :
    {P : Type 0} (b : Bool) (x y : Outcome P)
    → passes x ≡ true
    → passes y ≡ true
    → passes (if b then x else y) ≡ true
passes_if true x y h k = h
passes_if false x y h k = k

-- Whatever the layout is called.
choose_layout-passes :
    {P : Type 0} (g : Layouts P) (layout : String)
    → CanLay g
    → passes (choose_layout g layout) ≡ true
unfolding choose_layout
choose_layout-passes g layout h =
    let spring = h.spring true in
    let other =
      passes_if (layout == "spectral") _ _
        (or_else_try-passes g.spectral (g.spring false) (h.spring false)) spring in
    let other = passes_if (layout == "circular") _ _ h.circular other in
    let other = passes_if (layout == "shell") _ _ h.shell other in
    let other =
      passes_if (layout == "kamada_kawai") _ _
        (or_else_try-passes g.kamada_kawai (g.spring true) spring) other in
    passes_if (layout == "spring") _ _ spring other

passes_ok : {P : Type 0} (o : Outcome P) → passes o ≡ true → (p : P) × (o ≡ ok p)
passes_ok (ok p) h = (p, refl)
passes_ok (raise e) h = absurd (cc)

-- The paths of the two figures.
module _ {P : Type 0} (abspath : String → String) (render : P → String → Outcome (Unit {0})) where
  draw_graph-saved :
      (g : Layouts P) (path layout : String)
      → CanLay g
      → ((pos : P) → render pos path ≡ ok tt)
      → draw_graph abspath render g path layout ≡ (abspath path ∷ [], ok (abspath path))
  unfolding draw_graph
  draw_graph-saved g path layout h r =
      let (pos, e) = passes_ok (choose_layout g layout) (choose_layout-passes g layout h) in
      rw (e, r pos) refl

  module _ (render_placeholder : String → Outcome (Unit {0})) where
    plot_hive_mapper-saved :
        (is_empty : Bool) (g : Layouts P) (path layout : String)
        → CanLay g
        → ((pos : P) → render pos path ≡ ok tt)
        → render_placeholder path ≡ ok tt
        → plot_hive_mapper abspath render render_placeholder is_empty g path layout
          ≡ (abspath path ∷ [], ok (abspath path))
    unfolding plot_hive_mapper
    plot_hive_mapper-saved true g path layout h r e = rw e refl
    plot_hive_mapper-saved false g path layout h r e = draw_graph-saved g path layout h r

    -- For a builder that has a registry, graphs for which the spring, the shell and the circular layout can be
    -- computed, and figures that can be drawn and saved: whatever the two layouts are called, known or not, and
    -- whether or not those of kamada_kawai and spectral fail, both figures are saved, and the result is their
    -- absolute paths.
    plot_topology_and_discovery-saved :
        {R : Type 0} (join_path : String → String → String) (relays : R) (graph : R → Layouts P)
        (is_empty : Bool) (discovered : Layouts P) (dir prefix static dynamic : String)
        → CanLay (graph relays)
        → CanLay discovered
        → ((pos : P) (path : String) → render pos path ≡ ok tt)
        → ((path : String) → render_placeholder path ≡ ok tt)
        → let p1 = abspath (join_path dir (join prefix "_static.png")) in
          let p2 = abspath (join_path dir (join prefix "_discovery.png")) in
          plot_topology_and_discovery abspath render render_placeholder join_path
            (some relays)
            graph
            is_empty
            discovered
            dir
            prefix
            static
            dynamic
          ≡ (p1 ∷ p2 ∷ [], ok (p1, p2))
    unfolding plot_topology_and_discovery plot_topology_builder
    plot_topology_and_discovery-saved join_path relays graph is_empty discovered dir prefix static
          dynamic h k r e =
        let p1 = join_path dir (join prefix "_static.png") in
        let p2 = join_path dir (join prefix "_discovery.png") in
        rw
          (
            draw_graph-saved (graph relays) p1 static h (λ pos. r pos p1),
            plot_hive_mapper-saved is_empty discovered p2 dynamic k (λ pos. r pos p2) (e p2),
          )
          refl
