-- ===== src/Plot/Drawing/Tests.antt =====
-- Layouts and plots of graphs whose layouts are numbers.
use Prim.Native.Nat.{ℕ}
use Prim.Native.String.{◌++◌ as join}
use hivescope.Prelude.{◌≡◌, refl, String, true, if◌then◌else◌, none, some, [], ◌∷◌}
use hivescope.Outcome.{ok, raise, foreign_error, type_error}
use hivescope.Plot.Drawing.{
  Layouts, choose_layout, draw_graph, plot_topology_builder, plot_hive_mapper,
  plot_topology_and_discovery,
}

-- A graph for which scipy is missing.
abbrev without_scipy : Layouts ℕ
without_scipy = record {
  spring = λ wide. if wide then ok 0 else ok 1;
  kamada_kawai = raise foreign_error;
  shell = ok 2;
  circular = ok 3;
  spectral = raise foreign_error;
}

falls_back : (choose_layout without_scipy "kamada_kawai" ≡ ok 0)
unfolding choose_layout
falls_back = refl

spectral_falls_back : (choose_layout without_scipy "spectral" ≡ ok 1)
unfolding choose_layout
spectral_falls_back = refl

unknown_layout : (choose_layout without_scipy "dot" ≡ ok 0)
unfolding choose_layout
unknown_layout = refl

abbrev absolute : String → String
absolute path = join "/" path

no_registry :
    (plot_topology_builder absolute
        (λ pos path. ok tt)
        none
        none
        (λ (r : ℕ). without_scipy)
        "a.png"
        "spring"
      ≡ ([], raise type_error))
unfolding plot_topology_builder
no_registry = refl

two_figures :
    (plot_topology_and_discovery absolute
        (λ pos path. ok tt)
        (λ path. ok tt)
        join
        (some "star")
        (λ (r : String). without_scipy)
        true
        without_scipy
        "img/"
        "star"
        "kamada_kawai"
        "shell"
      ≡ (
        "/img/star_static.png" ∷ "/img/star_discovery.png" ∷ [],
        ok ("/img/star_static.png", "/img/star_discovery.png"),
      ))
unfolding plot_topology_and_discovery plot_topology_builder plot_hive_mapper draw_graph
    choose_layout
two_figures = refl
