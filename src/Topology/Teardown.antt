-- ===== src/Topology/Teardown.antt =====
-- `stop_all` of hivescope/topology.py with all that it releases, and the temporary directories that the
-- builder calls make: the identity of each node has one of its own (hivescope/utils.py), which is known here
-- by the number of the node.
pub mod Releasing
pub mod Growing
pub mod Leaving
pub mod Agents
mod Tests
use hivescope.Prelude.{
  ℕ, Bool, true, false, not, ◌&&◌, ◌||◌, Option, none, List, [], ◌∷◌, nat_eq, leb, ltb,
  if◌then◌else◌,
}
use hivescope.Outcome.{Outcome, ok, ◌>>=◌}
use hivescope.Dict.{values}
use hivescope.Topology.{Master, Satellite, TopologyBuilder, Add, add, Links, set_link, is_linked}

-- What a master owns besides its directory: the network protocol's server, the wiring of the agent protocol,
-- the threads of the listener.
pub data Part : Type 0 where
  network agent listener : Part

-- `dirs`: the directories that exist; `live`: the parts that hold something.
pub record World : Type 0 where
  pub builder : TopologyBuilder
  pub dirs : ℕ → Bool
  pub live : Part → ℕ → Bool

-- make_identity, for each node that a builder call makes
unfoldable pub make_dirs : (first last : ℕ) → (ℕ → Bool) → ℕ → Bool
make_dirs first last dirs i = dirs i || (leb first i && ltb i last)

unfoldable pub add_node : Add → World → Outcome World
unfolding make_dirs
add_node a w = do
  t ← add a w.builder
  ok (record w { builder = t; dirs = make_dirs w.builder.next_id t.next_id w.dirs })

unfoldable pub build_nodes : List Add → World → Outcome World
unfolding add_node
build_nodes [] w = ok w
build_nodes (a ∷ adds) w = do v ← add_node a w; build_nodes adds v

-- remove_identity_tmpdir
unfoldable pub remove_dir : ℕ → World → World
remove_dir i w = record w { dirs = λ j. w.dirs j && not (nat_eq i j) }

abbrev pub same_part : Part → Part → Bool
same_part network network = true
same_part agent agent = true
same_part listener listener = true
same_part p q = false

-- `disconnects` tells of each satellite whether its `disconnect` returns, and `releases` of each part whether
-- it has the method that is called and the call lets go of all that the part holds. A call that raises is logged;
-- one that raises, or that returns and leaves something behind, as the `shutdown` of an agent protocol may on a bus
-- that it shares, does not release.
module _ (disconnects : ℕ → Bool) (releases : Part → ℕ → Bool) where
  -- One turn of the first loop of `stop_all`.
  unfoldable pub stop_satellite : Satellite → World → World
  unfolding remove_dir
  stop_satellite s w = remove_dir s.id (record w {
    builder = record w.builder {
      links =
          if is_linked (w.builder.links s.id) && disconnects s.id
          then set_link s.id none w.builder.links
          else w.builder.links;
    };
  })

  unfoldable pub stop_satellites : List Satellite → World → World
  unfolding stop_satellite
  stop_satellites [] w = w
  stop_satellites (s ∷ ss) w = stop_satellites ss (stop_satellite s w)

  unfoldable pub stop_part : Part → ℕ → World → World
  stop_part p m w = record w {
    live = λ q j. w.live q j && not (same_part p q && nat_eq m j && releases p m);
  }

  -- One turn of the second loop.
  unfoldable pub stop_master : Master → World → World
  unfolding stop_part remove_dir
  stop_master m w =
      remove_dir m.id (stop_part listener m.id (stop_part agent m.id (stop_part network m.id w)))

  unfoldable pub stop_masters : List Master → World → World
  unfolding stop_master
  stop_masters [] w = w
  stop_masters (m ∷ ms) w = stop_masters ms (stop_master m w)

  unfoldable pub stop_everything : World → World
  unfolding stop_satellites stop_masters
  stop_everything w =
      stop_masters (values w.builder.masters) (stop_satellites (values w.builder.satellites) w)
