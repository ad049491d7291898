-- ===== src/Topology/Teardown/Leaving.antt =====
-- Which temporary directories a topology leaves behind.
use hivescope.Prelude.{
  ℕ, ◌≡◌, refl, String, Bool, true, false, ◌&&◌, List, [], ◌∷◌, any, arith, all, and_split, subst,
  eq_refl,
}
use hivescope.Outcome.{Outcome, ok, raise, ◌>>=◌}
use hivescope.Dict.{set_item}
use hivescope.Topology.{Add, master, add, add_master, init}
use hivescope.Topology.Wiring.{OnOk}
use hivescope.Topology.Building.{OnOk-bind}
use hivescope.Topology.Teardown.{Part, World, make_dirs, add_node, build_nodes, stop_everything}
use hivescope.Topology.Teardown.Releasing.{stop_everything_lem}
use hivescope.Topology.Teardown.Growing.{names_new, is_held, Grows, add-Grows}

abbrev pub all_new_after : Outcome World → (World → Bool) → Bool
all_new_after (ok w) f = f w
all_new_after (raise e) f = true

-- So it is for each of the calls, when it is made.
unfoldable pub all_new : List Add → World → Bool
all_new [] w = true
all_new (a ∷ adds) w = names_new a w.builder && all_new_after (add_node a w) (λ v. all_new adds v)

-- Every directory is that of a node that the builder holds.
abbrev pub IsOwned : World → Type 0
IsOwned w = (i : ℕ) → w.dirs i ≡ true → is_held i w.builder ≡ true

-- A call that raises made nothing.
add_node-IsOwned :
    (a : Add) (w : World) → names_new a w.builder ≡ true → IsOwned w → OnOk IsOwned (add_node a w)
unfolding add_node make_dirs
add_node-IsOwned a w new h =
    OnOk-bind (Grows w.builder) IsOwned (add a w.builder) _ (add-Grows a w.builder new)
      (λ t grows i e. ground (arith, grows i, h i))

goes_on :
    (test : World → Bool) (f : World → Outcome World) (o : Outcome World)
    → ((v : World) → test v ≡ true → IsOwned v → OnOk IsOwned (f v))
    → all_new_after o test ≡ true
    → OnOk IsOwned o
    → OnOk IsOwned (o >>= f)
goes_on test f (ok v) k later h = k v later h
goes_on test f (raise e) k later h = tt

build_nodes-IsOwned :
    (adds : List Add) (w : World)
    → all_new adds w ≡ true
    → IsOwned w
    → OnOk IsOwned (build_nodes adds w)
unfolding build_nodes all_new
build_nodes-IsOwned [] w new h = h
build_nodes-IsOwned (a ∷ adds) w new h =
    let (now, later) = and_split _ _ new in
    goes_on (λ v. all_new adds v) (λ v. build_nodes adds v) (add_node a w)
      (λ v new' owned. build_nodes-IsOwned adds v new' owned) later (add_node-IsOwned a w now h)

-- A builder that has made nothing yet.
abbrev pub empty : (Part → ℕ → Bool) → World
empty live = record { builder = init; dirs = λ i. false; live = live }

module _ (disconnects : ℕ → Bool) (releases : Part → ℕ → Bool) where
  -- After any series of builder calls that raises nothing and registers no name twice, `stop_all` leaves no
  -- temporary directory of a node behind, whatever raises on the way.
  pub nothing_left :
      (adds : List Add) (live : Part → ℕ → Bool) (w : World)
      → build_nodes adds (empty live) ≡ ok w
      → all_new adds (empty live) ≡ true
      → (i : ℕ) → (stop_everything disconnects releases w).dirs i ≡ false
  nothing_left adds live w built new i =
      let start : IsOwned (empty live) = λ j e. absurd (cc) in
      let owned : OnOk IsOwned (ok w) =
        subst (OnOk IsOwned) built (build_nodes-IsOwned adds (empty live) new start) in
      ground (arith, (stop_everything_lem disconnects releases w Part.network i).0, owned i)

  -- A second master of the same name, whatever the name, takes the first one's place in the builder, and
  -- `stop_all` leaves the temporary directory of the first behind.
  pub replaced_stays :
      (name : String) (live : Part → ℕ → Bool)
      → (w : World) × (build_nodes (master name [] ∷ master name [] ∷ []) (empty live) ≡ ok w)
        × ((stop_everything disconnects releases w).dirs 0 ≡ true)
        × ((stop_everything disconnects releases w).dirs 1 ≡ false)
  unfolding build_nodes add_node make_dirs add add_master init set_item all any
  replaced_stays name live =
      let w : World = record {
        builder = record init {
          masters = (name, record { id = 1; name = name }) ∷ [];
          next_id = 2;
        };
        dirs = make_dirs 1 2 (make_dirs 0 1 (λ i. false));
        live = live;
      } in
      (
        w,
        rw (eq_refl name, set_item) refl,
        ground (arith, (stop_everything_lem disconnects releases w Part.network 0).0),
        ground (arith, (stop_everything_lem disconnects releases w Part.network 1).0),
      )
