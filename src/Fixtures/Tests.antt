-- ===== src/Fixtures/Tests.antt =====
-- All three satellite fixtures in one test.
use hivescope.Prelude.{ℕ, ◌≡◌, refl, List, [], ◌∷◌, All}
use hivescope.Outcome.{Outcome, ok}
use hivescope.Value.{Fields}
use hivescope.Topology.{TopologyBuilder, Handshake, completes}
use hivescope.Topology.Starting.{Connects}
use hivescope.Fixtures.{Use, satellite_node, admin_satellite, restricted_satellite, fixtures}
use hivescope.Fixtures.Using.{uses, M0, fixtures-IsUp}

abbrev network : ℕ → Outcome (Unit {0})
network m = ok tt

abbrev done : ℕ → ℕ → Fields → Handshake
done s m kwargs = completes

abbrev used : List Use
used = restricted_satellite ∷ satellite_node ∷ admin_satellite ∷ []

fixtures-IsUp_example :
    (b : TopologyBuilder) × (fixtures network done used ≡ ok b)
    × (b.connections ≡ uses M0 used)
    × All (Connects b b.links) b.connections
fixtures-IsUp_example =
    fixtures-IsUp network done (λ i. refl) (λ s i kw. refl) used
      ((refl, (refl, tt)), ((refl, tt), (tt, tt)))
