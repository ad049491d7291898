-- ===== src/Fixtures.antt =====
-- hivescope/pytest_fixtures.py: what the fixtures do to the builder that they share. Each satellite fixture adds
-- its satellite under the master of `master_node` and calls `start_all` again; a start that raises fails the
-- test. The waits for the handshake come after `start_all` has returned.
pub mod Growing
pub mod Using
mod Tests
use hivescope.Prelude.{ℕ, String, true, false, List, [], ◌∷◌}
use hivescope.Outcome.{Outcome, ok, raise, ◌>>=◌, ◌>>◌}
use hivescope.Value.{bool, arr, texts, Fields, end, field}
use hivescope.Topology.{
  Master, Upstream, master_node, TopologyBuilder, init, add_master, add_satellite, Handshake,
  start_all,
}

-- A fixture that makes a satellite, by its name and keywords.
abbrev pub Use : Type 0
Use = String × Fields

abbrev pub satellite_node : Use
satellite_node = ("S0", end)

abbrev pub admin_satellite : Use
admin_satellite = (
  "S_ADMIN",
  field "is_admin" (bool true)
      (field "can_propagate" (bool true) (field "can_broadcast" (bool true) end)),
)

abbrev pub restricted_satellite : Use
restricted_satellite = (
  "S_RESTRICTED",
  field "is_admin" (bool false) (
      field "can_propagate" (bool false) (
        field "can_escalate" (bool false)
          (field "allowed_types" (arr (texts ("recognizer_loop:utterance" ∷ []))) end))),
)

module _ (run : ℕ → Outcome (Unit {0})) (handshake : ℕ → ℕ → Fields → Handshake) where
  abbrev pub started : TopologyBuilder × Outcome (Unit {0}) → Outcome TopologyBuilder
  started (b, ok u) = ok b
  started (b, raise e) = raise e

  -- topology and master_node
  unfoldable pub master_fixture : Outcome (TopologyBuilder × Master)
  master_fixture = do
    (b, m) ← add_master "M0" [] init
    topology ← started (start_all run handshake b)
    ok (topology, m)

  unfoldable pub satellite_fixture : Use → Master → TopologyBuilder → Outcome TopologyBuilder
  satellite_fixture (name, kwargs) m topology = do
    (b, s) ← add_satellite name (master_node m) kwargs topology
    started (start_all run handshake b)

  -- The satellite fixtures of a test, in the order in which pytest sets them up.
  unfoldable pub satellite_fixtures : List Use → Master → TopologyBuilder → Outcome TopologyBuilder
  unfolding satellite_fixture
  satellite_fixtures [] m topology = ok topology
  satellite_fixtures (u ∷ us) m topology = do
    b ← satellite_fixture u m topology
    satellite_fixtures us m b

  unfoldable pub fixtures : List Use → Outcome TopologyBuilder
  unfolding master_fixture satellite_fixtures
  fixtures us = do (b, m) ← master_fixture; satellite_fixtures us m b
