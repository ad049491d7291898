-- ===== src/Scenarios/Tests.antt =====
-- Runs of the scenarios on a network where every handshake completes.
use hivescope.Prelude.{ℕ, ◌≡◌, refl, [], ◌∷◌}
use hivescope.Outcome.{Outcome, ok, runtime_error}
use hivescope.Value.{Fields}
use hivescope.Decimal.{decimal}
use hivescope.Topology.{Handshake, completes, refused}
use hivescope.Scenarios.Names.{entry, chain, last_hub}
use hivescope.Scenarios.Hubs.{hub_connections}

abbrev network : ℕ → Outcome (Unit {0})
network m = ok tt

abbrev done : ℕ → ℕ → Fields → Handshake
done s m kwargs = completes

decimal_100 : decimal 100 ≡ "100"
unfolding decimal
decimal_100 = refl

hub_connections_test :
    hub_connections 3 2
    ≡ entry "R1_sat" "M0"
      ∷ entry "R2_sat" "R1_master"
      ∷ entry "S0" "R2_master"
      ∷ entry "S1" "R2_master"
      ∷ []
unfolding hub_connections chain last_hub decimal
hub_connections_test = refl

abbrev refuses : ℕ → ℕ → Fields → Handshake
refuses s m kwargs = refused runtime_error
