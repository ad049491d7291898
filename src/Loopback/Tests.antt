-- ===== src/Loopback/Tests.antt =====
-- The loopback servers on concrete starts and stops.
use hivescope.Prelude.{ℕ, ◌≡◌, refl, false, List, [], ◌∷◌}
use hivescope.Loopback.{
  World, listening, failed, history, fresh, Call, runs, stops, step, run, start, conflicts, pop,
}
use hivescope.Loopback.Floors.{running_agree}

abbrev floor : ℕ → ℕ
floor i = 3

abbrev calls : List Call
calls =
    runs 1 (listening "ws://localhost:1")
    ∷ runs 3 failed
    ∷ runs 2 (listening "ws://localhost:2")
    ∷ []

abbrev after : World
after = history calls (fresh floor)

running_agree_example :
    (after.protocols 1).min_protocol_version ≡ (after.protocols 2).min_protocol_version
unfolding history step run start fresh conflicts pop
running_agree_example = running_agree floor calls 1 2 refl refl

abbrev zombie : List Call
zombie =
    runs 1 (listening "ws://localhost:1")
    ∷ stops 1 false
    ∷ runs 2 (listening "ws://localhost:2")
    ∷ []
