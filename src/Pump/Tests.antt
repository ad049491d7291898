-- ===== src/Pump/Tests.antt =====
-- The pump on concrete actions: the first delivers the second and then acts, the second acts, and all
-- others fail.
use hivescope.Prelude.{ℕ, zero, suc, List, [], ◌∷◌}
use hivescope.Pump.{Op, effect, deliver_op, fail}
use hivescope.Pump.Settles.{Settles}

abbrev body : ℕ → List Op
body zero = deliver_op 1 ∷ effect 7 ∷ []
body (suc zero) = effect 8 ∷ []
body (suc (suc n)) = fail ∷ []

abbrev weight : ℕ → ℕ
weight zero = 7
weight (suc zero) = 3
weight (suc (suc n)) = 3
