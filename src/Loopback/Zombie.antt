-- ===== src/Loopback/Zombie.antt =====
-- A server that could not be stopped is no longer registered.
use hivescope.Prelude.{ℕ, ◌≡◌, String, true, false, some, [], ◌∷◌, nat_eq, arith}
use hivescope.Loopback.{listening, pop, conflicts, history, fresh, runs, stops}

-- For two different instances with any floors: if the first starts and its thread cannot be joined
-- by `stop`, a start of the second writes its own floor into the server configuration while the
-- thread of the first is still there.
pub zombie_keeps_thread :
    (floor : ℕ → ℕ) (i j : ℕ) (u v : String)
    → nat_eq i j ≡ false
    → (((history
            (runs i (listening u) ∷ stops i false ∷ runs j (listening v) ∷ [])
            (fresh floor)).protocols
          i).has_thread
        ≡ true)
      × ((history
            (runs i (listening u) ∷ stops i false ∷ runs j (listening v) ∷ [])
            (fresh floor)).config
          ≡ some (floor j))
unfolding history fresh conflicts pop
zombie_keeps_thread floor i j u v n = (ground arith, ground arith)
