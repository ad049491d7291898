-- ===== src/Topology/Faults.antt =====
-- Two ways in which `start_all` of hivescope/topology.py connects otherwise than asked.
use hivescope.Prelude.{
  ℕ, ◌≡◌, refl, String, true, false, none, some, [], ◌∷◌, ◌==◌, All, all, nat_eq, nat_eq_iff, arith,
  eq_refl,
}
use hivescope.Outcome.{Outcome, ok, raise, runtime_error}
use hivescope.Value.{Fields, end}
use hivescope.Dict.{lookup, set_item, values}
use hivescope.Topology.{
  Entry, Links, TopologyBuilder, init, add_master, add_satellite, get_master, resolve_listener,
  master, satellite_of, add, build, Handshake, completes, stalls, set_link, connect_entry,
  connect_all, start_all,
}
use hivescope.Topology.Wiring.{HasEnds, IsWired}
use hivescope.Topology.Starting.{run_all_ok}

module _ (run : ℕ → Outcome (Unit {0})) (handshake : ℕ → ℕ → Fields → Handshake)
    (runs : (m : ℕ) → run m ≡ ok tt) where
  -- On a wired topology with one connection, whose network protocols run: if the handshake does
  -- not complete, `start_all` raises RuntimeError, and a second `start_all` skips the satellite,
  -- changes nothing and returns as if it were connected.
  stalled_skipped :
      ((s m : ℕ) (kwargs : Fields) → handshake s m kwargs ≡ stalls)
      → (t : TopologyBuilder) (c : Entry) → IsWired t
      → t.connections ≡ c ∷ []
      → (after : Links) × (start_all run handshake t
          ≡ (record t { links = after }, raise runtime_error))
        × (start_all run handshake (record t { links = after })
            ≡ (record t { links = after }, ok tt))
  unfolding start_all connect_all
  stalled_skipped stalled t c w one =
      let ends : All (HasEnds t.satellites t.masters) (c ∷ []) = rw one at w.ends in
      let (s, e) = ends.0.0 in
      let (m, f) = ends.0.1 in
      let linked : nat_eq s.id s.id ≡ true = ground (arith, nat_eq_iff s.id s.id) in
      (
        set_link s.id (some m.id) t.links,
        rw
            (
              run_all_ok run handshake runs (values t.masters),
              one,
              e,
              w.idle s.id,
              f,
              stalled s.id m.id c.connect_kwargs,
              connect_all,
              connect_entry,
            )
            refl,
        rw
            (
              run_all_ok run handshake runs (values t.masters),
              one,
              e,
              linked,
              connect_all,
              connect_entry,
            )
            refl,
      )

  -- Two masters of different names, and two satellites of one name, the first added with the first
  -- master and the second with the second; network protocols run and handshakes complete. Then
  -- `start_all` connects the second satellite to the first master, and the first satellite to
  -- none.
  same_name_miswires :
      ((s m : ℕ) (kwargs : Fields) → handshake s m kwargs ≡ completes)
      → (a b n : String) → (a == b) ≡ false
      → (t : TopologyBuilder) × (build
            (master a [] ∷ master b [] ∷ satellite_of n a end ∷ satellite_of n b end ∷ [])
            init
          ≡ ok t)
        × (lookup n t.satellites ≡ some (record { id = 3; name = n }))
        × ((start_all run handshake t).0.links 3 ≡ some 0)
        × ((start_all run handshake t).0.links 2 ≡ none)
  unfolding build add add_master add_satellite get_master resolve_listener init all lookup set_item
      start_all connect_all connect_entry
  same_name_miswires completed a b n differ = (
    added,
    ground (arith, eq_refl a, eq_refl b, eq_refl n),
    ground (arith, eq_refl n),
    ground (arith, eq_refl a, eq_refl b, eq_refl n, runs 0, runs 1, completed 3 0 end),
    ground (arith, eq_refl a, eq_refl b, eq_refl n, runs 0, runs 1, completed 3 0 end),
  )
    where
      added : TopologyBuilder
      added = record {
        masters = (a, record { id = 0; name = a }) ∷ (b, record { id = 1; name = b }) ∷ [];
        satellites = (n, record { id = 3; name = n }) ∷ [];
        relays = [];
        connections =
            record { satellite_name = n; master_name = a; connect_kwargs = end }
            ∷ record { satellite_name = n; master_name = b; connect_kwargs = end }
            ∷ [];
        next_id = 4;
        links = λ i. none;
      }
