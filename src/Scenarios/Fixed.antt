-- ===== src/Scenarios/Fixed.antt =====
-- The scenarios of hivescope/scenarios.py that have no count.
use hivescope.Prelude.{ℕ, String, true, ◌≡◌, ◌∙◌, subst, refl, List, [], ◌∷◌, all, any}
use hivescope.Outcome.{Outcome, ok, raise}
use hivescope.Value.{Value, bool, Fields, end, field}
use hivescope.Dict.{lookup, set_item}
use hivescope.Assertions.{contains}
use hivescope.Topology.{
  TopologyBuilder, Entry, init, add_master, add_satellite, add_relay, get_master, get_relay,
  resolve_listener, Add, master, satellite_of, relay_of, satellite_of_relay, add, build, Handshake,
  completes,
}
use hivescope.Topology.Wiring.{IsWired, OnOk}
use hivescope.Topology.Building.{build-IsWired}
use hivescope.Topology.Starting.{Different, Starts, IsWired-Starts}
use hivescope.Scenarios.{
  single_satellite, admin_satellite, with_relay, chain_topology, with_acl_enforcement,
  with_multiple_agent_protocols, admin_kwargs, restricted_type_kwargs, restricted_skill_kwargs,
}
use hivescope.Scenarios.Names.{entry}

-- The builder that a call returned.
abbrev got : Outcome TopologyBuilder → TopologyBuilder
got (ok t) = t
got (raise e) = init

abbrev pub keyed : String → String → Fields → Entry
keyed sat up kwargs = record { satellite_name = sat; master_name = up; connect_kwargs = kwargs }

module _ (run : ℕ → Outcome (Unit {0})) (handshake : ℕ → ℕ → Fields → Handshake)
    (runs : (m : ℕ) → run m ≡ ok tt)
    (completed : (s m : ℕ) (kwargs : Fields) → handshake s m kwargs ≡ completes)
    (again : ℕ → ℕ → Fields → Handshake) where
  -- It raises nothing, makes these connections, and starts.
  abbrev pub Runs : Outcome TopologyBuilder → List Entry → Type 0
  Runs o es =
      (t : TopologyBuilder) × (o ≡ ok t)
      × (t.connections ≡ es)
      × Starts run handshake runs completed again t

  same-Runs :
      (o : Outcome TopologyBuilder) (adds : List Add)
      → build adds init ≡ o
      → o ≡ ok (got o)
      → Different (got o).connections
      → Runs o (got o).connections
  same-Runs o adds same returned d =
      let wired : OnOk IsWired (ok (got o)) =
        subst (OnOk IsWired) (same ∙ returned) (build-IsWired adds) in
      (got o, returned, refl, IsWired-Starts run handshake runs completed again (got o) wired d)

  -- If no network protocol refuses to run and every handshake completes, then each of the scenarios without a
  -- count raises nothing, makes the connections listed, with the keywords listed, and `start_all` connects
  -- each satellite to its master; a second `start_all` changes nothing. Among them, `with_acl_enforcement`
  -- has one admin with two types, one satellite with `speak` alone, and one with a skill blacklist.
  pub scenarios-Runs :
      (allowed_types : Value)
      → Runs
          (single_satellite allowed_types)
          (keyed "S0" "M0" (field "allowed_types" allowed_types end) ∷ [])
        × Runs (admin_satellite allowed_types) (
            keyed "S0" "M0" (field "is_admin" (bool true) (field "allowed_types" allowed_types end))
            ∷ [])
        × Runs with_relay
            (entry "R0_sat" "M0" ∷ entry "S0" "R0_master" ∷ entry "S1" "R0_master" ∷ [])
        × Runs chain_topology (entry "R0_sat" "M0" ∷ entry "S0" "R0_master" ∷ [])
        × Runs with_acl_enforcement (
            keyed "S_ADMIN" "M0" admin_kwargs
            ∷ keyed "S_RESTRICTED_TYPE" "M0" restricted_type_kwargs
            ∷ keyed "S_RESTRICTED_SKILL" "M0" restricted_skill_kwargs
            ∷ [])
        × Runs with_multiple_agent_protocols (entry "S0" "M0" ∷ [])
  unfolding single_satellite admin_satellite with_relay chain_topology with_acl_enforcement
      with_multiple_agent_protocols build add add_master add_satellite add_relay get_master
      get_relay resolve_listener init all any contains lookup set_item
  scenarios-Runs allowed_types =
      let M0 : Add = master "M0" [] in
      (
        same-Runs (single_satellite allowed_types)
            (M0 ∷ satellite_of "S0" "M0" (field "allowed_types" allowed_types end) ∷ []) refl refl
            (tt, tt),
        same-Runs (admin_satellite allowed_types)
            (M0
              ∷ satellite_of "S0" "M0"
                  (field "is_admin" (bool true) (field "allowed_types" allowed_types end))
              ∷ [])
            refl refl (tt, tt),
        same-Runs with_relay
            (M0
              ∷ relay_of "R0" "M0" end
              ∷ satellite_of_relay "S0" "R0" end
              ∷ satellite_of_relay "S1" "R0" end
              ∷ [])
            refl refl ((refl, (refl, tt)), ((refl, tt), (tt, tt))),
        same-Runs chain_topology
            (M0 ∷ relay_of "R0" "M0" end ∷ satellite_of_relay "S0" "R0" end ∷ []) refl refl
            ((refl, tt), (tt, tt)),
        same-Runs with_acl_enforcement
            (M0
              ∷ satellite_of "S_ADMIN" "M0" admin_kwargs
              ∷ satellite_of "S_RESTRICTED_TYPE" "M0" restricted_type_kwargs
              ∷ satellite_of "S_RESTRICTED_SKILL" "M0" restricted_skill_kwargs
              ∷ [])
            refl refl ((refl, (refl, tt)), ((refl, tt), (tt, tt))),
        same-Runs with_multiple_agent_protocols
            (master "M0" ("agent_protocol" ∷ []) ∷ satellite_of "S0" "M0" end ∷ []) refl refl
            (tt, tt),
      )
