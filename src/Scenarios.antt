-- ===== src/Scenarios.antt =====
-- hivescope/scenarios.py: every scenario as the builder calls that it makes. An upstream is the object that
-- the call before returned. A negative count makes the same empty range as zero.
pub mod Names
pub mod Loops
pub mod Hubs
pub mod Fixed
mod Tests
use Prim.Native.String.{◌++◌ as join}
use hivescope.Prelude.{ℕ, zero, suc, ◌-◌, String, true, false, List, [], ◌∷◌}
use hivescope.Outcome.{Outcome, ok, raise, ◌>>=◌}
use hivescope.Value.{Value, bool, arr, texts, Fields, end, field}
use hivescope.Decimal.{decimal}
use hivescope.Topology.{
  Upstream, master_node, relay_node, TopologyBuilder, init, add_master, add_satellite, add_relay,
}

-- `count` numbers from `first` on
abbrev pub range : (first count : ℕ) → List ℕ
range first zero = []
range first (suc count) = first ∷ range (suc first) count

abbrev pub S : ℕ → String
S i = join "S" (decimal i)

abbrev pub R : ℕ → String
R i = join "R" (decimal i)

-- for i in …: b.add_satellite(f"S{i}", upstream=upstream)
unfoldable pub add_satellites : List ℕ → Upstream → TopologyBuilder → Outcome TopologyBuilder
unfolding add_satellite
add_satellites [] upstream b = ok b
add_satellites (i ∷ is) upstream b = do
  (b', s) ← add_satellite (S i) upstream end b
  add_satellites is upstream b'

-- for level in …: the builder, and `prev_node`
unfoldable pub add_relays :
    List ℕ → Upstream → TopologyBuilder → Outcome (TopologyBuilder × Upstream)
unfolding add_relay
add_relays [] prev_node b = ok (b, prev_node)
add_relays (level ∷ levels) prev_node b = do
  (b', r) ← add_relay (R level) prev_node end b
  add_relays levels (relay_node r) b'

module _ (allowed_types : Value) where
  unfoldable pub single_satellite : Outcome TopologyBuilder
  single_satellite = do
    (b, m) ← add_master "M0" [] init
    (b', s) ← add_satellite "S0" (master_node m) (field "allowed_types" allowed_types end) b
    ok b'

  unfoldable pub admin_satellite : Outcome TopologyBuilder
  admin_satellite = do
    (b, m) ← add_master "M0" [] init
    (b', s) ←
        add_satellite "S0" (master_node m)
          (field "is_admin" (bool true) (field "allowed_types" allowed_types end)) b
    ok b'

unfoldable pub three_satellites : Outcome TopologyBuilder
three_satellites = do (b, m) ← add_master "M0" [] init; add_satellites (range 0 3) (master_node m) b

unfoldable pub with_relay : Outcome TopologyBuilder
with_relay = do
  (b, m) ← add_master "M0" [] init
  (b1, r) ← add_relay "R0" (master_node m) end b
  (b2, s0) ← add_satellite "S0" (relay_node r) end b1
  (b3, s1) ← add_satellite "S1" (relay_node r) end b2
  ok b3

unfoldable pub chain_topology : Outcome TopologyBuilder
chain_topology = do
  (b, m) ← add_master "M0" [] init
  (b1, r) ← add_relay "R0" (master_node m) end b
  (b2, s) ← add_satellite "S0" (relay_node r) end b1
  ok b2

unfoldable pub star_topology : ℕ → Outcome TopologyBuilder
star_topology num_satellites = do
  (b, m) ← add_master "M0" [] init
  add_satellites (range 0 num_satellites) (master_node m) b

abbrev pub admin_kwargs : Fields
admin_kwargs = field "is_admin" (bool true) (
    field "can_propagate" (bool true) (
      field "can_escalate" (bool true)
        (field "allowed_types" (arr (texts ("recognizer_loop:utterance" ∷ "speak" ∷ []))) end)))

abbrev pub restricted_type_kwargs : Fields
restricted_type_kwargs =
    field "is_admin" (bool false) (field "allowed_types" (arr (texts ("speak" ∷ []))) end)

abbrev pub restricted_skill_kwargs : Fields
restricted_skill_kwargs = field "is_admin" (bool false) (
    field "allowed_types" (arr (texts ("recognizer_loop:utterance" ∷ [])))
      (field "skill_blacklist" (arr (texts ("skill-weather" ∷ []))) end))

unfoldable pub with_acl_enforcement : Outcome TopologyBuilder
with_acl_enforcement = do
  (b, m) ← add_master "M0" [] init
  (b1, s1) ← add_satellite "S_ADMIN" (master_node m) admin_kwargs b
  (b2, s2) ← add_satellite "S_RESTRICTED_TYPE" (master_node m) restricted_type_kwargs b1
  (b3, s3) ← add_satellite "S_RESTRICTED_SKILL" (master_node m) restricted_skill_kwargs b2
  ok b3

unfoldable pub hierarchical_hubs : (num_levels sats_per_relay : ℕ) → Outcome TopologyBuilder
unfolding add_relays add_satellites
hierarchical_hubs num_levels sats_per_relay = do
  (b, m) ← add_master "M0" [] init
  (b', prev_node) ← add_relays (range 1 (num_levels - 1)) (master_node m) b
  add_satellites (range 0 sats_per_relay) prev_node b'

-- The agent protocol that is passed is one of the keywords of `MasterNode.create`.
unfoldable pub with_multiple_agent_protocols : Outcome TopologyBuilder
with_multiple_agent_protocols = do
  (b, m) ← add_master "M0" ("agent_protocol" ∷ []) init
  (b', s) ← add_satellite "S0" (master_node m) end b
  ok b'
