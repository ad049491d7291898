-- ===== src/Scenarios/Loops.antt =====
-- What the loops of hivescope/scenarios.py add to a topology, and to its connections.
use Prim.Native.String.{◌++◌ as join}
use hivescope.Prelude.{
  ℕ, suc, ◌≡◌, refl, sym, ◌∙◌, String, List, [], ◌∷◌, ◌++◌, append-nil, append_assoc, all,
}
use hivescope.Outcome.{Outcome, ok}
use hivescope.Value.{Fields, end}
use hivescope.Dict.{set_item}
use hivescope.Topology.{
  Master, Satellite, RelayNode, Upstream, relay_node, TopologyBuilder, Entry, add_satellite,
  add_relay, resolve_listener,
}
use hivescope.Topology.Wiring.{
  IsWired, OnOk, Known, Listed-here, add_satellite-IsWired, add_relay-IsWired,
}
use hivescope.Scenarios.{S, R, add_satellites, add_relays}
use hivescope.Scenarios.Names.{entry, R_sat, R_master, chain, last_hub, leaves}

-- What a loop of builder calls comes to: it raises nothing, keeps the wiring and adds these connections.
abbrev pub Adds : Outcome TopologyBuilder → TopologyBuilder → List Entry → Type 0
Adds o t es = (u : TopologyBuilder) × (o ≡ ok u) × IsWired u × (u.connections ≡ t.connections ++ es)

-- One `add_satellite` under a registered listener: the upstream stays known.
pub add_satellite-Adds :
    (name : String) (up : Upstream) (kwargs : Fields) (t : TopologyBuilder) (known : Known up t)
    → IsWired t
    → (u : TopologyBuilder) × (s : Satellite) × (add_satellite name up kwargs t ≡ ok (u, s))
      × IsWired u
      × ((v : Known up u) × (v.0.name ≡ known.0.name))
      × (u.connections
          ≡ t.connections
            ++ record { satellite_name = name; master_name = known.0.name; connect_kwargs = kwargs }
              ∷ [])
unfolding add_satellite
add_satellite-Adds name up kwargs t (m, found, listed) h =
    let wired : OnOk (λ r. IsWired r.0) (add_satellite name up kwargs t) =
      add_satellite-IsWired name up kwargs t (m, found, listed) h in
    let sat : Satellite = record { id = t.next_id; name = name } in
    let c : Entry = record {
      satellite_name = name;
      master_name = m.name;
      connect_kwargs = kwargs;
    } in
    (
      record t {
        satellites = set_item name sat t.satellites;
        connections = t.connections ++ c ∷ [];
        next_id = suc t.next_id;
      },
      sat,
      rw found refl,
      rw found at wired,
      ((m, found, listed), refl),
      refl,
    )

pub add_satellites-Adds :
    (is : List ℕ) (up : Upstream) (t : TopologyBuilder) (known : Known up t)
    → IsWired t
    → Adds (add_satellites is up t) t (leaves known.0.name is)
unfolding add_satellites
add_satellites-Adds [] up t known h = (t, refl, h, sym (append-nil t.connections))
add_satellites-Adds (i ∷ is) up t known h =
    let (u, s, done, wired, (v, same), more) = add_satellite-Adds (S i) up end t known h in
    let (w, rest, wired', all) = add_satellites-Adds is up u v wired in
    (
      w,
      rw done rest,
      wired',
      all
          ∙ rw (more, same)
              (append_assoc t.connections (entry (S i) known.0.name ∷ []) (leaves known.0.name is)),
    )

-- One `add_relay` under a registered listener: the relay's listener is registered.
pub add_relay-Adds :
    (name : String) (up : Upstream) (kwargs : Fields) (t : TopologyBuilder) (known : Known up t)
    → IsWired t
    → (u : TopologyBuilder) × (r : RelayNode) × (add_relay name up kwargs t ≡ ok (u, r))
      × IsWired u
      × ((v : Known (relay_node r) u) × (v.0.name ≡ join name "_master"))
      × (u.connections
          ≡ t.connections
            ++ record {
              satellite_name = join name "_sat";
              master_name = known.0.name;
              connect_kwargs = kwargs;
            }
              ∷ [])
unfolding add_relay resolve_listener
add_relay-Adds name up kwargs t (m, found, listed) h =
    let wired : OnOk (λ r. IsWired r.0) (add_relay name up kwargs t) =
      add_relay-IsWired name up kwargs t (m, found, listed) h in
    let sat : Satellite = record { id = t.next_id; name = join name "_sat" } in
    let node : Master = record { id = suc t.next_id; name = join name "_master" } in
    let relay : RelayNode = record { name = name; upstream = sat; listener = node } in
    let c : Entry = record {
      satellite_name = join name "_sat";
      master_name = m.name;
      connect_kwargs = kwargs;
    } in
    (
      record t {
        masters = set_item (join name "_master") node t.masters;
        satellites = set_item (join name "_sat") sat t.satellites;
        relays = set_item name relay t.relays;
        connections = t.connections ++ c ∷ [];
        next_id = suc (suc t.next_id);
      },
      relay,
      rw found refl,
      rw found at wired,
      ((node, refl, Listed-here (join name "_master") node t.masters), refl),
      refl,
    )

pub add_relays-Adds :
    (levels : List ℕ) (up : Upstream) (t : TopologyBuilder) (known : Known up t)
    → IsWired t
    → (u : TopologyBuilder) × (v : Upstream) × (add_relays levels up t ≡ ok (u, v))
      × IsWired u
      × ((k : Known v u) × (k.0.name ≡ last_hub known.0.name levels))
      × (u.connections ≡ t.connections ++ chain known.0.name levels)
unfolding add_relays chain last_hub
add_relays-Adds [] up t known h = (t, up, refl, h, (known, refl), sym (append-nil t.connections))
add_relays-Adds (level ∷ levels) up t known h =
    let (u, r, done, wired, (v, same), more) = add_relay-Adds (R level) up end t known h in
    let (w, last, rest, wired', (k, end_name), all) =
      add_relays-Adds levels (relay_node r) u v wired in
    (
      w,
      last,
      rw done rest,
      wired',
      (k, rw (← same) end_name),
      all
          ∙ rw (more, same)
              (append_assoc t.connections (entry (R_sat level) known.0.name ∷ [])
                (chain (R_master level) levels)),
    )
