-- ===== src/Topology/Wiring.antt =====
-- What every series of builder calls keeps: each connection names nodes that are registered.
use Prim.Native.String.{◌++◌ as join}
use hivescope.Prelude.{
  ℕ, suc, ◌≤◌, ◌<◌, ◌≡◌, refl, ◌∙◌, String, none, some, List, [], ◌∷◌, ◌==◌, All, All-append, all,
  arith, eq_iff, eq_refl, Bool-cases, inl, inr,
}
use hivescope.Outcome.{Outcome, ok, raise}
use hivescope.Value.{Fields}
use hivescope.Dict.{Dict, lookup, set_item}
use hivescope.Dict.Laws.{lookup-set_item}
use hivescope.Topology.{
  Master, Satellite, RelayNode, Upstream, Entry, TopologyBuilder, init, add_master, add_satellite,
  add_relay, resolve_listener, known_option,
}

abbrev pub Listed {ℓ} : {V : Type ℓ} → String → Dict V → Type ℓ
Listed {V} k d = (v : V) × (lookup k d ≡ some v)

pub Listed-here {ℓ} : {V : Type ℓ} (k : String) (v : V) (d : Dict V) → Listed k (set_item k v d)
Listed-here k v d = (v, lookup-set_item k k v d ∙ rw (eq_refl k))

Listed-set_item {ℓ} :
    {V : Type ℓ} (j k : String) (v : V) (d : Dict V) → Listed k d → Listed k (set_item j v d)
Listed-set_item j k v d (w, e) = elim (Bool-cases (j == k)) [
  | inl q ↦ (v, lookup-set_item j k v d ∙ rw q)
  | inr q ↦ (w, lookup-set_item j k v d ∙ rw q e)
]

-- Both ends of a connection are registered.
abbrev pub HasEnds : Dict Satellite → Dict Master → Entry → Type 0
HasEnds sats masters c = Listed c.satellite_name sats × Listed c.master_name masters

HasEnds-master :
    (m : String) (node : Master) (sats : Dict Satellite) (masters : Dict Master) (cs : List Entry)
    → All (HasEnds sats masters) cs
    → All (HasEnds sats (set_item m node masters)) cs
HasEnds-master m node sats masters [] h = tt
HasEnds-master m node sats masters (c ∷ cs) h = (
  (h.0.0, Listed-set_item m c.master_name node masters h.0.1),
  HasEnds-master m node sats masters cs h.1,
)

HasEnds-satellite :
    (s : String) (sat : Satellite) (sats : Dict Satellite) (masters : Dict Master) (cs : List Entry)
    → All (HasEnds sats masters) cs
    → All (HasEnds (set_item s sat sats) masters) cs
HasEnds-satellite s sat sats masters [] h = tt
HasEnds-satellite s sat sats masters (c ∷ cs) h = (
  (Listed-set_item s c.satellite_name sat sats h.0.0, h.0.1),
  HasEnds-satellite s sat sats masters cs h.1,
)

-- Satellites under different names are different objects, older than the next one.
pub record IsApart (n : ℕ) (d : Dict Satellite) : Type 0 where
  pub older : (k : String) (s : Satellite) → lookup k d ≡ some s → s.id < n
  pub unique :
      (j k : String) (a b : Satellite)
      → lookup j d ≡ some a
      → lookup k d ≡ some b
      → a.id ≡ b.id
      → j ≡ k

-- Masters stand under their names, a relay's listener is registered, every connection's ends are,
-- and no satellite is connected yet.
pub record IsWired (t : TopologyBuilder) : Type 0 where
  pub keyed : (k : String) (m : Master) → lookup k t.masters ≡ some m → m.name ≡ k
  pub listeners :
      (k : String) (r : RelayNode) → lookup k t.relays ≡ some r → Listed r.listener.name t.masters
  pub ends : All (HasEnds t.satellites t.masters) t.connections
  pub satellites : IsApart t.next_id t.satellites
  pub idle : (i : ℕ) → t.links i ≡ none

abbrev pub OnOk {ℓ κ} : {A : Type ℓ} → (A → Type κ) → Outcome A → Type κ
OnOk P (ok a) = P a
OnOk P (raise e) = Unit

pub init-IsWired : IsWired init
unfolding init lookup
init-IsWired = record {
  keyed = λ k m e. absurd (cc);
  listeners = λ k r e. absurd (cc);
  ends = tt;
  satellites = record { older = λ k s e. absurd (cc); unique = λ j k a b e f i. absurd (cc) };
  idle = λ i. refl;
}

set_item-IsApart :
    (name : String) (n m : ℕ) (d : Dict Satellite)
    → n < m
    → IsApart n d
    → IsApart m (set_item name (record { id = n; name = name }) d)
set_item-IsApart name n m d above h = record {
  older = λ k s e.
      ground (arith, lookup-set_item name k (record { id = n; name = name }) d, h.older k s);
  unique = λ j k a b e f i. ground (
    arith,
    lookup-set_item name j (record { id = n; name = name }) d,
    lookup-set_item name k (record { id = n; name = name }) d,
    eq_iff name j,
    eq_iff name k,
    h.older j a,
    h.older k b,
    h.unique j k a b,
  );
}

IsApart-mono : (n m : ℕ) (d : Dict Satellite) → n ≤ m → IsApart n d → IsApart m d
IsApart-mono n m d le h = record {
  older = λ k s e. omega (arith, h.older k s e);
  unique = h.unique;
}

set_item-keyed :
    (name : String) (n : ℕ) (d : Dict Master)
    → ((k : String) (m : Master) → lookup k d ≡ some m → m.name ≡ k)
    → (k : String) (m : Master)
    → lookup k (set_item name (record { id = n; name = name }) d) ≡ some m
    → m.name ≡ k
set_item-keyed name n d h k m e =
    ground (arith, lookup-set_item name k (record { id = n; name = name }) d, h k m, eq_iff name k)

pub add_master-IsWired :
    (name : String) (options : List String) (t : TopologyBuilder)
    → IsWired t
    → OnOk (λ r. IsWired r.0) (add_master name options t)
unfolding add_master
add_master-IsWired name options t h = elim (Bool-cases (all known_option options)) [
  | inl e ↦
      let node : Master = record { id = t.next_id; name = name } in
      rw (e, add_master)
        (record {
          keyed = set_item-keyed name t.next_id t.masters h.keyed;
          listeners =
              λ k r e. Listed-set_item name r.listener.name node t.masters (h.listeners k r e);
          ends = HasEnds-master name node t.satellites t.masters t.connections h.ends;
          satellites =
              IsApart-mono t.next_id (suc t.next_id) t.satellites (omega arith) h.satellites;
          idle = h.idle;
        })
  | inr e ↦ rw (e, add_master) tt
]

-- The upstream's listener is registered.
abbrev pub Known : Upstream → TopologyBuilder → Type 0
Known u t = (m : Master) × (resolve_listener u ≡ ok m) × Listed m.name t.masters

pub add_satellite-IsWired :
    (name : String) (u : Upstream) (kwargs : Fields) (t : TopologyBuilder)
    → Known u t
    → IsWired t
    → OnOk (λ r. IsWired r.0) (add_satellite name u kwargs t)
unfolding add_satellite
add_satellite-IsWired name u kwargs t (m, found, listed) h =
    let sat : Satellite = record { id = t.next_id; name = name } in
    rw found (record {
      keyed = h.keyed;
      listeners = h.listeners;
      ends =
          All-append (HasEnds (set_item name sat t.satellites) t.masters) t.connections _
            (HasEnds-satellite name sat t.satellites t.masters t.connections h.ends)
            ((Listed-here name sat t.satellites, listed), tt);
      satellites =
          set_item-IsApart name t.next_id (suc t.next_id) t.satellites (omega arith) h.satellites;
      idle = h.idle;
    })

set_relay :
    (name at : String) (relay : RelayNode) (node : Master) (t : TopologyBuilder)
    → relay.listener.name ≡ at
    → ((k : String) (r : RelayNode) → lookup k t.relays ≡ some r → Listed r.listener.name t.masters)
    → (k : String) (r : RelayNode) → lookup k (set_item name relay t.relays) ≡ some r
    → Listed r.listener.name (set_item at node t.masters)
set_relay name at relay node t e h k r f = elim (Bool-cases (name == k)) [
  | inl q ↦
      let same : relay ≡ r = ground (arith, lookup-set_item name k relay t.relays) in
      let here : r.listener.name ≡ at = rw (← same) e in rw here (Listed-here at node t.masters)
  | inr q ↦
      Listed-set_item at r.listener.name node t.masters
        (h k r (ground (arith, lookup-set_item name k relay t.relays)))
]

pub add_relay-IsWired :
    (name : String) (u : Upstream) (kwargs : Fields) (t : TopologyBuilder)
    → Known u t
    → IsWired t
    → OnOk (λ r. IsWired r.0) (add_relay name u kwargs t)
unfolding add_relay
add_relay-IsWired name u kwargs t (m, found, listed) h =
    let sat : Satellite = record { id = t.next_id; name = join name "_sat" } in
    let node : Master = record { id = suc t.next_id; name = join name "_master" } in
    rw found (record {
      keyed = set_item-keyed (join name "_master") (suc t.next_id) t.masters h.keyed;
      listeners = set_relay name (join name "_master") _ node t refl h.listeners;
      ends =
          All-append
            (HasEnds (set_item (join name "_sat") sat t.satellites)
              (set_item (join name "_master") node t.masters))
            t.connections _
            (HasEnds-master (join name "_master") node
              (set_item (join name "_sat") sat t.satellites) t.masters t.connections
              (HasEnds-satellite (join name "_sat") sat t.satellites t.masters t.connections
                h.ends))
            (
              (
                Listed-here (join name "_sat") sat t.satellites,
                Listed-set_item (join name "_master") m.name node t.masters listed,
              ),
              tt,
            );
      satellites =
          set_item-IsApart (join name "_sat") t.next_id (suc (suc t.next_id)) t.satellites
            (omega arith) h.satellites;
      idle = h.idle;
    })
