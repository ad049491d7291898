-- ===== src/Fixtures/Growing.antt =====
-- A topology that has been started can be given another satellite and started again.
use hivescope.Prelude.{
  ℕ, suc, ◌≤◌, ◌<◌, ◌≡◌, refl, sym, ap, ◌∙◌, String, false, none, some, List, [], ◌∷◌, ◌++◌, ◌==◌,
  All, All-append, nat_eq, nat_eq_iff, arith, eq_iff, eq_refl, Bool-cases, inl, inr,
}
use hivescope.Outcome.{Outcome, ok}
use hivescope.Value.{Fields}
use hivescope.Dict.{lookup, set_item}
use hivescope.Dict.Laws.{lookup-set_item}
use hivescope.Topology.{
  Master, Satellite, Entry, Links, master_node, TopologyBuilder, add_satellite, resolve_listener,
  Handshake, completes, set_link, go_on, connect_entry, connect_all, start_all,
}
use hivescope.Topology.Wiring.{IsWired, add_satellite-IsWired}
use hivescope.Topology.Starting.{Connects, start_all-run, connect_free}

-- The wiring is right, every connection is up, and no number to come is linked.
pub record IsUp (t : TopologyBuilder) : Type 0 where
  pub wired : IsWired (record t { links = λ i. none })
  pub connected : All (Connects t t.links) t.connections
  pub unlinked : (i : ℕ) → t.next_id ≤ i → t.links i ≡ none

-- No satellite has the name.
abbrev pub Fresh : String → TopologyBuilder → Type 0
Fresh name t = lookup name t.satellites ≡ none

module _ (name : String) (kwargs : Fields) (m : Master) (t : TopologyBuilder) where
  abbrev sat : Satellite
  sat = record { id = t.next_id; name = name }

  abbrev pub entry : Entry
  entry = record { satellite_name = name; master_name = m.name; connect_kwargs = kwargs }

  abbrev pub grown : TopologyBuilder
  grown = record t {
    satellites = set_item name sat t.satellites;
    connections = t.connections ++ entry ∷ [];
    next_id = suc t.next_id;
  }

  abbrev pub linked : Links
  linked = set_link t.next_id (some m.id) t.links

  pub grows : add_satellite name (master_node m) kwargs t ≡ ok (grown, sat)
  unfolding add_satellite resolve_listener
  grows = refl

  -- What was connected stays connected, by the names and by the links.
  still :
      (links : Links) (cs : List Entry)
      → IsUp t
      → Fresh name t
      → ((i k : ℕ) → i < t.next_id → t.links i ≡ some k → links i ≡ some k)
      → All (Connects t t.links) cs
      → All (Connects grown links) cs
  still links [] up fresh keeps h = tt
  still links (c ∷ cs) up fresh keeps ((s, n, e, f, l), h) = (
    (
      s,
      n,
      lookup-set_item name c.satellite_name sat t.satellites ∙ rw other e,
      f,
      keeps s.id n.id (up.wired.satellites.older c.satellite_name s e) l,
    ),
    still links cs up fresh keeps h,
  )
    where
      other : (name == c.satellite_name) ≡ false
      other = elim (Bool-cases (name == c.satellite_name)) [
        | inr q ↦ q
        | inl q ↦
            let same : name ≡ c.satellite_name = (eq_iff name c.satellite_name).0 q in
            absurd (
              let clash : none ≡ some s = sym fresh ∙ ap (λ k. lookup k t.satellites) same ∙ e in
              cc)
      ]

  module _ (run : ℕ → Outcome (Unit {0})) (handshake : ℕ → ℕ → Fields → Handshake)
      (runs : (i : ℕ) → run i ≡ ok tt)
      (completed : (s i : ℕ) (kw : Fields) → handshake s i kw ≡ completes) where
    skipped :
        (links : Links) (c : Entry)
        → Connects grown links c
        → connect_entry run handshake grown c links ≡ (links, ok tt)
    unfolding connect_entry
    skipped links c (s, n, e, f, l) = rw (e, l, connect_entry) refl

    connect_all-snoc :
        (links : Links) (cs : List Entry) (c : Entry)
        → All (Connects grown links) cs
        → connect_all run handshake grown (cs ++ c ∷ []) links
          ≡ connect_all run handshake grown (c ∷ []) links
    unfolding connect_all
    connect_all-snoc links [] c h = refl
    connect_all-snoc links (d ∷ cs) c (h, hs) =
        ap (λ r. go_on run handshake r (λ l. connect_all run handshake grown (cs ++ c ∷ []) l))
          (skipped links d h)
        ∙ connect_all-snoc links cs c hs

    connect_last :
        IsUp t
        → lookup m.name t.masters ≡ some m
        → connect_all run handshake grown (entry ∷ []) t.links ≡ (linked, ok tt)
    unfolding connect_all
    connect_last up registered =
        ap (λ r. go_on run handshake r (λ l. connect_all run handshake grown [] l))
          (connect_free run handshake runs completed grown t.links entry sat m
            (lookup-set_item name name sat t.satellites ∙ rw (eq_refl name) refl) registered
            (up.unlinked t.next_id (omega arith)))

    pub again :
        IsUp t
        → Fresh name t
        → lookup m.name t.masters ≡ some m
        → start_all run handshake grown ≡ (record grown { links = linked }, ok tt)
    again up fresh registered = start_all-run run handshake runs grown linked (
        connect_all-snoc t.links t.connections entry
          (still t.links t.connections up fresh (λ i k lt e. e) up.connected)
        ∙ connect_last up registered)

    IsWired-again :
        IsUp t → lookup m.name t.masters ≡ some m → IsWired (record grown { links = λ i. none })
    unfolding add_satellite resolve_listener
    IsWired-again up registered =
        add_satellite-IsWired name (master_node m) kwargs (record t { links = λ i. none })
          (m, refl, (m, registered)) up.wired

    pub grown-IsUp :
        IsUp t
        → Fresh name t
        → lookup m.name t.masters ≡ some m
        → IsUp (record grown { links = linked })
    grown-IsUp up fresh registered = record {
      wired = IsWired-again up registered;
      connected =
          All-append (Connects grown linked) t.connections (entry ∷ [])
            (still linked t.connections up fresh
              (λ i k lt e. ground (arith, nat_eq_iff t.next_id i)) up.connected)
            (
              (
                sat,
                m,
                lookup-set_item name name sat t.satellites ∙ rw (eq_refl name) refl,
                registered,
                ground (arith, nat_eq_iff t.next_id t.next_id),
              ),
              tt,
            );
      unlinked = λ i above.
          let no : nat_eq t.next_id i ≡ false = ground (arith, nat_eq_iff t.next_id i) in
          rw no (up.unlinked i (omega arith));
    }
