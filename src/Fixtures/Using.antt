-- ===== src/Fixtures/Using.antt =====
-- The fixtures of hivescope/pytest_fixtures.py in any selection and order.
use hivescope.Prelude.{
  ℕ, ◌≡◌, refl, sym, ◌∙◌, false, none, some, List, [], ◌∷◌, ◌++◌, ◌==◌, All, map, all, append-nil,
  append_assoc,
}
use hivescope.Outcome.{Outcome, ok}
use hivescope.Value.{Fields}
use hivescope.Dict.{lookup, set_item}
use hivescope.Dict.Laws.{lookup-set_item}
use hivescope.Topology.{
  Master, Entry, TopologyBuilder, init, add_master, Handshake, completes, connect_all,
}
use hivescope.Topology.Wiring.{IsWired, OnOk, init-IsWired, add_master-IsWired}
use hivescope.Topology.Starting.{Connects, start_all-run}
use hivescope.Fixtures.{Use, master_fixture, satellite_fixture, satellite_fixtures, fixtures}
use hivescope.Fixtures.Growing.{IsUp, Fresh, entry, grown, linked, grows, again, grown-IsUp}

-- No two have one name.
abbrev pub Apart : List Use → Type 0
Apart [] = Unit
Apart (u ∷ us) = All (λ v. (u.0 == v.0) ≡ false) us × Apart us

abbrev pub uses : Master → List Use → List Entry
uses m = map (λ u. record { satellite_name = u.0; master_name = m.name; connect_kwargs = u.1 })

abbrev pub M0 : Master
M0 = record { id = 0; name = "M0" }

abbrev first : TopologyBuilder
first = record {
  masters = ("M0", M0) ∷ [];
  satellites = [];
  relays = [];
  connections = [];
  next_id = 1;
  links = λ i. none;
}

first_added : add_master "M0" [] init ≡ ok (first, M0)
unfolding add_master init all set_item
first_added = refl

first-IsUp : IsUp first
first-IsUp =
    let wired : OnOk {A = TopologyBuilder × Master} (λ r. IsWired r.0) (ok (first, M0)) =
      rw first_added at (add_master-IsWired "M0" [] init init-IsWired) in
    record { wired = wired; connected = tt; unlinked = λ i above. refl }

module _ (run : ℕ → Outcome (Unit {0})) (handshake : ℕ → ℕ → Fields → Handshake)
    (runs : (i : ℕ) → run i ≡ ok tt)
    (completed : (s i : ℕ) (kw : Fields) → handshake s i kw ≡ completes) where
  master_ready : master_fixture run handshake ≡ ok (first, M0)
  unfolding master_fixture connect_all
  master_ready = rw (first_added, start_all-run run handshake runs first first.links refl) refl

  abbrev next : Use → Master → TopologyBuilder → TopologyBuilder
  next u m t = record (grown u.0 u.1 m t) { links = linked u.0 u.1 m t }

  satellite_ready :
      (u : Use) (m : Master) (t : TopologyBuilder)
      → IsUp t
      → Fresh u.0 t
      → lookup m.name t.masters ≡ some m
      → satellite_fixture run handshake u m t ≡ ok (next u m t)
  unfolding satellite_fixture
  satellite_ready (name, kwargs) m t up fresh registered =
      rw
        (
          grows name kwargs m t,
          again name kwargs m t run handshake runs completed up fresh registered,
        )
        refl

  -- The names to come are still free.
  free_after :
      (u : Use) (m : Master) (t : TopologyBuilder) (us : List Use)
      → All (λ v. (u.0 == v.0) ≡ false) us
      → All (λ v. Fresh v.0 t) us
      → All (λ v. Fresh v.0 (next u m t)) us
  free_after u m t [] d h = tt
  free_after u m t (v ∷ us) d h = (
    lookup-set_item u.0 v.0 (record { id = t.next_id; name = u.0 }) t.satellites ∙ rw d.0 h.0,
    free_after u m t us d.1 h.1,
  )

  all_ready :
      (us : List Use) (m : Master) (t : TopologyBuilder)
      → Apart us
      → All (λ v. Fresh v.0 t) us
      → IsUp t
      → lookup m.name t.masters ≡ some m
      → (b : TopologyBuilder) × (satellite_fixtures run handshake us m t ≡ ok b)
        × IsUp b
        × (b.connections ≡ t.connections ++ uses m us)
  unfolding satellite_fixtures
  all_ready [] m t d fresh up registered = (t, refl, up, sym (append-nil t.connections))
  all_ready (u ∷ us) m t d fresh up registered =
      let (b, done, up', all) =
        all_ready us m (next u m t) d.1 (free_after u m t us d.0 fresh.1)
          (grown-IsUp u.0 u.1 m t run handshake runs completed up fresh.0 registered) registered in
      (
        b,
        rw (satellite_ready u m t up fresh.0 registered) done,
        up',
        all ∙ append_assoc t.connections (entry u.0 u.1 m t ∷ []) (uses m us),
      )

  none_taken : (us : List Use) → All (λ v. Fresh v.0 first) us
  unfolding lookup
  none_taken [] = tt
  none_taken (u ∷ us) = (refl, none_taken us)

  -- If no network protocol refuses to run and every handshake completes, then satellite fixtures of different
  -- names, in any selection and order, are all set up on the one builder, although each calls `start_all`
  -- again: the connections are theirs, in that order, under M0, and each of them is up.
  pub fixtures-IsUp :
      (us : List Use)
      → Apart us
      → (b : TopologyBuilder) × (fixtures run handshake us ≡ ok b)
        × (b.connections ≡ uses M0 us)
        × All (Connects b b.links) b.connections
  unfolding fixtures lookup
  fixtures-IsUp us d =
      let (b, done, up, all) = all_ready us M0 first d (none_taken us) first-IsUp refl in
      (b, rw master_ready done, all, up.connected)
