-- ===== src/Plot/Graphs.antt =====
-- The static graph of hivescope/topology_plot.py has the nodes and the edges of the topology.
use hivescope.Prelude.{
  ◌≡◌, ◌⊎◌, inl, inr, refl, ◌∙◌, String, true, false, ◌&&◌, List, [], ◌∷◌, ◌++◌, ◌==◌, All,
  All-append, any, any-append, eq_iff, eq_refl, Bool-cases,
}
use hivescope.Outcome.{ok}
use hivescope.Dict.{keys}
use hivescope.Topology.{TopologyBuilder, Entry, init, Add, build}
use hivescope.Topology.Wiring.{IsWired, OnOk}
use hivescope.Topology.Building.{build-IsWired}
use hivescope.Plot.{member, canonical, add_nodes, seen, add_edge, add_edges, nodes, builder_edges}
use hivescope.Plot.Members.{
  or_keeps, or_right, insert-here, insert-keeps, member-left, member-right, ends_are_keys,
}

module _ (master_names sat_names registry : List String) where
  add_nodes-keeps :
      (names ns : List String) (x : String)
      → member x ns ≡ true
      → member x (add_nodes master_names sat_names registry names ns) ≡ true
  unfolding add_nodes
  add_nodes-keeps [] ns x h = h
  add_nodes-keeps (n ∷ names) ns x h =
      add_nodes-keeps names _ x (insert-keeps x (canonical master_names sat_names registry n) ns h)

  -- The canonical name of every node is drawn.
  add_nodes-has :
      (names ns : List String) (x : String)
      → member x names ≡ true
      → member
          (canonical master_names sat_names registry x)
          (add_nodes master_names sat_names registry names ns)
        ≡ true
  unfolding add_nodes member any
  add_nodes-has [] ns x h = absurd (cc)
  add_nodes-has (n ∷ names) ns x h = elim (Bool-cases (x == n)) [
    | inl e ↦
        let same : x ≡ n = (eq_iff x n).0 e in
        rw same (
          add_nodes-keeps names _ (canonical master_names sat_names registry n)
            (insert-here (canonical master_names sat_names registry n) ns))
    | inr e ↦ add_nodes-has names _ x (rw e at h)
  ]

  abbrev canon : String → String
  canon = canonical master_names sat_names registry

  abbrev drawn : List String
  drawn = nodes master_names sat_names registry

  -- An edge between two different nodes of the graph.
  abbrev pub Joins : String × String → Type 0
  Joins e = (member e.0 drawn ≡ true) × (member e.1 drawn ≡ true) × ((e.0 == e.1) ≡ false)

  -- A connection has its edge, or both its ends are one node.
  abbrev pub IsDrawn : List (String × String) → Entry → Type 0
  IsDrawn edges c =
      ((canon c.master_name == canon c.satellite_name) ≡ true)
      ⊎ (seen master_names sat_names registry (canon c.master_name) (canon c.satellite_name) edges
          ≡ true)

  seen-snoc :
      (src dst : String) (edges : List (String × String))
      → seen master_names sat_names registry src dst (edges ++ (src, dst) ∷ []) ≡ true
  unfolding seen any
  seen-snoc src dst edges =
      any-append {A = String × String} (λ e. src == e.0 && dst == e.1) edges ((src, dst) ∷ [])
      ∙ or_right (any {A = String × String} (λ e. src == e.0 && dst == e.1) edges)
          (any {A = String × String} (λ e. src == e.0 && dst == e.1) ((src, dst) ∷ []))
          (rw (eq_refl src, eq_refl dst) refl)

  seen-keeps :
      (s d : String) (edges : List (String × String)) (e : String × String)
      → seen master_names sat_names registry s d edges ≡ true
      → seen master_names sat_names registry s d (edges ++ e ∷ []) ≡ true
  unfolding seen any
  seen-keeps s d edges e h =
      any-append {A = String × String} (λ f. s == f.0 && d == f.1) edges (e ∷ []) ∙ or_keeps _ _ h

  abbrev grown : String → String → List (String × String) → List (String × String)
  grown = add_edge master_names sat_names registry

  grown-Joins :
      (s d : String) (edges : List (String × String))
      → member s drawn ≡ true
      → member d drawn ≡ true
      → All Joins edges
      → All Joins (grown s d edges)
  grown-Joins s d edges hs hd h = elim (Bool-cases (s == d)) [
    | inl e ↦ rw e h
    | inr e ↦ elim (Bool-cases (seen master_names sat_names registry s d edges)) [
      | inl f ↦ rw (e, f) h
      | inr f ↦ rw (e, f) (All-append Joins edges ((s, d) ∷ []) h ((hs, hd, e), tt))
    ]
  ]

  grown_keeps :
      (s d x y : String) (edges : List (String × String))
      → seen master_names sat_names registry x y edges ≡ true
      → seen master_names sat_names registry x y (grown s d edges) ≡ true
  grown_keeps s d x y edges h = elim (Bool-cases (s == d)) [
    | inl e ↦ rw e h
    | inr e ↦ elim (Bool-cases (seen master_names sat_names registry s d edges)) [
      | inl f ↦ rw (e, f) h
      | inr f ↦ rw (e, f) (seen-keeps x y edges (s, d) h)
    ]
  ]

  grown_has :
      (s d : String) (edges : List (String × String))
      → ((s == d) ≡ true) ⊎ (seen master_names sat_names registry s d (grown s d edges) ≡ true)
  grown_has s d edges = elim (Bool-cases (s == d)) [
    | inl e ↦ inl e
    | inr e ↦ elim (Bool-cases (seen master_names sat_names registry s d edges)) [
      | inl f ↦ inr (rw (e, f) f)
      | inr f ↦ inr (rw (e, f) (seen-snoc s d edges))
    ]
  ]

  abbrev all_edges : List Entry → List (String × String) → List (String × String)
  all_edges = add_edges master_names sat_names registry

  all_edges-Joins :
      (cs : List Entry) (edges : List (String × String))
      → All
          (λ c.
            (member c.satellite_name sat_names ≡ true) × (member c.master_name master_names ≡ true))
          cs
      → All Joins edges
      → All Joins (all_edges cs edges)
  unfolding add_edges
  all_edges-Joins [] edges ends h = h
  all_edges-Joins (c ∷ cs) edges ((sat, mas), ends) h = all_edges-Joins cs _ ends (
      grown-Joins (canon c.master_name) (canon c.satellite_name) edges
        (add_nodes-has (master_names ++ sat_names) [] c.master_name
          (member-left c.master_name master_names sat_names mas))
        (add_nodes-has (master_names ++ sat_names) [] c.satellite_name
          (member-right c.satellite_name master_names sat_names sat))
        h)

  all_edges_keep :
      (cs : List Entry) (edges : List (String × String)) (x y : String)
      → seen master_names sat_names registry x y edges ≡ true
      → seen master_names sat_names registry x y (all_edges cs edges) ≡ true
  unfolding add_edges
  all_edges_keep [] edges x y h = h
  all_edges_keep (c ∷ cs) edges x y h =
      all_edges_keep cs _ x y
        (grown_keeps (canon c.master_name) (canon c.satellite_name) x y edges h)

  all_edges-IsDrawn :
      (cs : List Entry) (edges : List (String × String)) → All (IsDrawn (all_edges cs edges)) cs
  unfolding add_edges
  all_edges-IsDrawn [] edges = tt
  all_edges-IsDrawn (c ∷ cs) edges = (
    elim (grown_has (canon c.master_name) (canon c.satellite_name) edges) [
      | inl e ↦ inl e
      | inr e ↦ inr (all_edges_keep cs _ (canon c.master_name) (canon c.satellite_name) e)
    ],
    all_edges-IsDrawn cs _,
  )

-- The plot of what a series of builder calls left: each edge joins two different nodes of the graph, and each
-- connection is drawn, unless its two ends are one node.
pub build-IsDrawn :
    (adds : List Add) (t : TopologyBuilder)
    → build adds init ≡ ok t
    → All (Joins (keys t.masters) (keys t.satellites) (keys t.relays)) (builder_edges t)
      × All
          (IsDrawn (keys t.masters) (keys t.satellites) (keys t.relays) (builder_edges t))
          t.connections
build-IsDrawn adds t built =
    let wired : OnOk IsWired (ok t) = rw built at (build-IsWired adds) in
    (
      all_edges-Joins (keys t.masters) (keys t.satellites) (keys t.relays) t.connections []
          (ends_are_keys t.satellites t.masters t.connections wired.ends) tt,
      all_edges-IsDrawn (keys t.masters) (keys t.satellites) (keys t.relays) t.connections [],
    )
