-- ===== src/Plot/Closing.antt =====
-- The discovery graph of hivescope/topology_plot.py has the ends of its edges, and the labels of its peers.
use hivescope.Prelude.{
  ◌≡◌, refl, sym, ap, ◌∙◌, String, Bool, true, false, Option, none, some, List, [], ◌∷◌, ◌==◌, All,
  All-append, if◌then◌else◌, Bool-cases, inl, inr, eq_refl, eq_iff,
}
use hivescope.Dict.{Dict, lookup, set_item, has_key}
use hivescope.Dict.Laws.{lookup-set_item}
use hivescope.Plot.Discovery.{
  NodeInfo, Graph, add_peers, ensure, add_target, add_targets, add_routes, mapper_graph,
}

abbrev is_some {ℓ} : {A : Type ℓ} → Option A → Bool
is_some none = false
is_some (some a) = true

module _ {V : Type 0} where
  has_key_lem : (k : String) (d : Dict V) → has_key k d ≡ is_some (lookup k d)
  unfolding has_key lookup
  has_key_lem k [] = refl
  has_key_lem k ((j, v) ∷ d) = elim (Bool-cases (j == k)) [
    | inl e ↦ rw e refl
    | inr e ↦ rw e (has_key_lem k d)
  ]

  has_key-set_item :
      (k j : String) (v : V) (d : Dict V)
      → has_key j (set_item k v d) ≡ is_some (if k == j then some v else lookup j d)
  has_key-set_item k j v d = has_key_lem j (set_item k v d) ∙ ap is_some (lookup-set_item k j v d)

  set_item-here : (k : String) (v : V) (d : Dict V) → has_key k (set_item k v d) ≡ true
  set_item-here k v d = has_key-set_item k k v d ∙ rw (eq_refl k) refl

  set_item-keeps :
      (k j : String) (v : V) (d : Dict V) → has_key j d ≡ true → has_key j (set_item k v d) ≡ true
  set_item-keeps k j v d h = elim (Bool-cases (k == j)) [
    | inl e ↦ has_key-set_item k j v d ∙ rw e refl
    | inr e ↦ has_key-set_item k j v d ∙ rw e (sym (has_key_lem j d) ∙ h)
  ]

abbrev Labels : Type 0
Labels = Dict (Option String)

ensure-here : (n : String) (l : Option String) (d : Labels) → has_key n (ensure n l d) ≡ true
ensure-here n l d = elim (Bool-cases (has_key n d)) [
  | inl e ↦ rw e e
  | inr e ↦ rw e (set_item-here n l d)
]

-- A node that is there stays, with its label.
ensure-keeps :
    (n j : String) (l : Option String) (d : Labels)
    → has_key j d ≡ true
    → (has_key j (ensure n l d) ≡ true) × (lookup j (ensure n l d) ≡ lookup j d)
ensure-keeps n j l d h = elim (Bool-cases (has_key n d)) [
  | inl e ↦ rw e (h, refl)
  | inr e ↦ elim (Bool-cases (n == j)) [
    | inl q ↦
        let same : n ≡ j = (eq_iff n j).0 q in
        absurd (let bad : has_key j d ≡ false = rw same at e in cc)
    | inr q ↦ rw e (set_item-keeps n j l d h, lookup-set_item n j l d ∙ rw q refl)
  ]
]

-- Both ends of every edge are nodes.
abbrev pub Closed : Graph → Type 0
Closed g = All (λ e. (has_key e.0 g.nodes ≡ true) × (has_key e.1 g.nodes ≡ true)) g.edges

-- The nodes of the one graph are in the other, with their labels.
abbrev pub Extends : Labels → Labels → Type 0
Extends d e = (j : String) → has_key j d ≡ true → (has_key j e ≡ true) × (lookup j e ≡ lookup j d)

Closed-Extends :
    (d e : Labels) (edges : List (String × String))
    → Extends d e
    → All (λ x. (has_key x.0 d ≡ true) × (has_key x.1 d ≡ true)) edges
    → All (λ x. (has_key x.0 e ≡ true) × (has_key x.1 e ≡ true)) edges
Closed-Extends d e [] h c = tt
Closed-Extends d e (x ∷ edges) h c =
    (((h x.0 c.0.0).0, (h x.1 c.0.1).0), Closed-Extends d e edges h c.1)

Extends-trans : (d e f : Labels) → Extends d e → Extends e f → Extends d f
Extends-trans d e f h k j m =
    let (here, same) = h j m in let (there, again) = k j here in (there, again ∙ same)

add_target-Closed :
    (src tgt : String) (g : Graph)
    → Closed g
    → Closed (add_target src tgt g) × Extends g.nodes (add_target src tgt g).nodes
add_target-Closed src tgt g c =
    let mid = ensure tgt (some tgt) g.nodes in
    let last = ensure src none mid in
    let grows : Extends g.nodes last =
      Extends-trans g.nodes mid last (λ j m. ensure-keeps tgt j (some tgt) g.nodes m)
        (λ j m. ensure-keeps src j none mid m) in
    (
      All-append (λ x. (has_key x.0 last ≡ true) × (has_key x.1 last ≡ true)) g.edges
          ((src, tgt) ∷ []) (Closed-Extends g.nodes last g.edges grows c)
          (
            (
              ensure-here src none mid,
              (ensure-keeps src tgt none mid (ensure-here tgt (some tgt) g.nodes)).0,
            ),
            tt,
          ),
      grows,
    )

add_targets-Closed :
    (src : String) (targets : List String) (g : Graph)
    → Closed g
    → Closed (add_targets src targets g) × Extends g.nodes (add_targets src targets g).nodes
unfolding add_targets
add_targets-Closed src [] g c = (c, λ j m. (m, refl))
add_targets-Closed src (tgt ∷ targets) g c =
    let (now, grows) = add_target-Closed src tgt g c in
    let (later, more) = add_targets-Closed src targets (add_target src tgt g) now in
    (later, Extends-trans g.nodes (add_target src tgt g).nodes _ grows more)

add_routes-Closed :
    (routes : Dict (List String)) (g : Graph)
    → Closed g
    → Closed (add_routes routes g) × Extends g.nodes (add_routes routes g).nodes
unfolding add_routes
add_routes-Closed [] g c = (c, λ j m. (m, refl))
add_routes-Closed ((src, targets) ∷ routes) g c =
    let (now, grows) = add_targets-Closed src targets g c in
    let (later, more) = add_routes-Closed routes (add_targets src targets g) now in
    (later, Extends-trans g.nodes (add_targets src targets g).nodes _ grows more)

-- In the discovery graph both ends of every edge are nodes, known or not; and every peer that answered is a
-- node with its own label, whatever routes name it.
pub mapper_graph-Closed :
    (root : Option String) (peers : Dict NodeInfo) (routes : Dict (List String))
    → Closed (mapper_graph root peers routes)
      × Extends (add_peers root peers []) (mapper_graph root peers routes).nodes
unfolding mapper_graph
mapper_graph-Closed root peers routes =
    add_routes-Closed routes (record { nodes = add_peers root peers []; edges = [] }) tt
