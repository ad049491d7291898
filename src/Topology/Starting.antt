-- ===== src/Topology/Starting.antt =====
-- `start_all` of hivescope/topology.py: the satellite of every connection is connected to the master of
-- that name, and a second call connects nothing.
use hivescope.Prelude.{
  ℕ, ◌≡◌, refl, String, false, none, some, List, [], ◌∷◌, ◌==◌, All, nat_eq, nat_eq_iff, arith,
  eq_iff, Bool-cases, inl, inr,
}
use hivescope.Outcome.{Outcome, ok}
use hivescope.Value.{Fields}
use hivescope.Dict.{lookup, values}
use hivescope.Topology.{
  Master, Satellite, Entry, Links, TopologyBuilder, init, Add, build, Handshake, completes,
  set_link, run_all, connect_entry, connect_all, start_all,
}
use hivescope.Topology.Wiring.{HasEnds, IsApart, IsWired, OnOk}
use hivescope.Topology.Building.{build-IsWired}

-- The connections are of satellites with different names.
abbrev pub Different : List Entry → Type 0
Different [] = Unit
Different (c ∷ cs) = All (λ d. (c.satellite_name == d.satellite_name) ≡ false) cs × Different cs

-- The satellite of a connection is connected to its master.
abbrev pub Connects : TopologyBuilder → Links → Entry → Type 0
Connects t links c =
    (s : Satellite) × (m : Master) × (lookup c.satellite_name t.satellites ≡ some s)
    × (lookup c.master_name t.masters ≡ some m)
    × (links s.id ≡ some m.id)

abbrev pub Free : TopologyBuilder → Links → Entry → Type 0
Free t links c = (s : Satellite) → lookup c.satellite_name t.satellites ≡ some s → links s.id ≡ none

-- Connecting one satellite leaves those with other names free.
set_link-Free :
    (t : TopologyBuilder) (links : Links) (name : String) (s : Satellite) (m : ℕ) (cs : List Entry)
    → IsApart t.next_id t.satellites
    → lookup name t.satellites ≡ some s
    → All (λ d. (name == d.satellite_name) ≡ false) cs
    → All (Free t links) cs
    → All (Free t (set_link s.id (some m) links)) cs
set_link-Free t links name s m [] a e d h = tt
set_link-Free t links name s m (c ∷ cs) a e d h = (
  (λ u f. elim (Bool-cases (nat_eq s.id u.id)) [
    | inl q ↦
        let same : name ≡ c.satellite_name =
          a.unique name c.satellite_name s u e f ((nat_eq_iff s.id u.id).0 q) in
        absurd (ground (arith, eq_iff name c.satellite_name, d.0))
    | inr q ↦ rw q (h.0 u f)
  ]),
  set_link-Free t links name s m cs a e d.1 h.1,
)

Free-All :
    (t : TopologyBuilder) (cs : List Entry) → ((i : ℕ) → t.links i ≡ none) → All (Free t t.links) cs
Free-All t [] h = tt
Free-All t (c ∷ cs) h = ((λ s e. h s.id), Free-All t cs h)

module _ (run : ℕ → Outcome (Unit {0})) (handshake : ℕ → ℕ → Fields → Handshake)
    (runs : (m : ℕ) → run m ≡ ok tt) where
  pub run_all_ok : (ms : List Master) → run_all run handshake ms ≡ ok tt
  unfolding run_all
  run_all_ok [] = refl
  run_all_ok (m ∷ ms) = rw (runs m.id) (run_all_ok ms)

  -- A connection that is there is skipped.
  pub connect_all-skips :
      (t : TopologyBuilder) (links : Links) (cs : List Entry)
      → All (Connects t links) cs
      → connect_all run handshake t cs links ≡ (links, ok tt)
  unfolding connect_all connect_entry
  connect_all-skips t links [] h = refl
  connect_all-skips t links (c ∷ cs) ((s, m, e, f, l), h) =
      rw (e, l, connect_all, connect_entry) (connect_all-skips t links cs h)

  pub start_all-run :
      (t : TopologyBuilder) (after : Links)
      → connect_all run handshake t t.connections t.links ≡ (after, ok tt)
      → start_all run handshake t ≡ (record t { links = after }, ok tt)
  unfolding start_all
  start_all-run t after h = rw (run_all_ok (values t.masters), h) refl

module _ (run : ℕ → Outcome (Unit {0})) (handshake : ℕ → ℕ → Fields → Handshake)
    (runs : (m : ℕ) → run m ≡ ok tt)
    (completed : (s m : ℕ) (kwargs : Fields) → handshake s m kwargs ≡ completes) where
  pub connect_free :
      (t : TopologyBuilder) (links : Links) (c : Entry) (s : Satellite) (m : Master)
      → lookup c.satellite_name t.satellites ≡ some s
      → lookup c.master_name t.masters ≡ some m
      → links s.id ≡ none
      → connect_entry run handshake t c links ≡ (set_link s.id (some m.id) links, ok tt)
  unfolding connect_entry
  connect_free t links c s m e f l =
      rw (e, l, f, completed s.id m.id c.connect_kwargs, connect_entry) refl

  -- What is connected stays connected.
  abbrev pub Keeps : Links → Links → Type 0
  Keeps links after = (i m : ℕ) → links i ≡ some m → after i ≡ some m

  pub connect_all-Connects :
      (t : TopologyBuilder) (links : Links) (cs : List Entry)
      → IsApart t.next_id t.satellites
      → All (HasEnds t.satellites t.masters) cs
      → Different cs
      → All (Free t links) cs
      → (after : Links) × (connect_all run handshake t cs links ≡ (after, ok tt))
        × All (Connects t after) cs
        × Keeps links after
  unfolding connect_all
  connect_all-Connects t links [] a ends d free = (links, refl, tt, λ i m e. e)
  connect_all-Connects t links (c ∷ cs) a (((s, e), (m, f)), ends) d free =
      let empty : links s.id ≡ none = free.0 s e in
      let (after, done, all, keeps) =
        connect_all-Connects t (set_link s.id (some m.id) links) cs a ends d.1
          (set_link-Free t links c.satellite_name s m.id cs a e d.0 free.1) in
      (
        after,
        rw (connect_free t links c s m e f empty) done,
        ((s, m, e, f, keeps s.id m.id (ground (arith, nat_eq_iff s.id s.id))), all),
        λ i n l. keeps i n (ground (arith, nat_eq_iff s.id i)),
      )

  -- `again` is what the handshakes of a second start would come to.
  abbrev pub Starts : (again : ℕ → ℕ → Fields → Handshake) → TopologyBuilder → Type 0
  Starts again t =
      (after : Links) × (start_all run handshake t ≡ (record t { links = after }, ok tt))
      × All (Connects t after) t.connections
      × (start_all run again (record t { links = after }) ≡ (record t { links = after }, ok tt))

  pub IsWired-Starts :
      (again : ℕ → ℕ → Fields → Handshake) (t : TopologyBuilder)
      → IsWired t
      → Different t.connections
      → Starts again t
  IsWired-Starts again t wired d =
      let (after, done, all, keeps) =
        connect_all-Connects t t.links t.connections wired.satellites wired.ends d
          (Free-All t t.connections wired.idle) in
      (
        after,
        start_all-run run handshake runs t after done,
        all,
        start_all-run run again runs (record t { links = after }) after
            (connect_all-skips run again runs (record t { links = after }) after t.connections all),
      )

  -- If no network protocol refuses to run and every handshake completes, then `start_all`, on what a series
  -- of builder calls left, with connections of satellites of different names, returns with the satellite of each
  -- connection linked to the master that the builder holds under the connection's master name. A second
  -- `start_all` then returns and leaves everything as it is, even where every handshake would be refused: it
  -- connects nobody again.
  pub start_all-Connects :
      (again : ℕ → ℕ → Fields → Handshake) (adds : List Add) (t : TopologyBuilder)
      → build adds init ≡ ok t
      → Different t.connections
      → (after : Links) × (start_all run handshake t ≡ (record t { links = after }, ok tt))
        × All (Connects t after) t.connections
        × (start_all run again (record t { links = after }) ≡ (record t { links = after }, ok tt))
  start_all-Connects again adds t built d =
      let wired : OnOk IsWired (ok t) = rw built at (build-IsWired adds) in
      IsWired-Starts again t wired d
