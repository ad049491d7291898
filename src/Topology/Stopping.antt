-- ===== src/Topology/Stopping.antt =====
-- `stop_all` of hivescope/topology.py: nobody stays connected, and the topology can be started again.
use hivescope.Prelude.{
  ℕ, ◌≡◌, String, Bool, true, none, some, List, [], ◌∷◌, ◌==◌, All, nat_eq_iff, arith, Bool-cases,
  inl, inr,
}
use hivescope.Outcome.{Outcome, ok}
use hivescope.Value.{Fields}
use hivescope.Dict.{Dict, lookup, values}
use hivescope.Topology.{
  Satellite, Entry, Links, TopologyBuilder, init, Add, build, Handshake, completes, start_all,
  connect_all, disconnect_all, stop_all,
}
use hivescope.Topology.Wiring.{IsWired, OnOk}
use hivescope.Topology.Building.{build-IsWired}
use hivescope.Topology.Starting.{Different, Connects, Free, connect_all-Connects, start_all-run}

All-values {ℓ κ} :
    {V : Type ℓ} (P : V → Type κ) (k : String) (v : V) (d : Dict V)
    → lookup k d ≡ some v
    → All P (values d)
    → P v
unfolding lookup
All-values P k v [] e h = absurd (cc)
All-values P k v ((j, w) ∷ d) e h = elim (Bool-cases (j == k)) [
  | inl q ↦ let same : w ≡ v = ground arith in rw (← same) h.0
  | inr q ↦ All-values P k v d (ground arith) h.1
]

module _ (disconnects : ℕ → Bool) where
  stays_none :
      (i : ℕ) (ss : List Satellite) (links : Links)
      → links i ≡ none
      → disconnect_all disconnects ss links i ≡ none
  unfolding disconnect_all
  stays_none i [] links h = h
  stays_none i (s ∷ ss) links h = stays_none i ss _ (ground arith)

  module _ (returns : (i : ℕ) → disconnects i ≡ true) where
    disconnect_all-none :
        (ss : List Satellite) (links : Links)
        → All (λ s. disconnect_all disconnects ss links s.id ≡ none) ss
    unfolding disconnect_all
    disconnect_all-none [] links = tt
    disconnect_all-none (s ∷ ss) links = (
      stays_none s.id ss _ (ground (arith, returns s.id, nat_eq_iff s.id s.id)),
      disconnect_all-none ss _,
    )

    disconnect_all-Free :
        (t : TopologyBuilder) (cs : List Entry)
        → All (Free t (disconnect_all disconnects (values t.satellites) t.links)) cs
    disconnect_all-Free t [] = tt
    disconnect_all-Free t (c ∷ cs) = (
      (λ s e.
          All-values (λ u. disconnect_all disconnects (values t.satellites) t.links u.id ≡ none)
            c.satellite_name s t.satellites e (disconnect_all-none (values t.satellites) t.links)),
      disconnect_all-Free t cs,
    )

    -- A topology that a series of builder calls left, with connections of satellites of different names, starts again
    -- after `stop_all`, whatever was connected before it: if every `disconnect` returns, no network
    -- protocol refuses to run and every handshake completes, `start_all` returns with the satellite of
    -- each connection linked to the master that the builder holds under the connection's master name.
    pub restart-Connects :
        (run : ℕ → Outcome (Unit {0})) (handshake : ℕ → ℕ → Fields → Handshake)
        → ((m : ℕ) → run m ≡ ok tt)
        → ((s m : ℕ) (kwargs : Fields) → handshake s m kwargs ≡ completes)
        → (adds : List Add) (t : TopologyBuilder) (links : Links) → build adds init ≡ ok t
        → Different t.connections
        → (after : Links) × (start_all run handshake
              (stop_all disconnects (record t { links = links }))
            ≡ (record t { links = after }, ok tt))
          × All (Connects t after) t.connections
    unfolding stop_all connect_all
    restart-Connects run handshake runs completed adds t links built d =
        let wired : OnOk IsWired (ok t) = rw built at (build-IsWired adds) in
        let linked : TopologyBuilder = record t { links = links } in
        let (after, done, all, keeps) =
          connect_all-Connects run handshake runs completed t
            (disconnect_all disconnects (values t.satellites) links) t.connections wired.satellites
            wired.ends d (disconnect_all-Free linked t.connections) in
        (after, start_all-run run handshake runs (stop_all disconnects linked) after done, all)
