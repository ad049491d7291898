-- ===== src/Topology/Teardown/Releasing.antt =====
-- What `stop_all` of hivescope/topology.py leaves.
use hivescope.Prelude.{
  ℕ, ◌≡◌, refl, ◌∙◌, ap, Bool, not, ◌&&◌, Bool-cases, inl, inr, nat_eq_iff, List, [], ◌∷◌, nat_eq,
  any, arith,
}
use hivescope.Dict.{values}
use hivescope.Topology.{Master, Satellite, TopologyBuilder, disconnect_all, stop_all}
use hivescope.Topology.Teardown.{
  Part, network, agent, listener, World, remove_dir, stop_satellite, stop_satellites, stop_part,
  stop_master, stop_masters, stop_everything,
}

abbrev pub is_master : ℕ → TopologyBuilder → Bool
is_master i t = any (λ m. nat_eq m.id i) (values t.masters)

abbrev pub is_satellite : ℕ → TopologyBuilder → Bool
is_satellite i t = any (λ s. nat_eq s.id i) (values t.satellites)

module _ (disconnects : ℕ → Bool) (releases : Part → ℕ → Bool) where
  satellites_dirs :
      (ss : List Satellite) (w : World) (i : ℕ)
      → (stop_satellites disconnects releases ss w).dirs i
        ≡ (w.dirs i && not (any (λ s. nat_eq s.id i) ss))
  unfolding stop_satellites any stop_satellite remove_dir
  satellites_dirs [] w i = ground arith
  satellites_dirs (s ∷ ss) w i =
      ground (arith, satellites_dirs ss (stop_satellite disconnects releases s w) i)

  satellites_live :
      (ss : List Satellite) (w : World) → (stop_satellites disconnects releases ss w).live ≡ w.live
  unfolding stop_satellites stop_satellite remove_dir
  satellites_live [] w = refl
  satellites_live (s ∷ ss) w = satellites_live ss (stop_satellite disconnects releases s w)

  satellites_builder :
      (ss : List Satellite) (w : World)
      → (stop_satellites disconnects releases ss w).builder
        ≡ record w.builder { links = disconnect_all disconnects ss w.builder.links }
  unfolding stop_satellites disconnect_all stop_satellite remove_dir
  satellites_builder [] w = refl
  satellites_builder (s ∷ ss) w = satellites_builder ss (stop_satellite disconnects releases s w)

  masters_dirs :
      (ms : List Master) (w : World) (i : ℕ)
      → (stop_masters disconnects releases ms w).dirs i
        ≡ (w.dirs i && not (any (λ m. nat_eq m.id i) ms))
  unfolding stop_masters any stop_master remove_dir stop_part
  masters_dirs [] w i = ground arith
  masters_dirs (m ∷ ms) w i =
      ground (arith, masters_dirs ms (stop_master disconnects releases m w) i)

  masters_builder :
      (ms : List Master) (w : World) → (stop_masters disconnects releases ms w).builder ≡ w.builder
  unfolding stop_masters stop_master remove_dir stop_part
  masters_builder [] w = refl
  masters_builder (m ∷ ms) w = masters_builder ms (stop_master disconnects releases m w)

  one_master :
      (m : Master) (w : World) (p : Part) (i : ℕ)
      → (stop_master disconnects releases m w).live p i
        ≡ (w.live p i && not (nat_eq m.id i && releases p m.id))
  unfolding stop_master stop_part remove_dir
  one_master m w network i = ground arith
  one_master m w agent i = ground arith
  one_master m w listener i = ground arith

  masters_live :
      (ms : List Master) (w : World) (p : Part) (i : ℕ)
      → (stop_masters disconnects releases ms w).live p i
        ≡ (w.live p i && not (any (λ m. nat_eq m.id i && releases p m.id) ms))
  unfolding stop_masters any
  masters_live [] w p i = ground arith
  masters_live (m ∷ ms) w p i =
      ground (arith, masters_live ms (stop_master disconnects releases m w) p i, one_master m w p i)

  abbrev is_master_released : Part → ℕ → List Master → Bool
  is_master_released p i ms = any (λ m. nat_eq m.id i && releases p m.id) ms

  released :
      (p : Part) (i : ℕ) (ms : List Master)
      → is_master_released p i ms ≡ (any (λ m. nat_eq m.id i) ms && releases p i)
  unfolding any
  released p i [] = refl
  released p i (m ∷ ms) = elim (Bool-cases (nat_eq m.id i)) [
    | inl e ↦ rw (e, (nat_eq_iff m.id i).0 e) (ground (arith, released p i ms))
    | inr e ↦ rw e (released p i ms)
  ]

  -- No failure keeps another part from its own release. After `stop_all`, whatever raises: the directories that
  -- are left are those of nodes that the builder does not hold; a part of a master is still live exactly if it
  -- was and the builder does not hold the master or the part's own call did not release it, because it raised or
  -- because it returned and left something behind; and the builder is as `stop_all` of its connections leaves it.
  pub stop_everything_lem :
      (w : World) (p : Part) (i : ℕ)
      → ((stop_everything disconnects releases w).dirs i
          ≡ (w.dirs i && (not (is_satellite i w.builder) && not (is_master i w.builder))))
        × ((stop_everything disconnects releases w).live p i
            ≡ (w.live p i && not (is_master i w.builder && releases p i)))
        × ((stop_everything disconnects releases w).builder ≡ stop_all disconnects w.builder)
  unfolding stop_everything stop_all
  stop_everything_lem w p i =
      let v = stop_satellites disconnects releases (values w.builder.satellites) w in
      let ms = values w.builder.masters in
      (
        ground (arith, masters_dirs ms v i, satellites_dirs (values w.builder.satellites) w i),
        masters_live ms v p i
            ∙ ap (λ f. f p i && not (is_master_released p i ms))
                (satellites_live (values w.builder.satellites) w)
            ∙ ap (λ b. w.live p i && not b) (released p i ms),
        masters_builder ms v ∙ satellites_builder (values w.builder.satellites) w,
      )
