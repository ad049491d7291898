-- ===== src/Topology/Teardown/Growing.antt =====
-- The builder calls of hivescope/topology.py keep the nodes that they make, if the names are new.
use Prim.Native.String.{◌++◌ as join}
use hivescope.Prelude.{
  ℕ, suc, ◌≡◌, String, Bool, true, false, not, ◌&&◌, ◌||◌, List, [], ◌∷◌, nat_eq, leb, ltb, any,
  arith, Bool-cases, inl, inr, ◌==◌, all, and_split,
}
use hivescope.Outcome.{Outcome, ok, raise}
use hivescope.Value.{Fields}
use hivescope.Dict.{Dict, values, set_item, has_key}
use hivescope.Topology.{
  master_node, relay_node, Upstream, TopologyBuilder, Add, master, satellite_of, relay_of,
  satellite_of_relay, relay_of_relay, add, add_master, add_satellite, add_relay, get_master,
  get_relay, resolve_listener, known_option,
}
use hivescope.Topology.Wiring.{OnOk}
use hivescope.Topology.Building.{OnOk-bind, kept}
use hivescope.Topology.Teardown.Releasing.{is_master, is_satellite}

-- The names that a builder call registers are not taken.
abbrev pub names_new : Add → TopologyBuilder → Bool
names_new (master name options) t = not (has_key name t.masters)
names_new (satellite_of name upstream kwargs) t = not (has_key name t.satellites)
names_new (satellite_of_relay name upstream kwargs) t = not (has_key name t.satellites)
names_new (relay_of name upstream kwargs) t =
    not (has_key (join name "_sat") t.satellites) && not (has_key (join name "_master") t.masters)
names_new (relay_of_relay name upstream kwargs) t =
    not (has_key (join name "_sat") t.satellites) && not (has_key (join name "_master") t.masters)

OnOk-any {ℓ} : {A : Type ℓ} (o : Outcome A) → OnOk (λ a. Unit {0}) o
OnOk-any (ok a) = tt
OnOk-any (raise e) = tt

any-set_item {ℓ} :
    {V : Type ℓ} (p : V → Bool) (k : String) (v : V) (d : Dict V)
    → has_key k d ≡ false
    → any p (values (set_item k v d)) ≡ (any p (values d) || p v)
unfolding any set_item has_key
any-set_item p k v [] h = ground arith
any-set_item p k v ((j, w) ∷ d) h = elim (Bool-cases (j == k)) [
  | inl e ↦ absurd (ground arith)
  | inr e ↦ rw (e, set_item) (ground (arith, any-set_item p k v d))
]

abbrev pub is_held : ℕ → TopologyBuilder → Bool
is_held i t = is_satellite i t || is_master i t

-- The builder still holds what it held, and the nodes that were made.
abbrev pub Grows : TopologyBuilder → TopologyBuilder → Type 0
Grows t u =
    (i : ℕ) → (is_held i t || (leb t.next_id i && ltb i u.next_id)) ≡ true → is_held i u ≡ true

add_master-Grows :
    (name : String) (options : List String) (t : TopologyBuilder)
    → has_key name t.masters ≡ false
    → OnOk (λ r. Grows t r.0) (add_master name options t)
unfolding add_master
add_master-Grows name options t new = elim (Bool-cases (all known_option options)) [
  | inl known ↦ rw known (λ i h. ground (
    arith,
    any-set_item (λ m. nat_eq m.id i) name (record { id = t.next_id; name = name }) t.masters new,
  ))
  | inr unknown ↦ rw unknown tt
]

add_satellite-Grows :
    (name : String) (u : Upstream) (kwargs : Fields) (t : TopologyBuilder)
    → has_key name t.satellites ≡ false
    → OnOk (λ r. Grows t r.0) (add_satellite name u kwargs t)
unfolding add_satellite
add_satellite-Grows name u kwargs t new =
    OnOk-bind (λ m. Unit {0}) (λ r. Grows t r.0) (resolve_listener u) _
      (OnOk-any (resolve_listener u))
      (λ m x i h. ground (
        arith,
        any-set_item (λ s. nat_eq s.id i) name (record { id = t.next_id; name = name }) t.satellites
            new,
      ))

add_relay-Grows :
    (name : String) (u : Upstream) (kwargs : Fields) (t : TopologyBuilder)
    → has_key (join name "_sat") t.satellites ≡ false
    → has_key (join name "_master") t.masters ≡ false
    → OnOk (λ r. Grows t r.0) (add_relay name u kwargs t)
unfolding add_relay
add_relay-Grows name u kwargs t new_sat new_master =
    OnOk-bind (λ m. Unit {0}) (λ r. Grows t r.0) (resolve_listener u) _
      (OnOk-any (resolve_listener u))
      (λ m x i h. ground (
        arith,
        any-set_item (λ s. nat_eq s.id i) (join name "_sat")
            (record { id = t.next_id; name = join name "_sat" }) t.satellites new_sat,
        any-set_item (λ m. nat_eq m.id i) (join name "_master")
            (record { id = suc t.next_id; name = join name "_master" }) t.masters new_master,
      ))

false_of_not : (b : Bool) → not b ≡ true → b ≡ false
false_of_not b h = ground arith

pub add-Grows : (a : Add) (t : TopologyBuilder) → names_new a t ≡ true → OnOk (Grows t) (add a t)
unfolding add
add-Grows (master name options) t new =
    kept (Grows t) (add_master name options t)
      (add_master-Grows name options t (false_of_not _ new))
add-Grows (satellite_of name upstream kwargs) t new =
    OnOk-bind _ (Grows t) (get_master upstream t) _ (OnOk-any (get_master upstream t)) (λ m x.
      kept (Grows t) (add_satellite name (master_node m) kwargs t)
        (add_satellite-Grows name (master_node m) kwargs t (false_of_not _ new)))
add-Grows (relay_of name upstream kwargs) t new =
    let (sat, mst) = and_split _ _ new in
    OnOk-bind _ (Grows t) (get_master upstream t) _ (OnOk-any (get_master upstream t)) (λ m x.
      kept (Grows t) (add_relay name (master_node m) kwargs t)
        (add_relay-Grows name (master_node m) kwargs t (false_of_not _ sat) (false_of_not _ mst)))
add-Grows (satellite_of_relay name upstream kwargs) t new =
    OnOk-bind _ (Grows t) (get_relay upstream t) _ (OnOk-any (get_relay upstream t)) (λ m x.
      kept (Grows t) (add_satellite name (relay_node m) kwargs t)
        (add_satellite-Grows name (relay_node m) kwargs t (false_of_not _ new)))
add-Grows (relay_of_relay name upstream kwargs) t new =
    let (sat, mst) = and_split _ _ new in
    OnOk-bind _ (Grows t) (get_relay upstream t) _ (OnOk-any (get_relay upstream t)) (λ m x.
      kept (Grows t) (add_relay name (relay_node m) kwargs t)
        (add_relay-Grows name (relay_node m) kwargs t (false_of_not _ sat) (false_of_not _ mst)))
