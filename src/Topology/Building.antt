-- ===== src/Topology/Building.antt =====
-- Series of builder calls of hivescope/topology.py.
use hivescope.Prelude.{refl, String, List, [], ◌∷◌, Option-cases, inl, inr}
use hivescope.Outcome.{Outcome, ok, raise, ◌>>=◌}
use hivescope.Dict.{lookup}
use hivescope.Topology.{
  master_node, relay_node, TopologyBuilder, init, add_master, add_satellite, add_relay, get_master,
  get_relay, resolve_listener, Add, master, satellite_of, relay_of, satellite_of_relay,
  relay_of_relay, add, build,
}
use hivescope.Topology.Wiring.{
  IsWired, OnOk, Known, init-IsWired, add_master-IsWired, add_satellite-IsWired, add_relay-IsWired,
}

get_master-Known :
    (name : String) (t : TopologyBuilder)
    → IsWired t
    → OnOk (λ m. Known (master_node m) t) (get_master name t)
unfolding get_master resolve_listener
get_master-Known name t h = elim (Option-cases (lookup name t.masters)) [
  | inl e ↦ rw e tt
  | inr (m, e) ↦ rw e (m, refl, rw (h.keyed name m e) (m, e))
]

get_relay-Known :
    (name : String) (t : TopologyBuilder)
    → IsWired t
    → OnOk (λ r. Known (relay_node r) t) (get_relay name t)
unfolding get_relay resolve_listener
get_relay-Known name t h = elim (Option-cases (lookup name t.relays)) [
  | inl e ↦ rw e tt
  | inr (r, e) ↦ rw e (r.listener, refl, h.listeners name r e)
]

pub OnOk-bind {ℓ κ μ ν} :
    {A : Type ℓ} {B : Type κ} (P : A → Type μ) (Q : B → Type ν) (o : Outcome A) (f : A → Outcome B)
    → OnOk P o
    → ((a : A) → P a → OnOk Q (f a))
    → OnOk Q (o >>= f)
OnOk-bind P Q (ok a) f h k = k a h
OnOk-bind P Q (raise e) f h k = tt

-- A call that returns the builder and a node, of which the builder is kept.
pub kept {ℓ κ} :
    {A : Type ℓ} (Q : TopologyBuilder → Type κ) (o : Outcome (TopologyBuilder × A))
    → OnOk (λ r. Q r.0) o
    → OnOk Q (o >>= λ r. ok r.0)
kept Q (ok r) h = h
kept Q (raise e) h = tt

add-IsWired : (a : Add) (t : TopologyBuilder) → IsWired t → OnOk IsWired (add a t)
unfolding add
add-IsWired (master name options) t h =
    kept IsWired (add_master name options t) (add_master-IsWired name options t h)
add-IsWired (satellite_of name upstream kwargs) t h =
    OnOk-bind _ IsWired (get_master upstream t) _ (get_master-Known upstream t h) (λ m known.
      kept IsWired (add_satellite name (master_node m) kwargs t)
        (add_satellite-IsWired name (master_node m) kwargs t known h))
add-IsWired (relay_of name upstream kwargs) t h =
    OnOk-bind _ IsWired (get_master upstream t) _ (get_master-Known upstream t h) (λ m known.
      kept IsWired (add_relay name (master_node m) kwargs t)
        (add_relay-IsWired name (master_node m) kwargs t known h))
add-IsWired (satellite_of_relay name upstream kwargs) t h =
    OnOk-bind _ IsWired (get_relay upstream t) _ (get_relay-Known upstream t h) (λ m known.
      kept IsWired (add_satellite name (relay_node m) kwargs t)
        (add_satellite-IsWired name (relay_node m) kwargs t known h))
add-IsWired (relay_of_relay name upstream kwargs) t h =
    OnOk-bind _ IsWired (get_relay upstream t) _ (get_relay-Known upstream t h) (λ m known.
      kept IsWired (add_relay name (relay_node m) kwargs t)
        (add_relay-IsWired name (relay_node m) kwargs t known h))

build_keeps : (adds : List Add) (t : TopologyBuilder) → IsWired t → OnOk IsWired (build adds t)
unfolding build
build_keeps [] t h = h
build_keeps (a ∷ adds) t h =
    OnOk-bind IsWired IsWired (add a t) _ (add-IsWired a t h) (λ u k. build_keeps adds u k)

-- Every series of `add_master`, `add_satellite` and `add_relay` calls, with upstreams taken from the builder,
-- that raises nothing leaves connections whose two ends are registered, satellites that are different
-- objects under different names, and nobody connected.
pub build-IsWired : (adds : List Add) → OnOk IsWired (build adds init)
build-IsWired adds = build_keeps adds init init-IsWired
