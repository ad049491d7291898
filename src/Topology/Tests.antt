-- ===== src/Topology/Tests.antt =====
-- A master, a satellite of it, a relay and a satellite of the relay.
use hivescope.Prelude.{ℕ, ◌≡◌, refl, Bool, true, none, some, List, [], ◌∷◌, All, all}
use hivescope.Outcome.{Outcome, ok, runtime_error}
use hivescope.Value.{Fields, end}
use hivescope.Dict.{lookup, set_item}
use hivescope.Topology.{
  Links, TopologyBuilder, init, add_master, add_satellite, add_relay, get_master, get_relay,
  resolve_listener, Add, master, satellite_of, relay_of, satellite_of_relay, add, build, Handshake,
  completes, stalls, refused, start_all, stop_all,
}
use hivescope.Topology.Wiring.{IsWired, OnOk}
use hivescope.Topology.Building.{build-IsWired}
use hivescope.Topology.Starting.{Connects, start_all-Connects}
use hivescope.Topology.Stopping.{restart-Connects}

abbrev network : ℕ → Outcome (Unit {0})
network i = ok tt

abbrev done : ℕ → ℕ → Fields → Handshake
done s m kwargs = completes

abbrev stuck : ℕ → ℕ → Fields → Handshake
stuck s m kwargs = stalls

abbrev returns : ℕ → Bool
returns i = true

abbrev adds : List Add
adds =
    master "M0" []
    ∷ satellite_of "S0" "M0" end
    ∷ relay_of "R1" "M0" end
    ∷ satellite_of_relay "S1" "R1" end
    ∷ []

abbrev built : TopologyBuilder
built = record {
  masters =
      ("M0", record { id = 0; name = "M0" })
      ∷ ("R1_master", record { id = 3; name = "R1_master" })
      ∷ [];
  satellites =
      ("S0", record { id = 1; name = "S0" })
      ∷ ("R1_sat", record { id = 2; name = "R1_sat" })
      ∷ ("S1", record { id = 4; name = "S1" })
      ∷ [];
  relays =
      (
        "R1",
        record {
          name = "R1";
          upstream = record { id = 2; name = "R1_sat" };
          listener = record { id = 3; name = "R1_master" };
        },
      )
      ∷ [];
  connections =
      record { satellite_name = "S0"; master_name = "M0"; connect_kwargs = end }
      ∷ record { satellite_name = "R1_sat"; master_name = "M0"; connect_kwargs = end }
      ∷ record { satellite_name = "S1"; master_name = "R1_master"; connect_kwargs = end }
      ∷ [];
  next_id = 5;
  links = λ i. none;
}

build-adds : build adds init ≡ ok built
unfolding build add add_master add_satellite add_relay get_master get_relay resolve_listener init
    all lookup set_item
build-adds = refl

abbrev small : TopologyBuilder
small = record {
  masters = ("M0", record { id = 0; name = "M0" }) ∷ [];
  satellites = ("S0", record { id = 1; name = "S0" }) ∷ [];
  relays = [];
  connections = record { satellite_name = "S0"; master_name = "M0"; connect_kwargs = end } ∷ [];
  next_id = 2;
  links = λ i. none;
}

small_built : build (master "M0" [] ∷ satellite_of "S0" "M0" end ∷ []) init ≡ ok small
unfolding build add add_master add_satellite get_master resolve_listener init all lookup set_item
small_built = refl

small-IsWired : IsWired small
small-IsWired =
    let wired : OnOk IsWired (ok small) =
      rw small_built at (build-IsWired (master "M0" [] ∷ satellite_of "S0" "M0" end ∷ [])) in
    wired

build-IsWired_example : OnOk IsWired (build adds init)
build-IsWired_example = build-IsWired adds

abbrev refuses : ℕ → ℕ → Fields → Handshake
refuses s m kwargs = refused runtime_error

start_all-Connects_example :
    (after : Links) × (start_all network done built ≡ (record built { links = after }, ok tt))
    × All (Connects built after) built.connections
    × (start_all network refuses (record built { links = after })
        ≡ (record built { links = after }, ok tt))
start_all-Connects_example =
    start_all-Connects network done (λ m. refl) (λ s m kwargs. refl) refuses adds built build-adds
      ((refl, (refl, tt)), ((refl, tt), (tt, tt)))

restart-Connects_example :
    (after : Links) × (start_all network done
        (stop_all returns (record built { links = λ i. some 0 }))
      ≡ (record built { links = after }, ok tt))
    × All (Connects built after) built.connections
restart-Connects_example =
    restart-Connects returns (λ i. refl) network done (λ m. refl) (λ s m kwargs. refl) adds built
      (λ i. some 0) build-adds ((refl, (refl, tt)), ((refl, tt), (tt, tt)))
