-- ===== src/Node/Shim.antt =====
-- hivescope/node.py: `InProcessHiveShim` and `SatelliteNode.create`. The identity is one object that the node,
-- its shim and its slave protocol share, so that it stands in the satellite once. A bus is a number; the event
-- emitter of the shim is a package's.
pub mod Credentials
pub mod Emitting
mod Tests
use Prim.Native.String.{◌++◌ as join}
use hivescope.Prelude.{ℕ, String, Bool, true, false, Option, none, some, List}
use hivescope.Outcome.{Outcome, ok, raise, attribute_error}
use hivescope.Value.{Value}
use hivescope.Agent.{Message}
use hivescope.Database.{Client, Database}
use hivescope.Identity.{NodeIdentity, Given, or_default, make_identity}
use hivescope.Node.{
  Received, World, Outgoing, ovos, hive, send, ConnectArgs, ConnectionArgs, register_satellite,
  connect_satellite,
}

-- `satellite` tells whether the back-reference is wired.
pub record InProcessHiveShim : Type 0 where
  pub session_id : String
  pub crypto_key : Option String
  pub handshake_event : Bool
  pub max_protocol_version : ℕ
  pub satellite : Bool

pub record SatelliteNode : Type 0 where
  pub name : String
  pub identity : NodeIdentity
  pub shim : InProcessHiveShim
  pub internal_bus : ℕ
  -- of the slave protocol
  pub site_id : String
  pub shared_bus : Bool
  -- of the slave protocol's internal protocol
  pub share_bus : Bool

-- __init__
unfoldable pub make_shim : (session_id : String) → InProcessHiveShim
make_shim session_id = record {
  session_id = session_id;
  crypto_key = none;
  handshake_event = false;
  max_protocol_version = 3;
  satellite = false;
}

-- bus or FakeBus()
abbrev pub bus_or : Option ℕ → ℕ → ℕ
bus_or none fake_bus = fake_bus
bus_or (some b) fake_bus = b

abbrev pub created :
    String
    → Bool
    → Option ℕ
    → (session_id : String) → (fake_bus : ℕ) → NodeIdentity × List String
    → SatelliteNode × List String
created name shared_bus bus session_id fake_bus (identity, disk) = (
  record {
    name = name;
    identity = identity;
    shim = record (make_shim session_id) { satellite = true };
    internal_bus = bus_or bus fake_bus;
    site_id = or_default (some identity.site_id) "unknown";
    shared_bus = shared_bus;
    share_bus = shared_bus;
  },
  disk,
)

module _ (mkdtemp : String → List String → String) (join_path : String → String → String)
    (pubkey : String → String) where
  unfoldable pub create :
      String
      → (site_id : Option String) → (shared_bus : Bool) → (bus : Option ℕ)
      → (key secret session_id : String) → (fake_bus : ℕ) → List String
      → SatelliteNode × List String
  unfolding make_identity make_shim
  create name site_id shared_bus bus key secret session_id fake_bus disk =
      created name shared_bus bus session_id fake_bus (
        make_identity mkdtemp join_path pubkey name
          (record {
            password = none;
            access_key = none;
            site_id = some (or_default site_id (join name "-site"));
            tmpdir = none;
          })
          key secret disk)

-- The properties of the shim that the slave protocol reads, on the shared identity.
unfoldable pub useragent : SatelliteNode → String
useragent s = s.identity.name

unfoldable pub password_of : SatelliteNode → String
password_of s = s.identity.password

unfoldable pub key_of : SatelliteNode → String
key_of s = s.identity.access_key

unfoldable pub set_site_id : String → SatelliteNode → SatelliteNode
set_site_id val s = record s { identity = record s.identity { site_id = val } }

-- The part of `connect` before the handshake, with what the satellite's identity holds.
module _ (construct : Client → Client) where
  unfoldable pub registered : SatelliteNode → ConnectArgs → Database → Database
  registered s a db =
      register_satellite construct s.identity.access_key (some s.identity.password) a db

abbrev pub as_hive_message : (Message → Received) → Outgoing → Outgoing
as_hive_message wrap (ovos m) = hive (wrap m)
as_hive_message wrap (hive h) = hive h

module _ {P : Type 0} (session : Value) (wrap : Message → Received) where
  abbrev pub emitted : Bool → Outgoing → ℕ → World P → World P × Outcome (Received × ℕ)
  emitted true message now w = send session wrap (as_hive_message wrap message) now w
  emitted false message now w = (w, raise attribute_error)

  unfoldable pub emit :
      InProcessHiveShim → Outgoing → ℕ → World P → World P × Outcome (Received × ℕ)
  emit shim message now w = emitted shim.satellite message now w
