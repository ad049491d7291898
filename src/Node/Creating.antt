-- ===== src/Node/Creating.antt =====
-- hivescope/node.py: `MasterNode.create`. An object is a number; those that a call makes are numbered from the
-- first number that is free.
pub mod Separate
mod Tests
use hivescope.Prelude.{ℕ, ◌+◌, String, Bool, true, false, Option, none, some, List, [], ◌∷◌}

-- What the caller gives.
pub record Request : Type 0 where
  pub name : String
  pub agent_protocol : Option ℕ
  pub use_loopback : Bool
  pub db : Option ℕ

-- HiveMindListenerProtocol, as it is constructed, with the recorder of `_instrument_master`.
pub record Listener : Type 0 where
  pub identity : ℕ
  pub db : ℕ
  pub agent_protocol : ℕ
  pub binary_data_protocol : ℕ
  pub recorder : ℕ

-- `hm_protocol` and `recorder` as the network protocol has them; the in-process one has no recorder.
pub record Network : Type 0 where
  pub hm_protocol : ℕ
  pub recorder : Option ℕ

pub record MasterNode : Type 0 where
  pub name : String
  pub identity : ℕ
  pub db : ℕ
  pub agent_protocol : ℕ
  pub binary_protocol : ℕ
  pub network_protocol : ℕ
  pub hm_protocol : ℕ
  pub recorder : ℕ
  -- what stands behind the objects
  pub binary_agent : ℕ
  pub listener : Listener
  pub network : Network

-- x if x is not None else X()
abbrev pub or_made : Option ℕ → ℕ → ℕ
or_made none made = made
or_made (some x) made = x

abbrev pub network_for : Bool → ℕ → ℕ → Network
network_for true listener recorder = record { hm_protocol = listener; recorder = some recorder }
network_for false listener recorder = record { hm_protocol = listener; recorder = none }

unfoldable pub create_master : Request → ℕ → MasterNode × ℕ
create_master r n =
    let db = or_made r.db (n + 1) in
    let agent = or_made r.agent_protocol (n + 2) in
    (
      record {
        name = r.name;
        identity = n;
        db = db;
        agent_protocol = agent;
        binary_protocol = n + 3;
        hm_protocol = n + 4;
        recorder = n + 5;
        network_protocol = n + 6;
        binary_agent = agent;
        listener = record {
          identity = n;
          db = db;
          agent_protocol = agent;
          binary_data_protocol = n + 3;
          recorder = n + 5;
        };
        network = network_for r.use_loopback (n + 4) (n + 5);
      },
      n + 7,
    )

unfoldable pub create_masters : List Request → ℕ → List MasterNode
create_masters [] n = []
create_masters (r ∷ rs) n = let (m, k) = create_master r n in m ∷ create_masters rs k
