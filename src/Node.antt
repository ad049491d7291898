-- ===== src/Node.antt =====
-- hivescope/node.py: a `SatelliteNode` with its shim, and hivescope/plugins/network.py: `connect_satellite`.
-- What hivemind-core and hivemind-bus-client do (decoding, handlers, the end of a connection, the peer id of
-- a connection, the reset of the slave protocol, the session that a message carries) is a parameter. A
-- connection and a Noise transport are objects, known by numbers.
pub mod Decoding
pub mod Closing
pub mod Granting
pub mod Master
pub mod Shim
pub mod Creating
mod Tests
use hivescope.Prelude.{
  ℕ, String, Bool, true, false, ◌&&◌, not, Option, none, some, List, [], ◌∷◌, ◌==◌, nat_eq,
  is_empty, if◌then◌else◌,
}
use hivescope.Outcome.{Exception, Outcome, ok, raise, runtime_error, value_error, ◌>>=◌, or_raise}
use hivescope.Value.{Value, text, dict, Fields, end, field, Payload, plain, lookup}
use hivescope.Recorder.{Direction, inbound, outbound, MessageRecorder, record_message}
use hivescope.Agent.{Message, set_field}
use hivescope.Database.{Client, Database, NewClient, add_client, get_client_by_api_key, given}
use hivescope.Assertions.{contains}

-- A HiveMindClientConnection of the master, shared with the satellite in-process.
pub record Connection : Type 0 where
  pub peer : String
  pub noise_transport : Option ℕ

-- What a HiveMessage shows to the recorder.
pub record Received : Type 0 where
  pub msg_type : String
  pub payload : Payload

-- `connection` and `master` are the satellite's; `noise_transport`, `crypto_key` and `handshake_done` are its
-- shim's; `protocol` is the state of its slave protocol.
pub record World (P : Type 0) : Type 0 where
  pub connection : Option ℕ
  pub master : Option ℕ
  pub noise_transport : Option ℕ
  pub crypto_key : Option String
  pub handshake_done : Bool
  pub protocol : P
  pub recorder : MessageRecorder
  pub connections : ℕ → Connection
  -- the peers in `hm_protocol.clients` of the master
  pub clients : List String

abbrev pub put : ℕ → Connection → (ℕ → Connection) → ℕ → Connection
put i c cs j = if nat_eq i j then c else cs j

-- What `send` is given: an OVOS message, which gets a session if it has none, or a HiveMessage.
pub data Outgoing : Type 0 where
  ovos : Message → Outgoing
  hive : Received → Outgoing

abbrev pub with_session : Value → Message → Message
with_session session m = elim (lookup "session" m.context) [
  | none ↦ record m { context = set_field "session" session m.context }
  | some v ↦ m
]

abbrev pub as_hive : Value → (Message → Received) → Outgoing → Received
as_hive session wrap (ovos m) = wrap (with_session session m)
as_hive session wrap (hive h) = h

module _ {P : Type 0} where
  abbrev pub write : Direction → String → Payload → String → ℕ → World P → World P
  write d t p peer now w = record w { recorder = record_message d t p peer now w.recorder }

  module _ (decode : Connection → Value → Outcome Received) (str : Exception → String)
      (handlers : Received → World P → World P × Outcome (Unit {0})) where
    abbrev pub write_error : Exception → String → ℕ → World P → World P
    write_error e peer now w =
        write inbound "_decode_error" (plain (dict (field "error" (text (str e)) end))) peer now w

    abbrev pub set_transport : ℕ → Option ℕ → World P → World P
    set_transport c transport w = record w {
      connections = put c (record (w.connections c) { noise_transport = transport }) w.connections;
    }

    -- A failed decode is recorded, and then the connection gets its transport back, `saved`; a message is
    -- recorded, and goes to the handlers, when the connection has it back.
    abbrev pub conclude :
        Outcome Received
        → (saved : Option ℕ) → ℕ
        → String
        → ℕ
        → World P
        → World P × Outcome (Unit {0})
    conclude (raise e) saved c peer now w =
        (set_transport c saved (write_error e peer now w), ok tt)
    conclude (ok m) saved c peer now w =
        handlers m (write inbound m.msg_type m.payload peer now (set_transport c saved w))

    -- The connection borrows the satellite's transport for the decode.
    unfoldable pub decode_and_dispatch :
        ℕ → String → Value → ℕ → World P → World P × Outcome (Unit {0})
    decode_and_dispatch c peer payload now w =
        let saved = (w.connections c).noise_transport in
        let borrowed = set_transport c w.noise_transport w in
        let message = decode (borrowed.connections c) payload in
        conclude message saved c peer now borrowed

    -- The action that goes to the delivery pump; without a connection the frame is dropped.
    unfoldable pub receive_raw :
        Value → ℕ → World P → Option (World P → World P × Outcome (Unit {0}))
    unfolding decode_and_dispatch
    receive_raw payload now w = elim w.connection [
      | none ↦ none
      | some c ↦ some (decode_and_dispatch c (w.connections c).peer payload now)
    ]

  module _ (handle_client_disconnected : ℕ → World P → World P × Outcome (Unit {0}))
      (reset : P → P) where
    unfoldable pub forget_session : World P → World P
    forget_session w = record w {
      connection = none;
      noise_transport = none;
      crypto_key = none;
      handshake_done = false;
      protocol = reset w.protocol;
    }

    -- An exception of the handler leaves before the session is forgotten.
    abbrev pub then_forget : World P × Outcome (Unit {0}) → World P × Outcome (Unit {0})
    then_forget (w, ok u) = (forget_session w, ok tt)
    then_forget (w, raise e) = (w, raise e)

    abbrev pub handled : Option ℕ → Option ℕ → World P → World P × Outcome (Unit {0})
    handled (some c) (some m) w = handle_client_disconnected c w
    handled _ _ w = (w, ok tt)

    unfoldable pub disconnect : World P → World P × Outcome (Unit {0})
    unfolding forget_session
    disconnect w = then_forget (handled w.connection w.master w)

    -- The handler runs only for a connection whose peer the master still has.
    abbrev pub still_known : Option ℕ → World P → Bool
    still_known none w = false
    still_known (some c) w = contains (w.connections c).peer w.clients

    unfoldable pub on_disconnect : World P → World P × Outcome (Unit {0})
    unfolding forget_session
    on_disconnect w =
        let cut : World P = record w { connection = none; master = none } in
        then_forget
          (if still_known w.connection w then handled w.connection w.master cut else (cut, ok tt))

  module _ (session : Value) (wrap : Message → Received) where
    abbrev pub sent :
        Option ℕ → Option ℕ → Received → ℕ → World P → World P × Outcome (Received × ℕ)
    sent (some c) (some m) h now w = (write outbound h.msg_type h.payload "master" now w, ok (h, c))
    sent _ _ h now w = (w, raise runtime_error)

    -- The result is what the master's `handle_message` is to be given by the pump.
    unfoldable pub send : Outgoing → ℕ → World P → World P × Outcome (Received × ℕ)
    send message now w = sent w.connection w.master (as_hive session wrap message) now w

  abbrev pub peer : World P → Option String
  peer w = elim w.connection [ none ↦ none | some c ↦ some (w.connections c).peer ]

-- The arguments of `connect`; those of `register_satellite` that it does not forward are its defaults.
pub record ConnectArgs : Type 0 where
  pub is_admin : Bool
  pub can_escalate : Bool
  pub can_propagate : Bool
  pub can_broadcast : Bool
  pub allowed_types : Option (List String)
  pub msg_blacklist : Option (List String)
  pub skill_blacklist : Option (List String)
  pub intent_blacklist : Option (List String)

-- What `connect_satellite` gives the connection that it builds.
pub record ConnectionArgs : Type 0 where
  pub key : String
  pub has_password_handshake : Bool
  pub is_admin : Bool
  pub can_escalate : Bool
  pub can_propagate : Bool
  pub can_broadcast : Bool
  pub allowed_types : List String

-- The call of `add_client` by `register_satellite`.
abbrev pub new_client : String → Option String → ConnectArgs → NewClient
new_client key password a = record {
  name = "test-satellite";
  key = key;
  admin = a.is_admin;
  intent_blacklist = a.intent_blacklist;
  skill_blacklist = a.skill_blacklist;
  message_blacklist = a.msg_blacklist;
  allowed_types = a.allowed_types;
  password = password;
  can_escalate = a.can_escalate;
  can_propagate = a.can_propagate;
  can_broadcast = a.can_broadcast;
}

module _ (construct : Client → Client) where
  unfoldable pub register_satellite : String → Option String → ConnectArgs → Database → Database
  register_satellite key password a db = (add_client construct (new_client key password a) db).0

  abbrev pub connection_args : String → Client → ConnectionArgs
  connection_args key c = record {
    key = key;
    has_password_handshake = given c.password;
    is_admin = c.is_admin;
    can_escalate = c.can_escalate;
    can_propagate = c.can_propagate;
    can_broadcast = c.can_broadcast;
    allowed_types = c.allowed_types;
  }

  unfoldable pub connect_satellite : String → Database → Outcome ConnectionArgs
  connect_satellite key db = do
    client ← or_raise (get_client_by_api_key key db) value_error
    ok (connection_args key client)

  -- The part of `connect` before the handshake.
  unfoldable pub connect : String → Option String → ConnectArgs → Database → Outcome ConnectionArgs
  unfolding register_satellite connect_satellite
  connect key password a db = connect_satellite key (register_satellite key password a db)
