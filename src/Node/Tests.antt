-- ===== src/Node/Tests.antt =====
-- A satellite with a connection, its frames and its end.
use hivescope.Prelude.{ℕ, ◌≡◌, refl, String, true, false, none, some, [], ◌∷◌}
use hivescope.Outcome.{Exception, Outcome, ok, raise, value_error}
use hivescope.Value.{Value, text, end, plain}
use hivescope.Database.{Client, init, get_client_by_api_key}
use hivescope.Agent.{Message}
use hivescope.Node.{
  Connection, Received, World, Outgoing, ovos, decode_and_dispatch, disconnect, on_disconnect,
  ConnectArgs, ConnectionArgs, connect,
}
use hivescope.Node.Decoding.{outcome_of, decode_and_dispatch_lem}
use hivescope.Node.Closing.{Closed, closes-Closed}
use hivescope.Node.Granting.{allowed, asked_for, connect_grants}

abbrev State : Type 0
State = World ℕ

abbrev connected : State
connected = record {
  connection = some 0;
  master = some 1;
  noise_transport = some 5;
  crypto_key = none;
  handshake_done = true;
  protocol = 3;
  recorder = record { name = "S0"; records = [] };
  connections = λ c. record { peer = "p"; noise_transport = some 6 };
  clients = "p" ∷ [];
}

-- Nothing is decoded without a transport.
abbrev decode : Connection → Value → Outcome Received
decode c v = elim c.noise_transport [
  | none ↦ raise value_error
  | some n ↦ ok (record { msg_type = "bus"; payload = plain v })
]

abbrev str : Exception → String
str e = "error"

abbrev handlers : Received → State → State × Outcome (Unit {0})
handlers m w = (w, ok tt)

abbrev ends : ℕ → State → State × Outcome (Unit {0})
ends c w = (record w { clients = [] }, ok tt)

abbrev reset : ℕ → ℕ
reset n = 0

abbrev speak : Outgoing
speak = ovos (record { msg_type = "speak"; content = end; context = end })

abbrev wrap : Message → Received
wrap m = record { msg_type = "bus"; payload = plain (text m.msg_type) }

abbrev gone : State
gone = record connected {
  connection = none;
  noise_transport = none;
  handshake_done = false;
  protocol = 0;
  clients = [];
}

decode_and_dispatch_lem_example :
    decode_and_dispatch decode str handlers 0 "p" (text "frame") 7 connected
    ≡ outcome_of decode str handlers
        (decode (record { peer = "p"; noise_transport = some 5 }) (text "frame"))
        "p"
        7
        connected
decode_and_dispatch_lem_example =
    decode_and_dispatch_lem decode str handlers 0 "p" (text "frame") 7 connected

closes-Closed_example :
    Closed (disconnect ends reset connected) × Closed (on_disconnect ends reset connected)
closes-Closed_example = closes-Closed ends reset connected

abbrev asked : ConnectArgs
asked = record {
  is_admin = false;
  can_escalate = true;
  can_propagate = false;
  can_broadcast = true;
  allowed_types = some ("speak" ∷ []);
  msg_blacklist = none;
  skill_blacklist = none;
  intent_blacklist = none;
}

abbrev construct : Client → Client
construct c = c

connect_grants_example :
    (conn : ConnectionArgs) × (connect construct "k" none asked init ≡ ok conn)
    × (allowed conn ≡ asked_for asked (get_client_by_api_key "k" init))
connect_grants_example = connect_grants construct "k" none asked init (λ c. refl)
