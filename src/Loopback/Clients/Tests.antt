-- ===== src/Loopback/Clients/Tests.antt =====
-- Connections on concrete requests and events.
use hivescope.Prelude.{
  ◌≤◌, ◌≡◌, ◌⊎◌, refl, String, true, false, Option, none, some, List, any, filter, All, [], ◌∷◌,
}
use hivescope.Outcome.{ok, raise, runtime_error}
use hivescope.Dict.{lookup}
use hivescope.Database.{Client, Database, get_client_by_api_key}
use hivescope.Node.{connection_args}
use hivescope.Loopback.Clients.{
  Request, complete, split_once, decoded, from_query, from_header, credentials, admit, init, Event,
  arrives, receives, ends, handled, undecodable, serve, Drained, drain_clients, member, step, enter,
  on_frame, finish, remove,
}
use hivescope.Loopback.Clients.Sessions.{replay}
use hivescope.Loopback.Clients.Admitting.{Granted, admit-Granted}
use hivescope.Loopback.Clients.Registries.{Registers, drain_clients_lem}

abbrev plain_text : String → Option String
plain_text s = some s

abbrev row : Client
row = record {
  api_key = "key";
  name = "alice";
  client_id = 1;
  is_admin = false;
  allowed_types = "speak" ∷ [];
  password = none;
  can_escalate = true;
  can_propagate = false;
  can_broadcast = false;
  metadata = [];
}

abbrev db : Database
db = record { clients = ("key", row) ∷ []; next_id = 2 }

abbrev request : String → String → Request
request path authorization = record { path = path; authorization = authorization }

key_with_colon :
    credentials plain_text plain_text (request "/" "Basic alice:k:ey") ≡ some ("alice", "k:ey")
unfolding credentials from_query from_header decoded split_once
key_with_colon = refl

admit-Granted_example :
    Granted db "alice" (connection_args (λ c. c) "key" row)
    × ((from_query plain_text plain_text (request "/?alice:key" "") ≡ some ("alice", "key"))
        ⊎ ((complete (from_query plain_text plain_text (request "/?alice:key" "")) ≡ false)
            × (from_header plain_text plain_text (request "/?alice:key" "")
                ≡ some ("alice", "key"))))
unfolding admit credentials from_query from_header decoded split_once get_client_by_api_key lookup
admit-Granted_example =
    admit-Granted plain_text plain_text db (request "/?alice:key" "") "alice"
      (connection_args (λ c. c) "key" row) refl

-- One connection is refused by the protocol; the other gets a frame and a broken one.
abbrev events : List Event
events =
    arrives (raise runtime_error) (ok tt)
    ∷ arrives (ok tt) (ok tt)
    ∷ receives "alice" "alice::1" 5 1 handled
    ∷ receives "alice" "alice::1" 6 1 (undecodable "bad")
    ∷ arrives (ok tt) (ok tt)
    ∷ ends 1 (ok tt)
    ∷ []

-- While the sockets are closed, connection 2 ends and another arrives; while the tasks are awaited, one more
-- arrives, and 3 does not end.
abbrev closing : List Event
closing = ends 2 (ok tt) ∷ arrives (ok tt) (ok tt) ∷ []

abbrev waiting : List Event
waiting = arrives (ok tt) (ok tt) ∷ []

abbrev drained : Drained
drained = drain_clients closing waiting (serve events (init none))

late_ones :
    (drained.closed_sockets ≡ 2 ∷ [])
    × (drained.cancelled ≡ 3 ∷ [])
    × (drained.left.clients ≡ 3 ∷ 4 ∷ [])
unfolding drain_clients serve step enter on_frame finish remove member any filter init
late_ones = (refl, refl, refl)

drain_clients_lem_example :
    (drained.closed_sockets ≡ (serve events (init none)).running)
    × Registers drained.left
    × (replay drained.left.calls [] ≡ some drained.left.running)
    × All
        (λ i.
          (member i drained.cancelled ≡ true)
          ⊎ ((serve closing (serve events (init none))).next_conn ≤ i))
        drained.left.running
drain_clients_lem_example =
    drain_clients_lem events closing waiting none (refl, (refl, (tt, (tt, (refl, (refl, tt))))))
      (refl, (refl, tt)) (refl, tt)
