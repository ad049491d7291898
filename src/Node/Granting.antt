-- ===== src/Node/Granting.antt =====
-- The permissions that a connection of hivescope/node.py and hivescope/plugins/network.py gets.
use hivescope.Prelude.{◌≡◌, refl, String, Bool, Option, List}
use hivescope.Outcome.{ok}
use hivescope.Database.{Client, Database, get_client_by_api_key}
use hivescope.Database.Rows.{permissions, types_or_old, add_client_grants}
use hivescope.Node.{
  ConnectArgs, ConnectionArgs, register_satellite, connect_satellite, connect, connection_args,
  new_client,
}

-- The permissions of a connection.
abbrev pub allowed : ConnectionArgs → Bool × Bool × Bool × Bool × List String
allowed c = (c.is_admin, c.can_escalate, c.can_propagate, c.can_broadcast, c.allowed_types)

-- Those that `connect` is asked for; with no `allowed_types`, the key's row keeps the ones it had.
abbrev pub asked_for : ConnectArgs → Option Client → Bool × Bool × Bool × Bool × List String
asked_for a old =
    (a.is_admin, a.can_escalate, a.can_propagate, a.can_broadcast, types_or_old a.allowed_types old)

-- If the constructor of `Client` keeps the permissions that it is given: a `connect` finds its own
-- row and does not fail with ValueError, and its connection has the permissions that were asked
-- for, whatever the key had before; only with no `allowed_types` given do the allowed types of an
-- earlier registration stay.
pub connect_grants :
    (construct : Client → Client) (key : String) (password : Option String) (a : ConnectArgs)
    (db : Database)
    → ((c : Client) → permissions (construct c) ≡ permissions c)
    → (conn : ConnectionArgs) × (connect construct key password a db ≡ ok conn)
      × (allowed conn ≡ asked_for a (get_client_by_api_key key db))
unfolding connect register_satellite connect_satellite
connect_grants construct key password a db kept =
    let (c, found, grants) = add_client_grants construct (new_client key password a) db kept in
    (connection_args construct key c, rw found refl, grants)
