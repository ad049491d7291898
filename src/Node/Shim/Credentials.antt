-- ===== src/Node/Shim/Credentials.antt =====
-- The credentials that a satellite's shim reports are those that its master knows: hivescope/node.py.
use hivescope.Prelude.{ℕ, ◌≡◌, refl, String, Bool, true, false, Option, some, List, ◌==◌}
use hivescope.Database.{Client, Database, get_client_by_api_key, given}
use hivescope.Database.Rows.{add_client-password}
use hivescope.Identity.{make_identity, identity_in}
use hivescope.Node.{ConnectArgs, register_satellite, new_client}
use hivescope.Node.Shim.{SatelliteNode, create, password_of, key_of, registered}

module _ (construct : Client → Client)
    (kept : (c : Client) → (construct c).password ≡ c.password) where
  -- Where the identity has a password.
  registered-key :
      (s : SatelliteNode) (a : ConnectArgs) (db : Database)
      → given (some s.identity.password) ≡ true
      → (c : Client) × (get_client_by_api_key (key_of s) (registered construct s a db) ≡ some c)
        × (c.password ≡ some (password_of s))
  unfolding registered register_satellite key_of password_of
  registered-key s a db h =
      add_client-password construct (new_client s.identity.access_key (some s.identity.password) a)
        db kept h

  -- If the constructor of `Client` keeps the password that it is given: a satellite that `SatelliteNode.create`
  -- has made, with any site, bus and sharing, has the random key and password in its shim; and once `connect`
  -- has registered it with any master, the row that the master finds under the shim's key has the shim's
  -- password, also where the key had another one before.
  pub create-registered :
      (mkdtemp : String → List String → String) (join_path : String → String → String)
      (pubkey : String → String) (name : String) (site_id : Option String) (shared_bus : Bool)
      (bus : Option ℕ) (key secret session_id : String) (fake_bus : ℕ) (disk : List String)
      (a : ConnectArgs) (db : Database)
      → (secret == "") ≡ false
      → let s =
          (create mkdtemp join_path pubkey name site_id shared_bus bus key secret session_id
            fake_bus disk).0 in
        (key_of s ≡ key)
        × (password_of s ≡ secret)
        × ((c : Client) × (get_client_by_api_key (key_of s) (registered construct s a db) ≡ some c)
            × (c.password ≡ some (password_of s)))
  unfolding create make_identity identity_in key_of password_of
  create-registered mkdtemp join_path pubkey name site_id shared_bus bus key secret session_id
        fake_bus disk a db h =
      (refl, refl, registered-key _ a db (rw h refl))
