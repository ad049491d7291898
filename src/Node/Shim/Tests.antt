-- ===== src/Node/Shim/Tests.antt =====
-- A satellite and the database that knows its key with another password.
use Prim.Native.String.{◌++◌ as join}
use hivescope.Prelude.{◌≡◌, refl, String, true, false, none, some, List, []}
use hivescope.Identity.{make_identity, identity_in}
use hivescope.Database.{Client, Database, init, get_client_by_api_key, add_client}
use hivescope.Node.{ConnectArgs, new_client}
use hivescope.Node.Shim.{
  SatelliteNode, create, make_shim, password_of, key_of, useragent, registered, set_site_id,
}
use hivescope.Node.Shim.Credentials.{create-registered}

abbrev temp : String → List String → String
temp prefix disk = join "/tmp/" (join prefix "x")

abbrev slashed : String → String → String
slashed d f = join d (join "/" f)

abbrev public : String → String
public path = "key"

abbrev satellite : SatelliteNode
satellite = (create temp slashed public "S0" none true (some 7) "k" "pw" "sid" 9 []).0

satellite_made :
    (useragent satellite ≡ "S0")
    × (satellite.site_id ≡ "S0-site")
    × (satellite.internal_bus ≡ 7)
    × (satellite.share_bus ≡ true)
    × ((set_site_id "hall" satellite).identity.site_id ≡ "hall")
    × ((set_site_id "hall" satellite).site_id ≡ "S0-site")
unfolding create make_identity identity_in make_shim useragent set_site_id
satellite_made = (refl, refl, refl, refl, refl, refl)

abbrev asked : ConnectArgs
asked = record {
  is_admin = false;
  can_escalate = true;
  can_propagate = true;
  can_broadcast = true;
  allowed_types = none;
  msg_blacklist = none;
  skill_blacklist = none;
  intent_blacklist = none;
}

abbrev same : Client → Client
same c = c

abbrev known : Database
known = (add_client same (new_client "k" (some "old") asked) init).0

create-registered_example :
    (key_of satellite ≡ "k")
    × (password_of satellite ≡ "pw")
    × ((c : Client) × (get_client_by_api_key
            (key_of satellite)
            (registered same satellite asked known)
          ≡ some c)
        × (c.password ≡ some (password_of satellite)))
create-registered_example =
    create-registered same (λ c. refl) temp slashed public "S0" none true (some 7) "k" "pw" "sid" 9
      [] asked known refl
