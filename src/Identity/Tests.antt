-- ===== src/Identity/Tests.antt =====
-- The identity of a master beside a directory that is there already.
use Prim.Native.String.{◌++◌ as join}
use hivescope.Prelude.{◌≡◌, refl, String, none, some, List, [], ◌∷◌, any}
use hivescope.Identity.{NodeIdentity, Given, make_identity, identity_in, remove_identity_tmpdir}
use hivescope.Identity.Removing.{remove_identity_tmpdir-make_identity}

abbrev temp : String → List String → String
temp prefix disk = join "/tmp/" (join prefix "x")

abbrev slashed : String → String → String
slashed d f = join d (join "/" f)

abbrev public : String → String
public path = "key"

abbrev defaults : Given
defaults = record { password = some ""; access_key = some "k"; site_id = none; tmpdir = none }

abbrev made : NodeIdentity × List String
made = make_identity temp slashed public "M0" defaults "a" "b" ("/tmp/other" ∷ [])

-- An empty password counts as none given.
made_identity :
    (made.0.password ≡ "b")
    × (made.0.access_key ≡ "k")
    × (made.0.site_id ≡ "M0-site")
    × (made.0.private_key ≡ "/tmp/hivemind_test_M0_x/M0.pem")
    × (made.1 ≡ "/tmp/hivemind_test_M0_x" ∷ "/tmp/other" ∷ [])
unfolding make_identity identity_in
made_identity = (refl, refl, refl, refl, refl)

remove_identity_tmpdir-make_identity_example :
    (remove_identity_tmpdir made ≡ (record made.0 { tmpdir = none }, "/tmp/other" ∷ []))
    × (remove_identity_tmpdir (remove_identity_tmpdir made) ≡ remove_identity_tmpdir made)
unfolding any
remove_identity_tmpdir-make_identity_example =
    remove_identity_tmpdir-make_identity temp slashed public "M0" defaults "a" "b"
      ("/tmp/other" ∷ []) refl refl
