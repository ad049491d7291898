-- ===== src/Identity.antt =====
-- hivescope/utils.py: the identities of the nodes and their temporary directories. The disk is the list of the
-- directories that stand in the temporary folder, none of them inside another.
pub mod Removing
mod Tests
use Prim.Native.String.{◌++◌ as join}
use hivescope.Prelude.{
  String, Bool, true, false, not, Option, none, some, List, [], ◌∷◌, ◌==◌, filter, if◌then◌else◌,
}

-- What is set on a NodeIdentity; `tmpdir` is `_hivescope_tmpdir`, the directory that is its own to remove.
pub record NodeIdentity : Type 0 where
  pub name : String
  pub access_key : String
  pub password : String
  pub site_id : String
  pub private_key : String
  pub public_key : String
  pub tmpdir : Option String

-- value or default
abbrev pub or_default : Option String → String → String
or_default none default = default
or_default (some s) default = if s == "" then default else s

-- The arguments of `make_identity` that may be None.
pub record Given : Type 0 where
  pub password : Option String
  pub access_key : Option String
  pub site_id : Option String
  pub tmpdir : Option String

-- `mkdtemp` gives the path of a directory that is not there, by the prefix and the directories that are;
-- `join_path` is `os.path.join`; `pubkey` the public key that HandShake makes for a path; `key` and `secret`
-- are two random texts.
module _ (mkdtemp : String → List String → String) (join_path : String → String → String)
    (pubkey : String → String) where
  unfoldable pub identity_in :
      (name : String)
      → Given
      → (key secret tmpdir : String) → (owned : Option String) → NodeIdentity
  identity_in name given key secret tmpdir owned = record {
    name = name;
    access_key = or_default given.access_key key;
    password = or_default given.password secret;
    site_id = or_default given.site_id (join name "-site");
    private_key = join_path tmpdir (join name ".pem");
    public_key = pubkey (join_path tmpdir (join name ".pem"));
    tmpdir = owned;
  }

  abbrev pub in_directory :
      Option String
      → String
      → Given
      → (key secret : String) → List String
      → NodeIdentity × List String
  in_directory (some tmpdir) name given key secret disk =
      (identity_in name given key secret tmpdir none, disk)
  in_directory none name given key secret disk =
      let tmpdir = mkdtemp (join "hivemind_test_" (join name "_")) disk in
      (identity_in name given key secret tmpdir (some tmpdir), tmpdir ∷ disk)

  unfoldable pub make_identity :
      String → Given → (key secret : String) → List String → NodeIdentity × List String
  unfolding identity_in
  make_identity name given key secret disk = in_directory given.tmpdir name given key secret disk

-- shutil.rmtree(tmpdir, ignore_errors=True)
unfoldable pub rmtree : String → List String → List String
rmtree tmpdir disk = filter (λ d. not (d == tmpdir)) disk

abbrev pub removed : Option String → NodeIdentity × List String → NodeIdentity × List String
removed none (identity, disk) = (identity, disk)
removed (some tmpdir) (identity, disk) =
    if tmpdir == ""
    then (identity, disk)
    else (record identity { tmpdir = none }, rmtree tmpdir disk)

unfoldable pub remove_identity_tmpdir : NodeIdentity × List String → NodeIdentity × List String
unfolding rmtree
remove_identity_tmpdir (identity, disk) = removed identity.tmpdir (identity, disk)
