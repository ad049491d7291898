-- ===== src/Identity/Removing.antt =====
-- Identities of hivescope/utils.py come and go.
use Prim.Native.String.{◌++◌ as join}
use hivescope.Prelude.{
  ◌≡◌, refl, String, false, Option, none, some, List, [], ◌∷◌, ◌==◌, filter, any, arith, eq_refl,
}
use hivescope.Identity.{
  in_directory, Given, make_identity, identity_in, rmtree, remove_identity_tmpdir,
}

rmtree-absent :
    (p : String) (disk : List String) → any (λ d. d == p) disk ≡ false → rmtree p disk ≡ disk
unfolding rmtree filter any
rmtree-absent p [] h = refl
rmtree-absent p (d ∷ disk) h = ground (arith, rmtree-absent p disk)

rmtree-new :
    (p : String) (disk : List String) → any (λ d. d == p) disk ≡ false → rmtree p (p ∷ disk) ≡ disk
unfolding rmtree filter
rmtree-new p disk h = rw (eq_refl p) (rmtree-absent p disk h)

module _ (mkdtemp : String → List String → String) (join_path : String → String → String)
    (pubkey : String → String) where
  -- The directory that is made for a node.
  abbrev pub own_dir : String → List String → String
  own_dir name disk = mkdtemp (join "hivemind_test_" (join name "_")) disk

  removed_from :
      (o : Option String) (name : String) (given : Given) (key secret : String) (disk : List String)
      → any (λ d. d == own_dir name disk) disk ≡ false
      → (own_dir name disk == "") ≡ false
      → let made = in_directory mkdtemp join_path pubkey o name given key secret disk in
        let gone = remove_identity_tmpdir made in
        (gone ≡ (record made.0 { tmpdir = none }, disk)) × (remove_identity_tmpdir gone ≡ gone)
  unfolding remove_identity_tmpdir identity_in
  removed_from (some d) name given key secret disk new named = (refl, refl)
  removed_from none name given key secret disk new named =
      rw (named, rmtree-new (own_dir name disk) disk new) (refl, refl)

  -- Where `mkdtemp` gives a path that is not on the disk: removing the directory of an identity that has just
  -- been made leaves the disk as it was before and the identity without a directory; a directory that the
  -- caller gave is not touched; and a second removal changes nothing.
  pub remove_identity_tmpdir-make_identity :
      (name : String) (given : Given) (key secret : String) (disk : List String)
      → any (λ d. d == own_dir name disk) disk ≡ false
      → (own_dir name disk == "") ≡ false
      → let made = make_identity mkdtemp join_path pubkey name given key secret disk in
        let gone = remove_identity_tmpdir made in
        (gone ≡ (record made.0 { tmpdir = none }, disk)) × (remove_identity_tmpdir gone ≡ gone)
  unfolding make_identity
  remove_identity_tmpdir-make_identity name given key secret disk new named =
      removed_from given.tmpdir name given key secret disk new named
