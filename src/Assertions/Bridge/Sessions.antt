-- ===== src/Assertions/Bridge/Sessions.antt =====
-- What the session helpers prove of the ids that reach the bus.
use Prim.Native.Char.{Char, code}
use Prim.Native.String.{[] as nil_text, ◌∷◌ as cons_text}
use mathlib.Core.Path.{ap₂}
use package.text.Mathlib.TextLemmas.{nil-append, cons-append}
use hivescope.Prelude.{
  ◌≡◌, refl, sym, ◌∙◌, ap, String, Bool, true, false, not, ◌&&◌, and_split, some, nat_eq, last?,
}
use hivescope.Outcome.{ok, assertion_error, require}
use hivescope.Value.{Value, text, value_get, is_text}
use hivescope.Recorder.{RecordedMessage}
use hivescope.Dict
use hivescope.Assertions.{MasterNode, SatelliteNode, Connection, injected_by}
use hivescope.Assertions.Bridge.{
  session_of, last_injected, natted, expected_id, assert_session_id_natted,
}

module _ (master : MasterNode) (satellite : SatelliteNode) (declared_id : String) where
  module _ (peer : String) (conn : Connection) (entry : RecordedMessage) (session id : Value)
      (connected : satellite.peer ≡ some peer)
      (registered : Dict.lookup peer master.clients ≡ some conn)
      (injected : last? (injected_by satellite.peer master.recorder) ≡ some entry)
      (carried : session_of entry.payload ≡ ok session)
      (named : value_get "session_id" session ≡ ok id) where
    -- For a registered satellite whose last injected record carries a session, the check passes exactly
    -- when that session's id is the declared one behind the namespace of the satellite's connection, or,
    -- for an admin, the declared one itself.
    assert_session_id_natted_lem :
        (assert_session_id_natted master satellite declared_id false
          ≡ require (is_text (natted conn.session_namespace declared_id) id) assertion_error)
        × (assert_session_id_natted master satellite declared_id true
            ≡ require (is_text declared_id id) assertion_error)
    unfolding assert_session_id_natted last_injected expected_id
    assert_session_id_natted_lem = (
      rw (connected, (rw connected at injected), carried, named, registered) refl,
      rw (connected, (rw connected at injected), carried, named) refl,
    )

-- A namespace without a colon.
abbrev pub no_colon : String → Bool
no_colon nil_text = true
no_colon (cons_text c s) = not (nat_eq (code c) b':') && no_colon s

cons_split : (c k : Char) (s t : String) → cons_text c s ≡ cons_text k t → (c ≡ k) × (s ≡ t)
cons_split c k s t h = (cc, cc)

colon_found : (c : Char) (s : String) → ":" ≡ c → no_colon (cons_text c s) ≡ true → ⊥
colon_found c s e h = cc (rw (← e) at h)

natted_nil : (d : String) → natted "" d ≡ cons_text ":" d
natted_nil d = nil-append _ ∙ cons-append ":" "" d ∙ ap (cons_text ":") (nil-append d)

natted_cons : (c : Char) (s d : String) → natted (cons_text c s) d ≡ cons_text c (natted s d)
natted_cons c s d = cons-append c s _

-- For namespaces without a colon, two ids behind namespaces are equal only if they have the same
-- namespace and the same declared id.
pub natted_inj :
    (m n d e : String)
    → no_colon m ≡ true
    → no_colon n ≡ true
    → natted m d ≡ natted n e
    → (m ≡ n) × (d ≡ e)
natted_inj nil_text nil_text d e p q h =
    (refl, (cons_split ":" ":" d e (sym (natted_nil d) ∙ h ∙ natted_nil e)).1)
natted_inj nil_text (cons_text c n) d e p q h = absurd (
    colon_found c n (cons_split ":" c d (natted n e) (sym (natted_nil d) ∙ h ∙ natted_cons c n e)).0
      q)
natted_inj (cons_text c m) nil_text d e p q h = absurd (
    colon_found c m
      (sym (cons_split c ":" (natted m d) e (sym (natted_cons c m d) ∙ h ∙ natted_nil e)).0) p)
natted_inj (cons_text c m) (cons_text k n) d e p q h =
    let (first, later) =
      cons_split c k (natted m d) (natted n e) (sym (natted_cons c m d) ∙ h ∙ natted_cons k n e) in
    let (same, ids) =
      natted_inj m n d e (and_split _ (no_colon m) p).1 (and_split _ (no_colon n) q).1 later in
    (ap₂ cons_text first same, ids)
