-- ===== src/Agent/Bus/Leaking.antt =====
-- Protocols of hivescope/plugins/agent.py that share a bus and are shut down in the order of their making.
use hivescope.Prelude.{
  ℕ, ◌≡◌, ◌∙◌, ◌⊎◌, refl, Bool-cases, Option-cases, inl, inr, false, none, some, [], ◌∷◌, ◌++◌,
  nat_eq, nat_eq_iff, arith, true,
}
use hivescope.Agent.{Message}
use hivescope.Agent.Bus.Nesting.{nat_eq_refl, shutdown-emit}
use hivescope.Agent.Bus.{
  Emit, original, recording, Bus, post_init, shutdown, is_wrapper, a_message, call, emit_on, makes,
  shuts, live, run,
}

-- One shutdown: the wrapper comes off if it is the outermost, and the protocol forgets what it wraps.
pub shutdown-inner :
    (i j : ℕ) (e : Emit) (b : Bus)
    → nat_eq i j ≡ false
    → b.emit ≡ recording j e
    → (shutdown i b).emit ≡ recording j e
unfolding shutdown is_wrapper
shutdown-inner i j e b apart top = elim (Option-cases (b.orig_emit i)) [
  | inl none_kept ↦ rw (none_kept, top) refl
  | inr (o, kept) ↦ rw (kept, top, apart) refl
]

shutdown-gone : (i : ℕ) (b : Bus) → b.orig_emit i ≡ none → (shutdown i b).emit ≡ b.emit
unfolding shutdown
shutdown-gone i b gone = rw gone refl

forgets :
    (i j : ℕ) (b : Bus)
    → (b.orig_emit i ≡ none) ⊎ (nat_eq j i ≡ true)
    → (shutdown j b).orig_emit i ≡ none
unfolding shutdown
forgets i j b (inl e) = elim (Bool-cases (nat_eq j i)) [ inl q ↦ rw q refl | inr q ↦ rw q e ]
forgets i j b (inr q) = rw q refl

made :
    (i j : ℕ) (b : Bus)
    → b.emit ≡ original
    → (post_init j (post_init i b)).emit ≡ recording j (recording i original)
unfolding post_init
made i j b fresh = rw fresh refl

made_kept :
    (i j : ℕ) (b : Bus)
    → nat_eq i j ≡ false
    → b.emit ≡ original
    → (shutdown i (post_init j (post_init i b))).orig_emit j ≡ some (recording i original)
unfolding post_init shutdown
made_kept i j b apart fresh = rw (apart, nat_eq_refl j, fresh) refl

untouched :
    (i j : ℕ) (b : Bus)
    → (shutdown j (shutdown i (post_init j (post_init i b)))).injected ≡ b.injected
unfolding post_init shutdown
untouched i j b = refl

recorded :
    (i : ℕ) (c b : Bus) (m : Message)
    → c.emit ≡ recording i original
    → c.injected ≡ b.injected
    → (emit_on (a_message m) c).injected i ≡ b.injected i ++ m ∷ []
unfolding emit_on call
recorded i c b m left same = rw (left, same, nat_eq_refl i) refl

-- If two protocols on a fresh bus are shut down in the order in which they were made, the shutdown of the
-- second puts the wrapper of the first back: the first, shut down, keeps recording what is emitted, and no
-- further shutdown of either takes its wrapper off.
first_keeps_recording :
    (i j : ℕ) (b : Bus) (m : Message)
    → nat_eq i j ≡ false
    → b.emit ≡ original
    → let c = run (makes i ∷ makes j ∷ shuts i ∷ shuts j ∷ []) b in
      ((emit_on (a_message m) c).injected i ≡ b.injected i ++ m ∷ [])
      × ((run (shuts i ∷ shuts j ∷ []) c).emit ≡ c.emit)
unfolding run live
first_keeps_recording i j b m apart fresh =
    let i_i : nat_eq i i ≡ true = ground (arith, nat_eq_iff i i) in
    let j_j : nat_eq j j ≡ true = ground (arith, nat_eq_iff j j) in
    let j_i : nat_eq j i ≡ false = ground (arith, nat_eq_iff i j, nat_eq_iff j i) in
    let both = post_init j (post_init i b) in
    let one = shutdown i both in
    let c = shutdown j one in
    let top : one.emit ≡ recording j (recording i original) =
      shutdown-inner i j (recording i original) both apart (made i j b fresh) in
    let kept : one.orig_emit j ≡ some (recording i original) = made_kept i j b apart fresh in
    let left : c.emit ≡ recording i original =
      shutdown-emit j (recording i original) one top kept in
    let gone : c.orig_emit i ≡ none = forgets i j one (inl (forgets i i both (inr i_i))) in
    let again = shutdown i c in
    (
      recorded i c b m left (untouched i j b),
      shutdown-gone j again (forgets j i c (inl (forgets j j one (inr j_j))))
          ∙ shutdown-gone i c gone,
    )
