-- ===== src/Agent/Skills/Polling.antt =====
-- The helpers of hivescope/plugins/ovoscope_agent.py that poll.
use hivescope.Prelude.{
  ℕ, suc, ◌+◌, if◌then◌else◌, ◌≡◌, ◌↔◌, refl, String, true, Option, none, List, [], ◌∷◌, ◌++◌, ◌==◌,
  inl, inr, arith, leb, length, last?, length-append, filter-append, last?_cons_some, Bool-cases,
}
use hivescope.Outcome.{Outcome, ok, raise, require, assertion_error}
use hivescope.Agent.{Message, injected_as, last_injected}
use hivescope.Agent.Skills.{
  enough, wait_for_skill_emission, skill_messages, wait_last_injected, or_next,
}

-- What stands in `injected` when the last pause is over.
unfoldable pub afterwards : List Message → List (List Message) → List Message
afterwards injected [] = injected
afterwards injected (more ∷ pauses) = afterwards (injected ++ more) pauses

leb_plus : (c m n : ℕ) → leb c m ≡ true → leb c (m + n) ≡ true
leb_plus c m n h = ground arith

enough-append :
    (t : String) (c : ℕ) (xs ys : List Message)
    → enough t c xs ≡ true
    → enough t c (xs ++ ys) ≡ true
unfolding enough injected_as
enough-append t c xs ys h =
    rw
      (
        filter-append (λ m. m.msg_type == t) xs ys,
        length-append (injected_as t xs) (injected_as t ys),
      )
      (leb_plus c (length (injected_as t xs)) (length (injected_as t ys)) h)

enough-afterwards :
    (t : String) (c : ℕ) (xs : List Message) (pauses : List (List Message))
    → enough t c xs ≡ true
    → enough t c (afterwards xs pauses) ≡ true
unfolding afterwards
enough-afterwards t c xs [] h = h
enough-afterwards t c xs (more ∷ pauses) h =
    enough-afterwards t c (xs ++ more) pauses (enough-append t c xs more h)

verdict :
    (t : String) (c : ℕ) (xs : List Message) (pauses : List (List Message))
    → wait_for_skill_emission t c xs pauses
      ≡ require (enough t c (afterwards xs pauses)) assertion_error
unfolding wait_for_skill_emission afterwards
verdict t c xs [] = refl
verdict t c xs (more ∷ pauses) = elim (Bool-cases (enough t c xs)) [
  | inl e ↦ rw (e, enough-afterwards t c (xs ++ more) pauses (enough-append t c xs more e)) refl
  | inr e ↦ rw e (verdict t c (xs ++ more) pauses)
]

at_least_one : (n : ℕ) → leb 1 (suc n) ≡ true
at_least_one n = ground arith

-- One look at the messages of the type, and what is done when there are none.
look :
    (ms : List Message) (o : Option Message) (r : Outcome (Unit {0}))
    → (o ≡ none) ↔ (r ≡ raise assertion_error)
    → (or_next (last? ms) o ≡ none)
      ↔ ((if leb 1 (length ms) then ok tt else r) ≡ raise assertion_error)
unfolding last?
look [] o r h = h
look (m ∷ ms) o r h =
    let (y, e) = last?_cons_some m ms in
    rw (e, at_least_one (length ms)) ((λ q. absurd (cc)), (λ q. absurd (cc)))

last_look :
    (ms : List Message)
    → (last? ms ≡ none) ↔ (require (leb 1 (length ms)) assertion_error ≡ raise assertion_error)
unfolding last?
last_look [] = ((λ q. refl), (λ q. refl))
last_look (m ∷ ms) =
    let (y, e) = last?_cons_some m ms in
    rw (e, at_least_one (length ms)) ((λ q. absurd (cc)), (λ q. absurd (cc)))

looks :
    (t : String) (xs : List Message) (pauses : List (List Message))
    → (wait_last_injected t xs pauses ≡ none)
      ↔ (wait_for_skill_emission t 1 xs pauses ≡ raise assertion_error)
unfolding wait_last_injected wait_for_skill_emission last_injected enough
looks t xs [] = last_look (injected_as t xs)
looks t xs (more ∷ pauses) = look (injected_as t xs) _ _ (looks t (xs ++ more) pauses)

-- Whether `wait_for_skill_emission` passes does not depend on when the messages come: it passes if at least
-- `count` of the type are injected when the last pause is over, and raises an assertion error otherwise. With
-- a count of one it raises exactly where `wait_last_injected` returns none.
pub wait_for_skill_emission_lem :
    (msg_type : String) (count : ℕ) (injected : List Message) (pauses : List (List Message))
    → (wait_for_skill_emission msg_type count injected pauses
        ≡ require
            (leb count (length (skill_messages msg_type (afterwards injected pauses))))
            assertion_error)
      × ((wait_last_injected msg_type injected pauses ≡ none)
          ↔ (wait_for_skill_emission msg_type 1 injected pauses ≡ raise assertion_error))
unfolding enough skill_messages
wait_for_skill_emission_lem msg_type count injected pauses =
    (verdict msg_type count injected pauses, looks msg_type injected pauses)
