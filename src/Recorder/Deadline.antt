-- ===== src/Recorder/Deadline.antt =====
-- Which wake-ups of `wait_for` are kept, and which one can be lost.
use mathlib.Core.Bool.{false≢true}
use hivescope.Prelude.{
  ℕ, ◌≡◌, refl, String, Bool, true, false, ◌||◌, ◌&&◌, none, ◌==◌, arith, inl, inr, Option-cases,
  Bool-cases, sym, ◌∙◌,
}
use hivescope.Value.{Payload}
use hivescope.Recorder.{Direction, MessageRecorder, find, matches}
use hivescope.Recorder.Lookup.{any-find-none, any-record_message}
use hivescope.Recorder.Waiting.{
  Query, Phase, start, looking, loop_head, waiting, woken, checking, clearing, leaving, returned,
  Wait, begin, advance, advance_at, recorded, waiter, other_records, other_clears, deadline, Reach,
  here, next, pending,
}

-- On a query with no direction, while no thread clears: the flag tells of a match before the
-- deadline, and the steps that reset the flag come after the deadline only.
abbrev Awake : Phase → (registered is_set expired found : Bool) → Type 0
Awake start registered is_set expired found = (registered ≡ false) × (is_set ≡ false)
Awake looking registered is_set expired found = (registered ≡ true) × (is_set ≡ true → found ≡ true)
Awake loop_head registered is_set expired found =
    (registered ≡ true) × (is_set ≡ true → found ≡ true) × (found ≡ true → is_set || expired ≡ true)
Awake waiting registered is_set expired found =
    (registered ≡ true) × (is_set ≡ true → found ≡ true) × (found ≡ true → is_set || expired ≡ true)
Awake woken registered is_set expired found =
    (registered ≡ true) × (found || expired ≡ true) × (is_set ≡ true → found ≡ true)
Awake checking registered is_set expired found = (registered ≡ true) × (expired ≡ true)
Awake clearing registered is_set expired found = (registered ≡ true) × (expired ≡ true)
Awake _ registered is_set expired found = Unit

Awake-record :
    (p : Phase) (registered is_set expired found same : Bool)
    → Awake p registered is_set expired found
    → Awake p registered (is_set || (registered && same)) expired (found || same)
Awake-record start registered is_set expired found same h = ground arith
Awake-record looking registered is_set expired found same h = ground arith
Awake-record loop_head registered is_set expired found same h = ground arith
Awake-record waiting registered is_set expired found same h = ground arith
Awake-record woken registered is_set expired found same h = ground arith
Awake-record checking registered is_set expired found same h = ground arith
Awake-record clearing registered is_set expired found same h = ground arith
Awake-record (leaving r) registered is_set expired found same h = tt
Awake-record (returned r) registered is_set expired found same h = tt

Awake-deadline :
    (p : Phase) (registered is_set expired found : Bool)
    → Awake p registered is_set expired found
    → Awake p registered is_set true found
Awake-deadline start registered is_set expired found h = ground arith
Awake-deadline looking registered is_set expired found h = ground arith
Awake-deadline loop_head registered is_set expired found h = ground arith
Awake-deadline waiting registered is_set expired found h = ground arith
Awake-deadline woken registered is_set expired found h = ground arith
Awake-deadline checking registered is_set expired found h = ground arith
Awake-deadline clearing registered is_set expired found h = ground arith
Awake-deadline (leaving r) registered is_set expired found h = tt
Awake-deadline (returned r) registered is_set expired found h = tt

abbrev IsAwake : Query → Wait → Type 0
IsAwake q s = Awake s.phase s.registered s.is_set s.expired (pending q s)

pending-none :
    (q : Query) (s : Wait) → find q.msg_type q.direction s.recorder ≡ none → pending q s ≡ false
unfolding pending
pending-none q s e = any-find-none q.msg_type q.direction s.recorder e

advance_at-Awake :
    (q : Query) (p : Phase) (s : Wait)
    → s.phase ≡ p
    → Awake p s.registered s.is_set s.expired (pending q s)
    → IsAwake q (advance_at q p s)
unfolding advance_at pending
advance_at-Awake q start s e h = ground arith
advance_at-Awake q looking s e h = elim (Option-cases (find q.msg_type q.direction s.recorder)) [
  | inl n ↦ rw n (ground (arith, pending-none q s n))
  | inr (m, y) ↦ rw y tt
]
advance_at-Awake q loop_head s e h = elim (Bool-cases s.expired) [
  | inl x ↦ rw x tt
  | inr x ↦ rw x (ground arith)
]
advance_at-Awake q waiting s e h = elim (Bool-cases (s.is_set || s.expired)) [
  | inl x ↦ rw x (ground arith)
  | inr x ↦ rw x (ground arith)
]
advance_at-Awake q woken s e h = elim (Option-cases (find q.msg_type q.direction s.recorder)) [
  | inl n ↦ rw n (ground (arith, pending-none q s n))
  | inr (m, y) ↦ rw y tt
]
advance_at-Awake q checking s e h = elim (Bool-cases s.is_set) [ inl x ↦ rw x h | inr x ↦ rw x tt ]
advance_at-Awake q clearing s e h = ground arith
advance_at-Awake q (leaving result) s e h = tt
advance_at-Awake q (returned result) s e h = rw e tt

pending-recorded :
    (q : Query) (d : Direction) (t : String) (p : Payload) (peer : String) (now : ℕ) (s : Wait)
    → q.direction ≡ none
    → pending q (recorded q d t p peer now s) ≡ (pending q s || t == q.msg_type)
unfolding pending recorded matches
pending-recorded q d t p peer now s e =
    ground (arith, any-record_message d t p peer now s.recorder q.msg_type q.direction)

recorded-Awake :
    (q : Query) (d : Direction) (t : String) (p : Payload) (peer : String) (now : ℕ) (s : Wait)
    → q.direction ≡ none
    → IsAwake q s
    → IsAwake q (recorded q d t p peer now s)
recorded-Awake q d t p peer now s e h = rw (pending-recorded q d t p peer now s e) (
    unfold recorded in
    Awake-record s.phase s.registered s.is_set s.expired (pending q s) (t == q.msg_type) h)

advance-Awake : (q : Query) (s : Wait) → IsAwake q s → IsAwake q (advance q s)
unfolding advance
advance-Awake q s h = advance_at-Awake q s.phase s refl h

deadline-Awake : (q : Query) (s : Wait) → IsAwake q s → IsAwake q (record s { expired = true })
unfolding pending
deadline-Awake q s h = Awake-deadline s.phase s.registered s.is_set s.expired _ h

Reach-Awake :
    {q : Query} {clears : Bool} {s t : Wait}
    → q.direction ≡ none
    → clears ≡ false
    → IsAwake q s
    → Reach q clears s t
    → IsAwake q t
Reach-Awake e c h here = h
Reach-Awake {q} e c h (next r (waiter u)) = advance-Awake q u (Reach-Awake e c h r)
Reach-Awake {q} e c h (next r (other_records d t p peer now u)) =
    recorded-Awake q d t p peer now u e (Reach-Awake e c h r)
Reach-Awake e c h (next r (other_clears u on)) = absurd (false≢true (sym c ∙ on))
Reach-Awake {q} e c h (next r (deadline u)) = deadline-Awake q u (Reach-Awake e c h r)

begin-Awake : (q : Query) (r : MessageRecorder) → IsAwake q (begin r)
unfolding begin
begin-Awake q r = (refl, refl)

-- On a query with no direction, while no thread clears, and before the deadline: a `wait_for` that
-- blocks while a record that it looks for is there has its event set, so that it does not sleep on.
pub no_lost_wakeup :
    (q : Query) (r : MessageRecorder) (t : Wait)
    → q.direction ≡ none
    → Reach q false (begin r) t
    → t.phase ≡ waiting
    → t.expired ≡ false
    → pending q t ≡ true
    → t.is_set ≡ true
unfolding pending
no_lost_wakeup q r t e reach w x found =
    let h : Awake waiting t.registered t.is_set t.expired (pending q t) =
      rw w at (Reach-Awake e refl (begin-Awake q r) reach) in
    ground arith
