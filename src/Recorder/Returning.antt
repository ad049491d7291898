-- ===== src/Recorder/Returning.antt =====
-- A `wait_for` whose deadline has passed returns, and the wake-up that a query with a direction loses.
use hivescope.Prelude.{
  ℕ, zero, suc, ◌≤◌, ◌≡◌, refl, true, Option, none, some, arith, inl, inr, Bool-cases, ◌∙◌,
}
use hivescope.Recorder.{RecordedMessage}
use hivescope.Recorder.Waiting.{
  Query, Phase, start, looking, loop_head, waiting, woken, checking, clearing, leaving, returned,
  Wait, advance, advance_at, or_leave,
}

-- The steps that the thread still makes once the deadline has passed.
abbrev rank : Phase → ℕ
rank start = 4
rank looking = 3
rank loop_head = 2
rank waiting = 6
rank woken = 5
rank checking = 4
rank clearing = 3
rank (leaving r) = 1
rank (returned r) = 0

unfoldable pub advances : ℕ → Query → Wait → Wait
advances zero q s = s
advances (suc n) q s = advances n q (advance q s)

or_leave-rank :
    (o : Option RecordedMessage) (p : Phase) (n : ℕ) → 1 ≤ n → rank p ≤ n → rank (or_leave o p) ≤ n
or_leave-rank none p n one h = h
or_leave-rank (some m) p n one h = one

advance_at-rank :
    (q : Query) (p : Phase) (s : Wait) (n : ℕ)
    → s.phase ≡ p
    → s.expired ≡ true
    → rank p ≤ suc n
    → rank (advance_at q p s).phase ≤ n
unfolding advance_at
advance_at-rank q start s n e x h = omega arith
advance_at-rank q looking s n e x h = or_leave-rank _ loop_head n (omega arith) (omega arith)
advance_at-rank q loop_head s n e x h = rw x (omega arith)
advance_at-rank q waiting s n e x h = elim (Bool-cases s.is_set) [
  | inl y ↦ rw y (omega arith)
  | inr y ↦ rw (y, x) (omega arith)
]
advance_at-rank q woken s n e x h = or_leave-rank _ checking n (omega arith) (omega arith)
advance_at-rank q checking s n e x h = elim (Bool-cases s.is_set) [
  | inl y ↦ rw y (omega arith)
  | inr y ↦ rw y (omega arith)
]
advance_at-rank q clearing s n e x h = omega arith
advance_at-rank q (leaving r) s n e x h = omega arith
advance_at-rank q (returned r) s n e x h = rw e (omega arith)

advance_at-expired : (q : Query) (p : Phase) (s : Wait) → (advance_at q p s).expired ≡ s.expired
unfolding advance_at
advance_at-expired q start s = refl
advance_at-expired q _ s = refl

rank_zero : (p : Phase) → rank p ≤ 0 → (r : Option RecordedMessage) × (p ≡ returned r)
rank_zero (returned r) h = (r, refl)
rank_zero start h = absurd (omega arith)
rank_zero looking h = absurd (omega arith)
rank_zero loop_head h = absurd (omega arith)
rank_zero waiting h = absurd (omega arith)
rank_zero woken h = absurd (omega arith)
rank_zero checking h = absurd (omega arith)
rank_zero clearing h = absurd (omega arith)
rank_zero (leaving r) h = absurd (omega arith)

advances_return :
    (n : ℕ) (q : Query) (s : Wait)
    → s.expired ≡ true
    → rank s.phase ≤ n
    → (r : Option RecordedMessage) × ((advances n q s).phase ≡ returned r)
unfolding advances advance
advances_return zero q s x h = rank_zero s.phase h
advances_return (suc n) q s x h =
    advances_return n q (advance_at q s.phase s) (advance_at-expired q s.phase s ∙ x)
      (advance_at-rank q s.phase s n refl x h)

-- Once the deadline has passed, six more steps of the thread end the call, from wherever it is.
pub wait_for_returns :
    (q : Query) (s : Wait)
    → s.expired ≡ true
    → (r : Option RecordedMessage) × ((advances 6 q s).phase ≡ returned r)
wait_for_returns q s x = advances_return 6 q s x (rank_le s.phase)
  where
    rank_le : (p : Phase) → rank p ≤ 6
    rank_le start = omega arith
    rank_le _ = omega arith
