-- ===== src/Recorder/Wakeups.antt =====
-- What every run of `wait_for` keeps, whatever the other threads do.
use hivescope.Prelude.{
  ◌≡◌, refl, Bool, true, false, ◌||◌, ◌&&◌, Option, none, some, ◌==◌, arith, inl, inr, Option-cases,
  Bool-cases,
}
use hivescope.Recorder.{RecordedMessage, MessageRecorder, find, matches}
use hivescope.Recorder.Lookup.{find-matches}
use hivescope.Recorder.Waiting.{
  Query, Phase, start, looking, loop_head, waiting, woken, checking, clearing, leaving, returned,
  Wait, begin, advance, advance_at, recorded, waiter, other_records, other_clears, deadline, Reach,
  here, next, or_leave,
}

-- The result so far is a record that the call asked for.
abbrev GoodResult : Query → Option RecordedMessage → Type 0
GoodResult q none = Unit
GoodResult q (some m) = matches q.msg_type q.direction m ≡ true

-- The event is registered from the first step to the last, and a result is a matching record.
abbrev Sound : Query → Bool → Phase → Type 0
Sound q registered start = registered ≡ false
Sound q registered (leaving result) = (registered ≡ true) × GoodResult q result
Sound q registered (returned result) = (registered ≡ false) × GoodResult q result
Sound q registered _ = registered ≡ true

or_leave-Sound :
    (q : Query) (r : MessageRecorder) (p : Phase)
    → Sound q true p
    → Sound q true (or_leave (find q.msg_type q.direction r) p)
or_leave-Sound q r p h = elim (Option-cases (find q.msg_type q.direction r)) [
  | inl e ↦ rw e h
  | inr (m, e) ↦ rw e (refl, find-matches q.msg_type q.direction r m e)
]

advance_at-Sound :
    (q : Query) (p : Phase) (s : Wait)
    → s.phase ≡ p
    → Sound q s.registered p
    → Sound q (advance_at q p s).registered (advance_at q p s).phase
unfolding advance_at
advance_at-Sound q start s e h = refl
advance_at-Sound q looking s e h = rw h (or_leave-Sound q s.recorder loop_head refl)
advance_at-Sound q loop_head s e h = elim (Bool-cases s.expired) [
  | inl x ↦ rw x (h, tt)
  | inr x ↦ rw x h
]
advance_at-Sound q waiting s e h = elim (Bool-cases (s.is_set || s.expired)) [
  | inl x ↦ rw x h
  | inr x ↦ rw x h
]
advance_at-Sound q woken s e h = rw h (or_leave-Sound q s.recorder checking refl)
advance_at-Sound q checking s e h = elim (Bool-cases s.is_set) [
  | inl x ↦ rw x h
  | inr x ↦ rw x (h, tt)
]
advance_at-Sound q clearing s e h = h
advance_at-Sound q (leaving result) s e h = (refl, h.1)
advance_at-Sound q (returned result) s e h = rw e h

Reach-Sound :
    {q : Query} {clears : Bool} {s t : Wait}
    → Sound q s.registered s.phase
    → Reach q clears s t
    → Sound q t.registered t.phase
unfolding advance recorded
Reach-Sound h here = h
Reach-Sound {q} h (next r (waiter u)) = advance_at-Sound q u.phase u refl (Reach-Sound h r)
Reach-Sound h (next r (other_records d t p peer now u)) = Reach-Sound h r
Reach-Sound h (next r (other_clears u c)) = Reach-Sound h r
Reach-Sound h (next r (deadline u)) = Reach-Sound h r

-- Whatever the other threads do, a `wait_for` that returns a record returns one of the type and the
-- direction asked for, and it has taken its event off the waiters.
pub wait_for_sound :
    (q : Query) (clears : Bool) (r : MessageRecorder) (t : Wait) (m : RecordedMessage)
    → Reach q clears (begin r) t
    → t.phase ≡ returned (some m)
    → (matches q.msg_type q.direction m ≡ true) × (t.registered ≡ false)
unfolding begin
wait_for_sound q clears r t m reach e =
    let h : Sound q t.registered (returned (some m)) = rw e at (Reach-Sound refl reach) in
    (h.1, h.0)

-- None stands for the deadline only: the call gives up when it has passed.
abbrev Timely : Phase → (is_set expired : Bool) → Type 0
Timely woken is_set expired = is_set || expired ≡ true
Timely checking is_set expired = is_set || expired ≡ true
Timely (leaving none) is_set expired = expired ≡ true
Timely (returned none) is_set expired = expired ≡ true
Timely _ is_set expired = Unit

Timely-set :
    (p : Phase) (is_set expired more : Bool)
    → Timely p is_set expired
    → Timely p (is_set || more) expired
Timely-set woken is_set expired more h = ground arith
Timely-set checking is_set expired more h = ground arith
Timely-set (leaving none) is_set expired more h = h
Timely-set (returned none) is_set expired more h = h
Timely-set _ is_set expired more h = tt

Timely-late : (p : Phase) (is_set expired : Bool) → Timely p is_set expired → Timely p is_set true
Timely-late woken is_set expired h = ground arith
Timely-late checking is_set expired h = ground arith
Timely-late (leaving none) is_set expired h = refl
Timely-late (returned none) is_set expired h = refl
Timely-late _ is_set expired h = tt

or_leave-Timely :
    (o : Option RecordedMessage) (p : Phase) (is_set expired : Bool)
    → Timely p is_set expired
    → Timely (or_leave o p) is_set expired
or_leave-Timely none p is_set expired h = h
or_leave-Timely (some m) p is_set expired h = tt

advance_at-Timely :
    (q : Query) (p : Phase) (s : Wait)
    → s.phase ≡ p
    → Timely p s.is_set s.expired
    → Timely (advance_at q p s).phase (advance_at q p s).is_set (advance_at q p s).expired
unfolding advance_at
advance_at-Timely q start s e h = tt
advance_at-Timely q looking s e h = or_leave-Timely _ loop_head s.is_set s.expired tt
advance_at-Timely q loop_head s e h = elim (Bool-cases s.expired) [
  | inl x ↦ rw x refl
  | inr x ↦ rw x tt
]
advance_at-Timely q waiting s e h = elim (Bool-cases (s.is_set || s.expired)) [
  | inl x ↦ rw x x
  | inr x ↦ rw x tt
]
advance_at-Timely q woken s e h = or_leave-Timely _ checking s.is_set s.expired h
advance_at-Timely q checking s e h = elim (Bool-cases s.is_set) [
  | inl x ↦ rw x tt
  | inr x ↦ rw x (ground arith)
]
advance_at-Timely q clearing s e h = tt
advance_at-Timely q (leaving none) s e h = h
advance_at-Timely q (leaving (some m)) s e h = tt
advance_at-Timely q (returned result) s e h = rw e h

Reach-Timely :
    {q : Query} {clears : Bool} {s t : Wait}
    → Timely s.phase s.is_set s.expired
    → Reach q clears s t
    → Timely t.phase t.is_set t.expired
unfolding advance recorded
Reach-Timely h here = h
Reach-Timely {q} h (next r (waiter u)) = advance_at-Timely q u.phase u refl (Reach-Timely h r)
Reach-Timely {q} h (next r (other_records d t p peer now u)) =
    Timely-set u.phase u.is_set u.expired (u.registered && t == q.msg_type) (Reach-Timely h r)
Reach-Timely h (next r (other_clears u c)) = Reach-Timely h r
Reach-Timely h (next r (deadline u)) = Timely-late u.phase u.is_set u.expired (Reach-Timely h r)

-- Whatever the other threads do, a `wait_for` that returns None does so after its deadline.
none_after_deadline :
    (q : Query) (clears : Bool) (r : MessageRecorder) (t : Wait)
    → Reach q clears (begin r) t
    → t.phase ≡ returned none
    → t.expired ≡ true
unfolding begin
none_after_deadline q clears r t reach e =
    let h : Timely (returned none) t.is_set t.expired = rw e at (Reach-Timely tt reach) in h
