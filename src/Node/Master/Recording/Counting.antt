-- ===== src/Node/Master/Recording/Counting.antt =====
-- What `assert_received` of hivescope/recorder.py says of a master of hivescope/node.py.
use hivescope.Prelude.{
  ℕ, ◌+◌, ◌≡◌, refl, ap, ◌∙◌, String, Bool, false, ◌&&◌, Bool-cases, inl, inr, Option, some, List,
  [], ◌∷◌, nat_eq, if◌then◌else◌, ◌==◌, filter, length, filter-append, length-append, arith,
}
use hivescope.Outcome.{require, assertion_error}
use hivescope.Recorder.{
  Direction, inbound, outbound, bus_inject, eq_direction, RecordedMessage, matches, find_all,
  assert_received,
}
use hivescope.Node.Master.{Parsed}
use hivescope.Node.Master.Recording.{
  Call, handle_message, handle_inject_agent_msg, handle_new_client, send_msg, Program, run_recorded,
}
use hivescope.Node.Master.Recording.Histories.{
  Plain, Event, wrapped_in, copies, records_of, records_in, site_of, bare,
}
use hivescope.Node.Master.Recording.Transparent.{run_recorded-Transparent}

-- Whether a call is one that comes in, or one that injects, with this type.
abbrev pub is_call : Direction → String → Call → Bool
is_call d msg_type (handle_message m c) = m.msg_type == msg_type && eq_direction d inbound
is_call d msg_type (handle_inject_agent_msg m c) =
    m.msg_type == msg_type && eq_direction d bus_inject
is_call d msg_type (handle_new_client c) = false
is_call d msg_type (send_msg f c) = false

unfoldable pub calls : Direction → String → List Event → ℕ
calls d msg_type [] = 0
calls d msg_type (e ∷ h) = calls d msg_type h + (if is_call d msg_type e.made then 1 else 0)

copies-filter :
    (p : RecordedMessage → Bool) (c : ℕ) (cs : List ℕ) (r : RecordedMessage)
    → p r ≡ false
    → filter p (copies c cs r) ≡ []
unfolding copies filter
copies-filter p c [] r h = refl
copies-filter p c (d ∷ ds) r h = ground (arith, copies-filter p c ds r h, h)

-- A record that matches or not, alone.
alone-count :
    (p : RecordedMessage → Bool) (r : RecordedMessage)
    → length (filter p (r ∷ [])) ≡ (if p r then 1 else 0)
unfolding filter
alone-count p r = elim (Bool-cases (p r)) [ inl e ↦ rw e refl | inr e ↦ rw e refl ]

module _ {S : Type 0} (decode_bitstring : List ℕ → Option String) (json : String → Parsed)
    (peer : S → ℕ → String) (monotonic : S → ℕ) (d : Direction) (msg_type : String)
    (not_out : eq_direction d outbound ≡ false) where
  records_of-count :
      (made : Call) (at : String) (time : ℕ) (cs : List ℕ)
      → length (
          filter
            (matches msg_type (some d))
            (records_of decode_bitstring json peer monotonic made at time cs))
        ≡ (if is_call d msg_type made then 1 else 0)
  unfolding records_of filter matches
  records_of-count (handle_message m c) at time cs = alone-count (matches msg_type (some d)) _
  records_of-count (handle_inject_agent_msg m c) at time cs =
      alone-count (matches msg_type (some d)) _
  records_of-count (handle_new_client c) at time cs = refl
  records_of-count (send_msg f c) at time cs = ap length (copies-filter _ c cs _ (ground (arith)))

  records_in-count :
      (h : List Event)
      → length
          (filter (matches msg_type (some d)) (records_in decode_bitstring json peer monotonic h))
        ≡ calls d msg_type h
  unfolding records_in calls filter
  records_in-count [] = refl
  records_in-count (e ∷ h) =
      let keep = matches msg_type (some d) in
      let new =
        records_of decode_bitstring json peer monotonic e.made e.peer e.time (wrapped_in h) in
      ap length (filter-append keep (records_in decode_bitstring json peer monotonic h) new)
      ∙ length-append (filter keep (records_in decode_bitstring json peer monotonic h))
          (filter keep new)
      ∙ rw (records_in-count h, records_of-count e.made e.peer e.time (wrapped_in h)) refl

  abbrev fresh : S → Plain S
  fresh state = record { state = state; history = [] }

  module _ (methods : Call → Program S) where
    -- On a master whose recorder is empty, and which nothing has called: after a call of one of its methods, and
    -- of whatever these call, `assert_received` for the direction "in", or "bus_inject", accepts exactly the
    -- number of times that `handle_message`, or `handle_inject_agent_msg`, was called with the type.
    pub assert_received-run_recorded :
        (depth : ℕ) (c : Call) (name : String) (state : S) (count : ℕ)
        → let start = fresh state in
          let (left, o) =
            run_recorded decode_bitstring json peer monotonic methods depth c
              (site_of decode_bitstring json peer monotonic name [] start) in
          let (after, o') = bare decode_bitstring json peer monotonic methods depth c start in
          assert_received msg_type count (some d) left.recorder
          ≡ require (nat_eq (calls d msg_type after.history) count) assertion_error
    unfolding assert_received find_all site_of
    assert_received-run_recorded depth c name state count =
        ap (λ r. assert_received msg_type count (some d) (r.0).recorder)
          (run_recorded-Transparent decode_bitstring json peer monotonic methods depth c name []
            (fresh state))
        ∙ ap (λ n. require (nat_eq n count) assertion_error) (records_in-count _)
