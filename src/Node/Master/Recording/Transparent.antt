-- ===== src/Node/Master/Recording/Transparent.antt =====
-- What recording changes, and what is recorded, in the masters of hivescope/node.py.
use hivescope.Prelude.{
  ℕ, zero, suc, ◌≡◌, refl, sym, ap, ◌∙◌, String, Bool-cases, inl, inr, Option, List, [], ◌∷◌, ◌++◌,
  append-nil, append_assoc, nat_eq,
}
use hivescope.Outcome.{Outcome}
use hivescope.Recorder.{RecordedMessage, outbound, record_message}
use hivescope.Node.Master.{
  Site, Frame, Parsed, frame_type, frame_payload, recording_send_msg, recording_handle,
  recording_inject,
}
use hivescope.Recorder.Lookup.{entry}
use hivescope.Node.Master.Recording.{
  Call, handle_message, handle_inject_agent_msg, handle_new_client, send_msg, Program, done, look,
  put, call, exec, Wired, site_state, with_state, send_through, instrumented, run_recorded,
}
use hivescope.Node.Master.Recording.Histories.{
  Plain, client_of, wrapped_in, copies, records_of, records_in, note, with_plain, site_of, bare,
}

abbrev with_records : {W : Type 0} → List RecordedMessage → Site W → Site W
with_records rs s = record s { recorder = record s.recorder { records = rs } }

abbrev extend : {W : Type 0} → List RecordedMessage → Site W → Site W
extend rs s = with_records (s.recorder.records ++ rs) s

-- Two machines that agree on the state and on what calls do agree on what a program does.
module _ {S T U : Type 0} (f : T → U) (read : U → S) (write : S → U → U) (read_t : T → S)
    (write_t : S → T → T) (enter : Call → U → U × Outcome (Unit {0}))
    (enter_t : Call → T → T × Outcome (Unit {0})) (reads : (t : T) → read (f t) ≡ read_t t)
    (writes : (x : S) (t : T) → write x (f t) ≡ f (write_t x t))
    (enters : (c : Call) (t : T) → enter c (f t) ≡ (f (enter_t c t).0, (enter_t c t).1)) where
  exec-map :
      (p : Program S) (t : T)
      → exec read write enter p (f t)
        ≡ (f (exec read_t write_t enter_t p t).0, (exec read_t write_t enter_t p t).1)
  unfolding exec
  exec-map (done o) t = refl
  exec-map (look k) t =
      ap (λ x. exec read write enter (k x) (f t)) (reads t) ∙ exec-map (k (read_t t)) t
  exec-map (put x p) t = ap (exec read write enter p) (writes x t) ∙ exec-map p (write_t x t)
  exec-map (call c k) t =
      ap (λ r. exec read write enter (k r.1) r.0) (enters c t)
      ∙ exec-map (k (enter_t c t).1) (enter_t c t).0

module _ {S : Type 0} (decode_bitstring : List ℕ → Option String) (json : String → Parsed)
    (peer : S → ℕ → String) (monotonic : S → ℕ) where
  send_through-extend :
      (original : Frame → String → Site (Wired S) → Site (Wired S) × Outcome (Unit {0})) (c : ℕ)
      (ds : List ℕ) (frame : Frame) (at : String) (now : ℕ) (s : Site (Wired S))
      → send_through decode_bitstring json peer monotonic original c ds frame at now s
        ≡ original frame at (
            extend
              (copies c ds (
                entry outbound
                  (frame_type decode_bitstring json frame)
                  (frame_payload frame)
                  at
                  now))
              s)
  unfolding send_through copies recording_send_msg record_message
  send_through-extend original c [] frame at now s = rw (append-nil s.recorder.records) refl
  send_through-extend original c (d ∷ ds) frame at now s =
      let sent =
        entry outbound (frame_type decode_bitstring json frame) (frame_payload frame) at now in
      elim (Bool-cases (nat_eq d c)) [
        | inl e ↦ rw e (
            send_through-extend original c ds frame at now (extend (sent ∷ []) s)
            ∙ ap (λ rs. original frame at (with_records rs s))
                (append_assoc s.recorder.records (sent ∷ []) (copies c ds sent)))
        | inr e ↦ rw e (send_through-extend original c ds frame at now s)
      ]

  abbrev site : String → List RecordedMessage → Plain S → Site (Wired S)
  site = site_of decode_bitstring json peer monotonic

  abbrev noted : Call → Plain S → Plain S
  noted = note decode_bitstring json peer monotonic

  -- The records that were there, then those of the call.
  site-noted :
      (c : Call) (name : String) (base : List RecordedMessage) (t : Plain S)
      → with_records
          (base
            ++ records_in decode_bitstring json peer monotonic t.history
            ++ records_of decode_bitstring json peer monotonic c
                (peer t.state (client_of c))
                (monotonic t.state)
                (wrapped_in t.history))
          (site name base (noted c t))
        ≡ site name base (noted c t)
  unfolding site_of records_in wrapped_in
  site-noted c name base t =
      ap (λ rs. with_records rs (site name base (noted c t)))
        (append_assoc base (records_in decode_bitstring json peer monotonic t.history) _)

  instrumented-note :
      (original : Call → Site (Wired S) → Site (Wired S) × Outcome (Unit {0})) (c : Call)
      (name : String) (base : List RecordedMessage) (t : Plain S)
      → instrumented decode_bitstring json peer monotonic original c (site name base t)
        ≡ original c (site name base (noted c t))
  unfolding instrumented recording_handle recording_inject record_message records_of site_of
      records_in wrapped_in
  instrumented-note original (handle_message m c) name base t =
      ap (original (handle_message m c)) (site-noted (handle_message m c) name base t)
  instrumented-note original (handle_inject_agent_msg m c) name base t =
      ap (original (handle_inject_agent_msg m c))
        (site-noted (handle_inject_agent_msg m c) name base t)
  instrumented-note original (handle_new_client c) name base t =
      ap
        (λ rs.
          original (handle_new_client c)
            (with_records rs (site name base (noted (handle_new_client c) t))))
        (sym (append-nil _))
      ∙ ap (original (handle_new_client c)) (site-noted (handle_new_client c) name base t)
  instrumented-note original (send_msg f c) name base t =
      send_through-extend _ c (wrapped_in t.history) f _ _ (site name base t)
      ∙ ap (original (send_msg f c)) (site-noted (send_msg f c) name base t)

  module _ (methods : Call → Program S) where
    -- The wrappers that record are transparent and complete. Whatever the methods of the listener do, however they
    -- call each other through the names that were replaced for recording, down to any depth, and whether or not
    -- they raise: the listener does and raises with these wrappers what it does and raises without them, and to
    -- the records that were there they add, in the order in which the calls were made, one for each
    -- `handle_message` and `handle_inject_agent_msg`, and one for each frame that is sent to a connection, for
    -- every time that `handle_new_client` was called with the connection before. The replacement of `send` by
    -- `_pumped_send` is not part of this.
    pub run_recorded-Transparent :
        (depth : ℕ) (c : Call) (name : String) (base : List RecordedMessage) (t : Plain S)
        → let (u, o) = bare decode_bitstring json peer monotonic methods depth c t in
          run_recorded decode_bitstring json peer monotonic methods depth c (site name base t)
          ≡ (site name base u, o)
    unfolding run_recorded bare site_of
    run_recorded-Transparent zero c name base t = refl
    run_recorded-Transparent (suc depth) c name base t =
        instrumented-note
          (λ d.
            exec site_state with_state
              (run_recorded decode_bitstring json peer monotonic methods depth) (methods d))
          c name base t
        ∙ exec-map (site name base) site_state with_state Plain.state with_plain
            (run_recorded decode_bitstring json peer monotonic methods depth)
            (bare decode_bitstring json peer monotonic methods depth) (λ v. refl) (λ x v. refl)
            (λ d v. run_recorded-Transparent depth d name base v) (methods c) (noted c t)
