-- ===== src/Node/Master/Labels.antt =====
-- The types under which a master of hivescope/node.py records what it sends.
use Prim.Native.Char.{code}
use Prim.Native.String.{◌++◌ as join, [] as nil_text, ◌∷◌ as cons_text}
use package.text.Mathlib.TextLemmas.{nil-append, cons-append}
use hivescope.Prelude.{
  ℕ, ◌≡◌, refl, ap, ◌∙◌, String, Bool, true, false, ◌||◌, Option, List, arith, nat_eq_iff,
}
use hivescope.Outcome.{Outcome}
use hivescope.Value.{plain, text}
use hivescope.Recorder.{outbound, record_message}
use hivescope.Node.Master.{
  Site, Frame, text_frame, Parsed, starts_with, includes, frame_type, recording_send_msg,
}

or_right : (a b : Bool) → b ≡ true → (a || b) ≡ true
or_right true b h = refl
or_right false b h = h

starts_with-join : (part s : String) → starts_with part (join part s) ≡ true
unfolding starts_with
starts_with-join nil_text s = refl
starts_with-join (cons_text c part) s =
    ap (starts_with (cons_text c part)) (cons-append c part s)
    ∙ rw (starts_with-join part s) (ground (arith, nat_eq_iff (code c) (code c)))

includes-start : (part s : String) → starts_with part s ≡ true → includes part s ≡ true
unfolding includes
includes-start part nil_text h = h
includes-start part (cons_text c s) h = rw h refl

includes-join : (before part after : String) → includes part (join before (join part after)) ≡ true
unfolding includes
includes-join nil_text part after =
    ap (includes part) (nil-append (join part after))
    ∙ includes-start part (join part after) (starts_with-join part after)
includes-join (cons_text c before) part after =
    ap (includes part) (cons-append c before (join part after))
    ∙ or_right _ _ (includes-join before part after)

-- A frame in plain text that has the word "ciphertext" anywhere, in an utterance for instance, is recorded as
-- "_encrypted", whatever type it has, and then sent.
recorded_as_encrypted :
    {S : Type 0} (decode_bitstring : List ℕ → Option String) (json : String → Parsed)
    (send_msg : Frame → String → Site S → Site S × Outcome (Unit {0})) (before after peer : String)
    (now : ℕ) (s : Site S)
    → let frame = join before (join "ciphertext" after) in
      recording_send_msg decode_bitstring json send_msg (text_frame frame) peer now s
      ≡ send_msg (text_frame frame) peer (record s {
        recorder = record_message outbound "_encrypted" (plain (text frame)) peer now s.recorder;
      })
unfolding recording_send_msg frame_type
recorded_as_encrypted decode_bitstring json send_msg before after peer now s =
    rw (includes-join before "ciphertext" after) refl
