-- ===== src/Node/Master/Tests.antt =====
-- A master with three peers, of which one refuses.
use Prim.Native.String.{◌++◌ as join}
use hivescope.Prelude.{◌≡◌, refl, String, none, List, [], ◌∷◌, ◌++◌, ◌==◌, if◌then◌else◌}
use hivescope.Outcome.{Outcome, ok, raise, runtime_error}
use hivescope.Node.Master.{text_frame, typed, frame_type, includes, starts_with, send_to_all}

-- The state is the list of the peers that were sent to.
abbrev conn_send : String → List String → List String × Outcome (Unit {0})
conn_send peer sent =
    if peer == "b" then (sent, raise runtime_error) else (sent ++ peer ∷ [], ok tt)

abbrev peers : List String
peers = "a" ∷ "b" ∷ "c" ∷ []

one_reached : send_to_all conn_send peers [] ≡ ("a" ∷ [], raise runtime_error)
unfolding send_to_all
one_reached = refl

labelled : frame_type (λ ns. none) (λ s. typed "bus") (text_frame "{\"msg_type\": \"bus\"}") ≡ "bus"
unfolding frame_type includes starts_with
labelled = refl

abbrev frame : String
frame = join "{\"utterance\": \"a " (join "ciphertext" "\"}")

-- A plain frame that mentions the word.
mislabelled : frame_type (λ ns. none) (λ s. typed "bus") (text_frame frame) ≡ "_encrypted"
unfolding frame_type includes starts_with
mislabelled = refl
