-- ===== src/Binary.antt =====
-- hivescope/plugins/binary.py: `TestBinaryProtocol`. A handler's call is appended to `calls`. The
-- members of HiveMindBinaryPayloadType (hivemind_bus_client) are known by their names.
pub mod Calls
mod Tests
use hivescope.Prelude.{
  ℕ, String, Bool, true, false, Option, none, some, List, [], ◌∷◌, ◌++◌, ◌==◌, nat_eq, length,
  filter, last?, is_empty,
}
use hivescope.Outcome.{Outcome, require, assertion_error}
use hivescope.Value.{Value, Fields, end, field, text}

pub record BinaryCall : Type 0 where
  pub handler : String
  pub content : List ℕ
  pub meta : Fields
  pub bin_type : Option String

-- A call of a handler by hivemind-core, for the client with the peer id `peer`.
pub data Handled : Type 0 where
  microphone_input :
      (bin_data : List ℕ) (sample_rate sample_width : Value) (peer : String) → Handled
  stt_transcribe_request stt_handle_request :
      (bin_data : List ℕ) (sample_rate sample_width lang : Value) (peer : String) → Handled
  numpy_image : (bin_data : List ℕ) (camera_id : Value) (peer : String) → Handled
  receive_tts : (bin_data : List ℕ) (utterance lang file_name : Value) (peer : String) → Handled
  receive_file : (bin_data : List ℕ) (file_name : Value) (peer : String) → Handled

unfoldable pub call_of : Handled → BinaryCall
call_of (microphone_input d r w p) = record {
  handler = "microphone_input";
  content = d;
  meta = field "sample_rate" r (field "sample_width" w (field "peer" (text p) end));
  bin_type = some "RAW_AUDIO";
}
call_of (stt_transcribe_request d r w l p) = record {
  handler = "stt_transcribe";
  content = d;
  meta =
      field "lang" l (field "sample_rate" r (field "sample_width" w (field "peer" (text p) end)));
  bin_type = some "STT_AUDIO_TRANSCRIBE";
}
call_of (stt_handle_request d r w l p) = record {
  handler = "stt_handle";
  content = d;
  meta =
      field "lang" l (field "sample_rate" r (field "sample_width" w (field "peer" (text p) end)));
  bin_type = some "STT_AUDIO_HANDLE";
}
call_of (numpy_image d c p) = record {
  handler = "numpy_image";
  content = d;
  meta = field "camera_id" c (field "peer" (text p) end);
  bin_type = none;
}
call_of (receive_tts d u l f p) = record {
  handler = "receive_tts";
  content = d;
  meta = field "utterance" u (field "lang" l (field "file_name" f (field "peer" (text p) end)));
  bin_type = none;
}
call_of (receive_file d f p) = record {
  handler = "receive_file";
  content = d;
  meta = field "file_name" f (field "peer" (text p) end);
  bin_type = none;
}

unfoldable pub handle : Handled → List BinaryCall → List BinaryCall
unfolding call_of
handle h calls = calls ++ call_of h ∷ []

unfoldable pub calls_of : String → List BinaryCall → List BinaryCall
calls_of handler calls = filter (λ c. c.handler == handler) calls

unfoldable pub assert_called : String → ℕ → List BinaryCall → Outcome (Unit {0})
unfolding calls_of
assert_called handler count calls =
    require (nat_eq (length (calls_of handler calls)) count) assertion_error

unfoldable pub last_call : String → List BinaryCall → Option BinaryCall
unfolding calls_of
last_call handler calls = last? (calls_of handler calls)

unfoldable pub assert_not_called : String → List BinaryCall → Outcome (Unit {0})
unfolding calls_of
assert_not_called handler calls = require (is_empty (calls_of handler calls)) assertion_error

unfoldable pub clear : List BinaryCall → List BinaryCall
clear calls = []
