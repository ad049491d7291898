-- ===== src/Binary/Tests.antt =====
-- The recording handlers on a concrete call.
use hivescope.Prelude.{◌≡◌, some, []}
use hivescope.Value.{text}
use hivescope.Binary.{Handled, receive_file, call_of, handle, assert_called, last_call}
use hivescope.Binary.Calls.{calls-handle}

abbrev file : Handled
file = receive_file [] (text "a.wav") "p"

file_handled :
    (last_call "receive_file" (handle file []) ≡ some (call_of file))
    × (assert_called "receive_file" 1 (handle file []) ≡ assert_called "receive_file" 0 [])
unfolding call_of
file_handled = calls-handle "receive_file" file [] 0
