-- ===== src/Assertions/Rounds/Pings.antt =====
-- What `assert_ping_responded` of hivescope/assertions.py takes for a response.
use hivescope.Prelude.{ℕ, ◌≡◌, refl, true, Option, List, ◌∷◌}
use hivescope.Outcome.{ok}
use hivescope.Value.{is_null}
use hivescope.Recorder.{inbound, outbound, RecordedMessage}
use hivescope.Assertions.{HiveMessageType, MasterNode, SatelliteNode}
use hivescope.Assertions.Rounds.{pings, ping_flood_id, assert_ping_responded}

-- If the first PING or PROPAGATE that the satellite has sent carries no flood id, then any that came in passes
-- for the response, whatever probes with a flood id were sent after it and whatever ids came in; that of the
-- master may come from any peer.
pub unrelated_response :
    (types : HiveMessageType) (master : MasterNode) (satellite : SatelliteNode) (since : Option ℕ)
    (first r m : RecordedMessage) (probes rs ms : List RecordedMessage)
    → pings types outbound since satellite.recorder ≡ first ∷ probes
    → is_null (ping_flood_id first) ≡ true
    → pings types inbound since satellite.recorder ≡ r ∷ rs
    → pings types inbound since master.recorder ≡ m ∷ ms
    → assert_ping_responded types master satellite since ≡ ok tt
unfolding assert_ping_responded
unrelated_response types master satellite since first r m probes rs ms sent plain_id came reached =
    rw (sent, reached, came, plain_id) refl
