-- ===== src/Assertions/Verdicts.antt =====
-- How the counting helpers of hivescope/assertions.py follow the records and the connections.
use hivescope.Prelude.{
  ℕ, suc, ◌≡◌, refl, String, Bool, true, false, not, ◌&&◌, Option, none, some, [], ◌∷◌, ◌==◌,
  length-append, if◌then◌else◌, arith,
}
use hivescope.Outcome.{Outcome, ok, raise, assertion_error, require}
use hivescope.Value.{Payload}
use hivescope.Recorder.{Direction, inbound, MessageRecorder, record_message, find_all, matches}
use hivescope.Recorder.Lookup.{entry, find_all-record_message}
use hivescope.Assertions.{HiveMessageType, MasterNode, SatelliteNode, contains}
use hivescope.Assertions.Counts.{
  counts, assert_hello_received, assert_bus_message_routed, assert_escalate_delivered,
  assert_rendezvous_handled, assert_message_routed, assert_handshake_complete,
  assert_client_registered, assert_client_not_registered, connected_peers,
}

-- The master after one more inbound record.
abbrev pub hears : String → Payload → String → ℕ → MasterNode → MasterNode
hears t p peer now master = record master {
  recorder = record_message inbound t p peer now master.recorder;
}

counts-record_message :
    (d : Direction) (t : String) (p : Payload) (peer : String) (now : ℕ) (r : MessageRecorder)
    (msg_type : String) (direction : Option Direction) (count : ℕ)
    → counts (suc count) (find_all msg_type direction (record_message d t p peer now r)) ≡ (
        if matches msg_type direction (entry d t p peer now)
        then counts count (find_all msg_type direction r)
        else counts (suc count) (find_all msg_type direction r))
unfolding counts
counts-record_message d t p peer now r msg_type direction count = ground (
  arith,
  find_all-record_message d t p peer now r msg_type direction,
  length-append (find_all msg_type direction r) (entry d t p peer now ∷ []),
)

module _ (types : HiveMessageType) (t : String) (p : Payload) (peer : String) (now : ℕ)
    (master : MasterNode) (count : ℕ) where
  -- How a verdict on `count + 1` messages of a type follows from the verdicts before the record.
  abbrev pub Follows : String → (MasterNode → ℕ → Outcome (Unit {0})) → Type 0
  Follows msg_type check =
      check (hears t p peer now master) (suc count)
      ≡ (if t == msg_type then check master count else check master (suc count))

  -- When the master records one more inbound message, the counts that the checks for HELLO, BUS, ESCALATE
  -- and RENDEZVOUS accept grow by one for the message's own type and stay for the others; so does the
  -- count of `assert_message_routed` for any type, in the inbound direction.
  pub checks-Follows :
      (msg_type : String)
      → Follows types.hello (assert_hello_received types)
        × Follows types.bus (assert_bus_message_routed types)
        × Follows types.escalate (assert_escalate_delivered types)
        × Follows types.rendezvous (assert_rendezvous_handled types)
        × Follows msg_type (λ m n. assert_message_routed m.recorder msg_type n (some inbound))
  unfolding assert_hello_received assert_bus_message_routed assert_escalate_delivered
      assert_rendezvous_handled assert_message_routed matches
  checks-Follows msg_type = (
    heard types.hello (some inbound) (ground arith),
    heard types.bus (some inbound) (ground arith),
    heard types.escalate (some inbound) (ground arith),
    heard types.rendezvous none (ground arith),
    heard msg_type (some inbound) (ground arith),
  )
    where
      heard :
          (k : String) (d : Option Direction)
          → matches k d (entry inbound t p peer now) ≡ (t == k)
          → counts (suc count) (find_all k d (record_message inbound t p peer now master.recorder))
            ≡ (if t == k
                then counts count (find_all k d master.recorder)
                else counts (suc count) (find_all k d master.recorder))
      heard k d e = rw (← e) (counts-record_message inbound t p peer now master.recorder k d count)

verdict :
    (transport done known : Bool)
    → require (transport && (done && known)) assertion_error ≡ ok tt
    → (require known assertion_error ≡ ok tt)
      × (require (not known) assertion_error ≡ raise assertion_error)
      × (transport && done ≡ true)
verdict true true true h = (refl, refl, refl)
verdict true true false h = absurd (cc)
verdict true false known h = absurd (cc)
verdict false done known h = absurd (cc)

-- A satellite with a peer whose handshake check passes is registered for the one check on clients, and the
-- opposite check raises AssertionError; its transport and its handshake are there.
pub handshake_registered :
    (master : MasterNode) (satellite : SatelliteNode) (peer : String)
    → satellite.peer ≡ some peer
    → assert_handshake_complete master satellite ≡ ok tt
    → (assert_client_registered master peer ≡ ok tt)
      × (assert_client_not_registered master peer ≡ raise assertion_error)
      × (satellite.has_transport && satellite.handshake_done ≡ true)
unfolding assert_handshake_complete assert_client_registered assert_client_not_registered
handshake_registered master satellite peer named passed =
    verdict satellite.has_transport satellite.handshake_done
      (contains peer (connected_peers master)) (rw named at passed)
