-- ===== src/Samples.antt =====
-- Data for the tests of several components.
use hivescope.Prelude.{[]}
use hivescope.Assertions.{HiveMessageType}

-- Message types with distinct values.
abbrev pub types : HiveMessageType
types = record {
  handshake = "shake";
  hello = "hello";
  bus = "bus";
  shared_bus = "shared_bus";
  broadcast = "broadcast";
  propagate = "propagate";
  escalate = "escalate";
  intercom = "intercom";
  binary = "bin";
  ping = "ping";
  query = "query";
  cascade = "cascade";
  rendezvous = "rendezvous";
  others = [];
}
