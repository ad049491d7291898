-- ===== src/Lib.antt =====
-- hivescope: an in-process test harness for HiveMind (hivescope/).
--
-- A master node and its satellites run in one process. A satellite's `send` and a master's `send`
-- reach the other side through a delivery pump instead of a socket; every message that goes in, out or
-- onto the agent bus is appended to the recorder of its node; the assertion helpers read the recorders.
-- The master looks its clients up in an in-memory database and hands binary payloads to a recording
-- protocol; the agent protocol records what its bus emits and routes messages of the bus back to the
-- satellites; a loopback protocol serves real WebSocket clients. A builder wires nodes into a topology,
-- the scenarios are programs of builder calls, and a plot draws what was built. Two pytest hooks redirect
-- the XDG directories of a session.
--
-- The parts and their modules:
--   Value       Python values (JSON and bytes), their truth, equality and order
--   Outcome     a call's result: a value, or the class of its exception
--   Dict        a dict with text keys, in insertion order
--   Decimal     `str` of a natural number, as the names of the scenarios need it
--   Recorder    hivescope/recorder.py, MessageRecorder: `record` is `record_message`, `_find` is `find`;
--               Recorder/Waiting is `wait_for` as a thread among others, one step of it per phase
--   Pump        hivescope/node.py, _deliver and _pumped_send: `deliver`, `drain`, `pumped_send`
--   Database    hivescope/database.py, InMemoryClientDatabase: its methods under their names;
--               Database/History compares series of calls with a table, a function from keys to rows
--   Binary      hivescope/plugins/binary.py: `handle` appends the `BinaryCall` of a handler
--   Agent       hivescope/plugins/agent.py: handle_send, handle_internal_mycroft and the assertions;
--               Agent/Bus is __post_init__ with its emit wrapper, and shutdown; Agent/Query is
--               natural_language_query on the messages that come while it waits; Agent/Skills is
--               hivescope/plugins/ovoscope_agent.py, its __post_init__ as `make_agent`
--   Loopback    hivescope/plugins/loopback.py: run, stop, url and _LIVE_FLOORS; Loopback/Clients is
--               _handle_client, cut where it waits, and _drain_clients; Loopback/Sender is its sender task;
--               Loopback/Threads is run and stop beside the thread of _run_server, step by step
--   Node        hivescope/node.py, SatelliteNode, and hivescope/plugins/network.py, connect_satellite: a
--               private method stands under its name without the underscore; Node/Master is
--               _instrument_master and what a MasterNode sends, Node/Master/Recording those of its
--               wrappers that record, around methods that call each other, at most `depth` calls
--               deep; its `_pumped_send` is in Pump; Node/Shim is
--               InProcessHiveShim and SatelliteNode.create, Node/Creating is MasterNode.create
--   Topology    hivescope/topology.py, TopologyBuilder: add_*, get_*, start_all, stop_all; Topology/Wiring
--               and Topology/Building hold the invariant of the builder calls;
--               Topology/Teardown is stop_all with what it releases, Topology.stop_all its connections
--   Scenarios   hivescope/scenarios.py: each scenario as the builder calls that it makes
--   Plot        hivescope/topology_plot.py: names, nodes and edges of the graph of a builder, and in
--               Plot/Discovery of what a mapper discovered; in Plot/Drawing the layout of the
--               graphs and which figures are saved
--   Identity    hivescope/utils.py: make_identity and remove_identity_tmpdir on the temporary folder
--   Fixtures    hivescope/pytest_fixtures.py: the builder calls of the fixtures
--   Isolation   hivescope/xdg_isolation.py: the hooks on the environment
--   Assertions  hivescope/assertions.py: Counts (with Verdicts), Policy (with Typed and Echoes), Blacklists, Rounds and
--               Bridge hold its helpers
--
-- State is a record that an operation takes and returns; errors are values of `Outcome`. The helpers that
-- wait take the snapshot that their wait leaves, or the record that it returned.
--
-- The pump's functions run on fuel, one unit per step of a loop or a body; fuel above the total weight of
-- what is queued is enough, where a weight is any measure that is larger for an action than for all that
-- it sets off. `decimal n` has n + 1 units of fuel, one per digit; the number is read back from it.
-- `wait_for` is a step relation and has no fuel; the helpers of Agent/Skills that poll recurse on the pauses
-- between their looks.
--
-- Parameters stand for code outside the repository: the values of HiveMessageType, the constructors of
-- Client and HiveMessage, `str` of a value, what a network protocol's `run`, a handshake and a disconnection come to,
-- decoding, base64 and query strings, the handlers of a message, and the body of an action (what
-- hivemind-core and hivemind-bus-client do on a delivery). Time is counted in ticks; floating-point numbers and
-- the texts of exceptions are left out.
-- In Loopback/Threads one thread calls the instance, and a step is as long as the two threads cannot see
-- its parts. Identity counts directories by their paths, Topology/Teardown by the nodes they belong to.
-- Not modelled: sockets and the inside of the event loop, the handshake and its encryption, what
-- networkx and matplotlib draw, MiniCroft and its capture sessions.
pub mod Prelude
pub mod Outcome
pub mod Value
pub mod Decimal
pub mod Scenarios
pub mod Identity
pub mod Isolation
pub mod Plot
pub mod Fixtures
pub mod Dict
pub mod Recorder
pub mod Database
pub mod Binary
pub mod Assertions
pub mod Samples
pub mod Loopback
pub mod Agent
pub mod Pump
pub mod Topology
pub mod Node
