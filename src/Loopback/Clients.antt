-- ===== src/Loopback/Clients.antt =====
-- The connections of hivescope/plugins/loopback.py: `_handle_client` and `_drain_clients`. A connection, its
-- socket and its handler's task share a number; a set is a list without repetition. The handler is cut
-- where it waits: one step up to its loop, one for each frame, and one for its end.
pub mod Lists
pub mod Sessions
mod Tests
pub mod Admitting
pub mod Registries
use Prim.Native.Char.{Char, code}
use Prim.Native.String.{[] as nil_text, ◌∷◌ as cons_text}
use hivescope.Prelude.{
  ℕ, suc, String, Bool, true, false, not, ◌&&◌, Option, none, some, List, [], ◌∷◌, ◌++◌, ◌==◌, any,
  filter, nat_eq, if◌then◌else◌,
}
use hivescope.Outcome.{Outcome, ok, raise}
use hivescope.Value.{Fields, end, field, dict, text, Payload, plain}
use hivescope.Recorder.{MessageRecorder, inbound, record_message}
use hivescope.Database.{Client, Database, get_client_by_api_key}
use hivescope.Node.{ConnectionArgs, connection_args}

-- s.split(c, 1), if it has two parts
unfoldable pub split_once : Char → String → Option (String × String)
split_once c nil_text = none
split_once c (cons_text d s) =
    let rest = split_once c s in
    if nat_eq (code c) (code d)
    then some ("", s)
    else elim rest [ none ↦ none | some (x, y) ↦ some (cons_text d x, y) ]

-- A handshake request: its path, and its Authorization header or "".
pub record Request : Type 0 where
  pub path : String
  pub authorization : String

-- `name and key` hold
abbrev pub complete : Option (String × String) → Bool
complete none = false
complete (some (name, key)) = not (name == "") && not (key == "")

abbrev pub or_keep : Option (String × String) → Option (String × String) → Option (String × String)
or_keep none q = q
or_keep (some p) q = some p

-- What becomes of a request: it is closed with a code, or a connection is made.
pub data Admission : Type 0 where
  closed : ℕ → Admission
  admitted : String → ConnectionArgs → Admission

-- `parse_qs` gives the first "authorization" of a query string; `b64decode` decodes base64 and UTF-8. None is
-- an exception, or nothing found.
module _ (parse_qs b64decode : String → Option String) where
  -- base64.b64decode(…).decode("utf-8").split(":", 1)
  unfoldable pub decoded : Option String → Option (String × String)
  unfolding split_once
  decoded none = none
  decoded (some b64) = elim (b64decode b64) [ none ↦ none | some s ↦ split_once ":" s ]

  unfoldable pub from_query : Request → Option (String × String)
  unfolding split_once decoded
  from_query r = elim (split_once "?" r.path) [
    | none ↦ none
    | some (path, query) ↦ if query == "" then none else decoded (parse_qs query)
  ]

  unfoldable pub from_header : Request → Option (String × String)
  unfolding split_once decoded
  from_header r = elim (split_once " " r.authorization) [
    | none ↦ none
    | some (scheme, b64) ↦ if scheme == "Basic" then decoded (some b64) else none
  ]

  -- The query first; the header only if that gives no name and key.
  unfoldable pub credentials : Request → Option (String × String)
  unfolding from_query from_header
  credentials r =
      let q = from_query r in let h = from_header r in if complete q then q else or_keep h q

  abbrev pub look_up : Database → Option (String × String) → Admission
  look_up db none = closed 1008
  look_up db (some (name, key)) =
      if complete (some (name, key))
      then elim (get_client_by_api_key key db) [
        | none ↦ closed 4001
        | some client ↦ admitted name (connection_args (λ c. c) key client)
      ]
      else closed 1008

  -- `db` is None when no protocol is configured.
  unfoldable pub admit : Option Database → Request → Admission
  unfolding credentials
  admit none r = closed 1011
  admit (some db) r = look_up db (credentials r)

-- What `hm_protocol` is told of a connection.
pub data Call : Type 0 where
  handle_new_client handle_message handle_client_disconnected : ℕ → Call

-- `running` are the handlers that wait for a frame; `calls` is the history of the protocol.
pub record Server : Type 0 where
  pub clients : List ℕ
  pub sockets : List ℕ
  pub handler_tasks : List ℕ
  pub running : List ℕ
  pub next_conn : ℕ
  pub recorder : Option MessageRecorder
  pub calls : List Call

unfoldable pub init : Option MessageRecorder → Server
init recorder = record {
  clients = [];
  sockets = [];
  handler_tasks = [];
  running = [];
  next_conn = 0;
  recorder = recorder;
  calls = [];
}

unfoldable pub member : ℕ → List ℕ → Bool
member i xs = any (nat_eq i) xs

-- xs.remove(i), xs.discard(i)
unfoldable pub remove : ℕ → List ℕ → List ℕ
remove i [] = []
remove i (x ∷ xs) = let rest = remove i xs in if nat_eq i x then xs else x ∷ rest

abbrev pub told : Call → Server → Server
told c s = record s { calls = s.calls ++ c ∷ [] }

-- The finally block. An exception of `handle_client_disconnected` skips what follows it.
unfoldable pub finish : ℕ → Outcome (Unit {0}) → Server → Server
unfolding remove
finish i (ok u) s = record s {
  running = remove i s.running;
  clients = remove i s.clients;
  sockets = remove i s.sockets;
  handler_tasks = remove i s.handler_tasks;
  calls = s.calls ++ handle_client_disconnected i ∷ [];
}
finish i (raise e) s =
    told (handle_client_disconnected i) (record s { running = remove i s.running })

abbrev pub after_new : ℕ → Outcome (Unit {0}) → Outcome (Unit {0}) → Server → Server
after_new i (ok u) gone s = s
after_new i (raise e) gone s = finish i gone s

-- From the connection object to the loop; an exception of `handle_new_client` leads to the finally block.
unfoldable pub enter : Outcome (Unit {0}) → Outcome (Unit {0}) → Server → Server
unfolding finish
enter new gone s =
    let i = s.next_conn in
    after_new i new gone (record s {
      clients = s.clients ++ i ∷ [];
      sockets = s.sockets ++ i ∷ [];
      handler_tasks = s.handler_tasks ++ i ∷ [];
      running = s.running ++ i ∷ [];
      next_conn = suc i;
      calls = s.calls ++ handle_new_client i ∷ [];
    })

-- A frame: it is not decoded, or the protocol handles it, with an exception or not. `error` is its text.
pub data Frame : Type 0 where
  undecodable fails_in_handler : (error : String) → Frame
  handled : Frame

-- self.recorder.record("in", "_decode_error", …), with a recorder
abbrev pub record_error :
    (name peer error : String) → ℕ → Option MessageRecorder → Option MessageRecorder
record_error name peer error now none = none
record_error name peer error now (some r) =
    let payload : Fields = field "error" (text error) (field "client" (text name) end) in
    some (record_message inbound "_decode_error" (plain (dict payload)) peer now r)

abbrev pub failed : (name peer error : String) → ℕ → Server → Server
failed name peer error now s = record s { recorder = record_error name peer error now s.recorder }

unfoldable pub on_frame : (name peer : String) → ℕ → ℕ → Frame → Server → Server
on_frame name peer now i (undecodable error) s = failed name peer error now s
on_frame name peer now i (fails_in_handler error) s =
    failed name peer error now (told (handle_message i) s)
on_frame name peer now i handled s = told (handle_message i) s

-- What happens on the server's loop: a connection is admitted, a running handler gets a frame, or its socket
-- closes, its connection fails or its task is cancelled. `gone` is what `handle_client_disconnected` does.
pub data Event : Type 0 where
  arrives : (new gone : Outcome (Unit {0})) → Event
  receives : (name peer : String) (now i : ℕ) → Frame → Event
  ends : ℕ → (gone : Outcome (Unit {0})) → Event

unfoldable pub step : Event → Server → Server
unfolding enter on_frame finish member
step (arrives new gone) s = enter new gone s
step (receives name peer now i frame) s =
    if member i s.running then on_frame name peer now i frame s else s
step (ends i gone) s = if member i s.running then finish i gone s else s

unfoldable pub serve : List Event → Server → Server
unfolding step
serve [] s = s
serve (e ∷ es) s = serve es (step e s)

-- What `_drain_clients` leaves, the sockets that it closes, and the tasks that it cancels.
pub record Drained : Type 0 where
  pub left : Server
  pub closed_sockets : List ℕ
  pub cancelled : List ℕ

-- `closing` is what happens on the loop while each close of a socket is awaited, returned or raised, and
-- `waiting` what happens while the tasks are awaited, up to the end of the last of them or of the grace.
unfoldable pub drain_clients : (closing waiting : List Event) → Server → Drained
unfolding serve member
drain_clients closing waiting s =
    let t = serve closing s in
    let tasks = filter (λ i. member i t.running) t.handler_tasks in
    let u = serve waiting t in
    record {
      left = u;
      closed_sockets = s.sockets;
      cancelled = filter (λ i. member i u.running) tasks;
    }
