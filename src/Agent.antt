-- ===== src/Agent.antt =====
-- hivescope/plugins/agent.py: `TestAgentProtocol`. A connected client is its peer id, in the order of
-- `clients`; what a handler does is the list of its sends and emissions. `Message` and `HiveMessage` are
-- known by the attributes that the handlers read and write.
pub mod Routing
pub mod Bus
pub mod Query
pub mod Skills
mod Tests
use hivescope.Prelude.{
  ℕ, String, Bool, true, false, not, ◌&&◌, ◌||◌, Option, none, some, List, [], ◌∷◌, ◌++◌, ◌==◌,
  nat_eq, any, filter, last?, length, is_empty, map, if◌then◌else◌,
}
use hivescope.Outcome.{
  Outcome, ok, raise, key_error, type_error, assertion_error, ◌>>=◌, or_raise, require,
}
use hivescope.Value.{
  Value, null, bool, int, text, bytes, arr, dict, Items, nil, cons, Fields, end, field, lookup, get,
  truthy, is_text, or_else,
}
use hivescope.Assertions.{HiveMessageType}

pub record Message : Type 0 where
  pub msg_type : String
  pub content : Fields
  pub context : Fields

pub data HivePayload : Type 0 where
  raw : Value → HivePayload
  bus_message : Message → HivePayload

pub record HiveMessage : Type 0 where
  pub msg_type : Value
  pub source_peer : Option String
  pub target_peers : Items
  pub payload : HivePayload

pub data Effect : Type 0 where
  send : String → HiveMessage → Effect
  -- bus.emit(message.forward(msg_type, data))
  emit : String → Fields → Effect

-- context["source"] = "hive"
unfoldable pub set_field : String → Value → Fields → Fields
set_field k v end = field k v end
set_field k v (field j w fs) =
    let rest = set_field k v fs in if j == k then field j v fs else field j w rest

-- v if isinstance(v, list) else [v]
abbrev pub as_list : Value → Items
as_list (arr vs) = vs
as_list v = cons v nil

-- peer in target_peers
unfoldable pub listed : String → Items → Bool
listed peer nil = false
listed peer (cons v vs) = is_text peer v || listed peer vs

-- message.context.get("destination") or []
unfoldable pub destinations : Message → Items
unfolding get or_else
destinations m = as_list (or_else (get "destination" m.context) (arr nil))

abbrev pub peers_where : (String → Bool) → List String → List String
peers_where = filter

module _ (types : HiveMessageType) where
  abbrev pub reply : Message → Items → String → Effect
  reply m targets peer = send peer (record {
    msg_type = text types.bus;
    source_peer = some peer;
    target_peers = targets;
    payload = bus_message (record m { context = set_field "source" (text "hive") m.context });
  })

  -- The loop over the clients; no target means that nothing is sent.
  unfoldable pub handle_internal_mycroft : List String → Message → List Effect
  unfolding listed destinations set_field
  handle_internal_mycroft clients m =
      map (reply m (destinations m)) (filter (λ p. listed p (destinations m)) clients)

  -- msg_type in [PROPAGATE, BROADCAST]
  abbrev pub fans_out : Value → Bool
  fans_out v = is_text types.propagate v || is_text types.broadcast v

  -- `peer in self.clients`: a list or a dict cannot be a key.
  abbrev pub is_client : List String → Value → Outcome Bool
  is_client clients (text p) = ok (any (λ c. c == p) clients)
  is_client clients (arr vs) = raise type_error
  is_client clients (dict fs) = raise type_error
  is_client clients v = ok false

  abbrev pub text_of : Value → String
  text_of (text p) = p
  text_of v = ""

  abbrev pub target : HiveMessage → Value → Bool → List Effect
  target message peer true = send (text_of peer) message ∷ []
  target message peer false =
      emit "hive.client.send.error"
        (field "error" (text "That client is not connected") (field "peer" peer end))
      ∷ []

  abbrev pub hive_message : Value → Value → Value → HiveMessage
  hive_message msg_type payload peer = record {
    msg_type = msg_type;
    source_peer = none;
    target_peers = cons peer nil;
    payload = raw payload;
  }

  -- The dispatch rules of `handle_send`, in their order.
  unfoldable pub dispatch : List String → Value → Value → HiveMessage → Outcome (List Effect)
  unfolding truthy
  dispatch clients msg_type peer message =
      if fans_out msg_type
      then ok (map (λ p. send p message) clients)
      else if is_text types.escalate msg_type
      then ok []
      else if truthy peer
      then (is_client clients peer >>= λ known. ok (target message peer known))
      else ok []

  -- `construct` is what the constructor of `HiveMessage` makes of a type: nothing, or an exception.
  unfoldable pub handle_send :
      (construct : Value → Outcome (Unit {0})) → List String → Message → Outcome (List Effect)
  unfolding dispatch get
  handle_send construct clients m = do
    msg_type ← or_raise (lookup "msg_type" m.content) key_error
    accepted ← construct msg_type
    dispatch clients msg_type (get "peer" m.content)
        (hive_message msg_type (get "payload" m.content) (get "peer" m.content))

-- The recorded injections.
unfoldable pub injected_as : String → List Message → List Message
injected_as msg_type injected = filter (λ m. m.msg_type == msg_type) injected

unfoldable pub last_injected : String → List Message → Option Message
unfolding injected_as
last_injected msg_type injected = last? (injected_as msg_type injected)

unfoldable pub assert_injected : String → ℕ → List Message → Outcome (Unit {0})
unfolding injected_as
assert_injected msg_type count injected =
    require (nat_eq (length (injected_as msg_type injected)) count) assertion_error

unfoldable pub assert_not_injected : String → List Message → Outcome (Unit {0})
unfolding injected_as
assert_not_injected msg_type injected =
    require (is_empty (injected_as msg_type injected)) assertion_error
