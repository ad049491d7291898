-- ===== src/Database.antt =====
-- hivescope/database.py: `InMemoryClientDatabase`. The lock makes each call one step. `Client` is the
-- row type of hivemind_plugin_manager; only its attributes are read, and what its constructor makes of
-- its arguments is the parameter `construct`. A row is a value: what a caller that keeps a row sees of a
-- later change of it is not modelled.
pub mod Ids
pub mod Rows
pub mod History
mod Tests
use hivescope.Prelude.{
  ℕ, ◌+◌, String, Bool, true, false, not, Option, none, some, List, [], ◌∷◌, ◌==◌, nat_eq, length,
  filter, find?, is_empty, if◌then◌else◌,
}
use hivescope.Dict.{Dict, lookup, set_item, pop, has_key, values}
use hivescope.Value.{Value, arr, texts}

pub record Client : Type 0 where
  pub api_key : String
  pub name : String
  pub client_id : ℕ
  pub is_admin : Bool
  pub allowed_types : List String
  pub password : Option String
  pub can_escalate : Bool
  pub can_propagate : Bool
  pub can_broadcast : Bool
  pub metadata : Dict Value

pub record Database : Type 0 where
  pub clients : Dict Client
  pub next_id : ℕ

-- The arguments of `add_client`.
pub record NewClient : Type 0 where
  pub name : String
  pub key : String
  pub admin : Bool
  pub intent_blacklist : Option (List String)
  pub skill_blacklist : Option (List String)
  pub message_blacklist : Option (List String)
  pub allowed_types : Option (List String)
  pub password : Option String
  pub can_escalate : Bool
  pub can_propagate : Bool
  pub can_broadcast : Bool

unfoldable pub init : Database
init = record { clients = []; next_id = 0 }

-- bool(password)
abbrev pub given : Option String → Bool
given none = false
given (some s) = not (s == "")

abbrev pub or_empty {ℓ} : {A : Type ℓ} → Option (List A) → List A
or_empty none = []
or_empty (some xs) = xs

-- One blacklist of an update: None leaves it, an empty one removes it.
unfoldable pub update_blacklist : String → Option (List String) → Dict Value → Dict Value
update_blacklist k none metadata = metadata
update_blacklist k (some []) metadata = pop k metadata
update_blacklist k (some (s ∷ ss)) metadata = set_item k (arr (texts (s ∷ ss))) metadata

-- One blacklist of a new row.
unfoldable pub new_blacklist : String → Option (List String) → Dict Value → Dict Value
new_blacklist k names metadata =
    if is_empty (or_empty names)
    then metadata
    else set_item k (arr (texts (or_empty names))) metadata

abbrev or_old {ℓ} : {A : Type ℓ} → Option A → A → A
or_old none old = old
or_old (some new) old = new

-- The assignments to the row that holds the key.
unfoldable pub update_existing : NewClient → Client → Client
unfolding update_blacklist
update_existing a existing = record existing {
  name = if a.name == "" then existing.name else a.name;
  metadata =
      update_blacklist "skill_blacklist" a.skill_blacklist
        (update_blacklist "intent_blacklist" a.intent_blacklist existing.metadata);
  allowed_types = or_old a.allowed_types existing.allowed_types;
  is_admin = a.admin;
  password = if given a.password then a.password else existing.password;
  can_escalate = a.can_escalate;
  can_propagate = a.can_propagate;
  can_broadcast = a.can_broadcast;
}

-- The keyword arguments of the constructor call.
unfoldable pub new_row : NewClient → ℕ → Client
unfolding new_blacklist
new_row a client_id = record {
  api_key = a.key;
  name = a.name;
  client_id = client_id;
  is_admin = a.admin;
  allowed_types = or_empty a.allowed_types;
  password = a.password;
  can_escalate = a.can_escalate;
  can_propagate = a.can_propagate;
  can_broadcast = a.can_broadcast;
  metadata =
      new_blacklist "intent_blacklist" a.intent_blacklist
        (new_blacklist "skill_blacklist" a.skill_blacklist []);
}

unfoldable pub get_client_by_api_key : String → Database → Option Client
get_client_by_api_key key db = lookup key db.clients

module _ (construct : Client → Client) where
  abbrev pub add_row : NewClient → Database → Option Client → Database
  add_row a db (some existing) = record db {
    clients = set_item a.key (update_existing a existing) db.clients;
  }
  add_row a db none = record {
    clients = set_item a.key (construct (new_row a (db.next_id + 1))) db.clients;
    next_id = db.next_id + 1;
  }

  -- The call always returns True.
  unfoldable pub add_client : NewClient → Database → Database × Bool
  unfolding get_client_by_api_key
  add_client a db = (add_row a db (get_client_by_api_key a.key db), true)

unfoldable pub update_item : Client → Database → Database × Bool
update_item client db = (record db { clients = set_item client.api_key client db.clients }, true)

unfoldable pub delete_client : String → Database → Database × Bool
delete_client key db =
    if has_key key db.clients
    then (record db { clients = pop key db.clients }, true)
    else (db, false)

unfoldable pub get_client_by_id : ℕ → Database → Option Client
get_client_by_id client_id db = find? (λ c. nat_eq c.client_id client_id) (values db.clients)

abbrev pub refresh : ℕ → Database → Option Client
refresh = get_client_by_id

unfoldable pub get_clients_by_name : String → Database → List Client
get_clients_by_name name db = filter (λ c. c.name == name) (values db.clients)

-- Also `__len__`.
unfoldable pub total_clients : Database → ℕ
total_clients db = length db.clients
