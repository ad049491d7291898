-- ===== src/Database/Tests.antt =====
-- The database on concrete rows, with a constructor of `Client` that stores its arguments.
use hivescope.Prelude.{◌≡◌, refl, String, true, false, none, some, List, [], ◌∷◌}
use hivescope.Dict.{lookup, set_item, pop, has_key}
use hivescope.Database.{
  Client, Database, NewClient, init, new_row, new_blacklist, add_client, update_item, delete_client,
  get_client_by_api_key,
}
use hivescope.Database.Ids.{IsValid, IsConstructor, init-IsValid, add_client-IsValid}
use hivescope.Database.History.{
  Call, adds, deletes, changes, step, run, spec_run, Implements, run-Implements,
}

abbrev construct : Client → Client
construct c = c

built : IsConstructor construct
built = record { api_key = λ c. refl; client_id = λ c. refl }

abbrev asked : String → NewClient
asked key = record {
  name = "S";
  key = key;
  admin = false;
  intent_blacklist = none;
  skill_blacklist = some ("skill" ∷ []);
  message_blacklist = none;
  allowed_types = some ("speak" ∷ []);
  password = some "secret";
  can_escalate = true;
  can_propagate = true;
  can_broadcast = false;
}

abbrev two : Database
two = (add_client construct (asked "k2") (add_client construct (asked "k1") init).0).0

two-IsValid : IsValid two
two-IsValid =
    add_client-IsValid construct built (asked "k2") _
      (add_client-IsValid construct built (asked "k1") init init-IsValid)

abbrev row : Client
row = new_row (asked "k1") 1

has_row : get_client_by_api_key "k1" two ≡ some row
unfolding get_client_by_api_key add_client init new_row new_blacklist lookup set_item
has_row = refl

abbrev admin_now : Client → Client
admin_now c = record c { is_admin = true }

abbrev calls : List Call
calls =
    adds (asked "k1")
    ∷ adds (asked "k2")
    ∷ changes "k1" admin_now
    ∷ deletes "k2"
    ∷ adds (asked "k2")
    ∷ []

last_id_is_3 : (run construct calls init).next_id ≡ 3
unfolding run step init get_client_by_api_key add_client delete_client update_item new_row
    new_blacklist lookup set_item pop has_key
last_id_is_3 = refl

run-Implements_example :
    Implements construct
      (run construct calls init)
      (spec_run construct calls (record { row = λ k. none; last_id = 0 }))
    × IsValid (run construct calls init)
run-Implements_example =
    run-Implements construct built calls (tt, (tt, ((λ c. (refl, refl)), (tt, (tt, tt)))))
