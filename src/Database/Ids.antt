-- ===== src/Database/Ids.antt =====
-- The rows of `InMemoryClientDatabase` and their numeric ids.
use hivescope.Prelude.{
  ℕ, ◌+◌, ◌≤◌, ◌<◌, ◌≡◌, refl, sym, ◌∙◌, subst, String, true, none, some, [], ◌∷◌, nat_eq,
  nat_eq_iff, find?, eq_iff, eq_refl, arith, Bool-cases, Option-cases, inl, inr,
}
use hivescope.Dict.{Dict, lookup, set_item, pop, has_key, values}
use hivescope.Dict.Laws.{
  Distinct, lookup-Absent, has_key-lookup, lookup-set_item, lookup-pop, set_item-Distinct,
  pop-Distinct,
}
use hivescope.Database.{
  Client, Database, NewClient, init, new_row, update_existing, add_row, add_client, update_item,
  delete_client, get_client_by_api_key, get_client_by_id,
}

-- A row stands under its own key, ids are at most the counter, and no two rows share one.
pub record IsValid (db : Database) : Type 0 where
  pub distinct : Distinct db.clients
  pub keyed : (k : String) (c : Client) → lookup k db.clients ≡ some c → c.api_key ≡ k
  pub bounded : (k : String) (c : Client) → lookup k db.clients ≡ some c → c.client_id ≤ db.next_id
  pub unique :
      (j k : String) (b c : Client)
      → lookup j db.clients ≡ some b
      → lookup k db.clients ≡ some c
      → b.client_id ≡ c.client_id
      → j ≡ k

pub init-IsValid : IsValid init
unfolding init lookup
init-IsValid = record {
  distinct = tt;
  keyed = λ k c e. absurd (cc);
  bounded = λ k c e. absurd (cc);
  unique = λ j k b c e f i. absurd (cc);
}

-- What the model relies on of the constructor of `Client`.
pub record IsConstructor (construct : Client → Client) : Type 0 where
  pub api_key : (c : Client) → (construct c).api_key ≡ c.api_key
  pub client_id : (c : Client) → (construct c).client_id ≡ c.client_id

-- A write of a row under its key, with an id that no other row has, keeps the invariant.
set_item-IsValid :
    (db : Database) (n : ℕ) (row : Client)
    → IsValid db
    → db.next_id ≤ n
    → row.client_id ≤ n
    → ((j : String) (b : Client)
        → lookup j db.clients ≡ some b
        → b.client_id ≡ row.client_id
        → j ≡ row.api_key)
    → IsValid (record { clients = set_item row.api_key row db.clients; next_id = n })
set_item-IsValid db n row v grows fits fresh = record {
  distinct = set_item-Distinct row.api_key row db.clients v.distinct;
  keyed = λ k c e.
      ground
        (arith, lookup-set_item row.api_key k row db.clients, v.keyed k c, eq_iff row.api_key k);
  bounded = λ k c e. ground (arith, lookup-set_item row.api_key k row db.clients, v.bounded k c);
  unique = λ j k b c e f i. ground (
    arith,
    lookup-set_item row.api_key j row db.clients,
    lookup-set_item row.api_key k row db.clients,
    eq_iff row.api_key j,
    eq_iff row.api_key k,
    fresh j b,
    fresh k c,
    v.unique j k b c,
  );
}

delete_client_present :
    (key : String) (db : Database) (old : Client)
    → lookup key db.clients ≡ some old
    → delete_client key db ≡ (record db { clients = pop key db.clients }, true)
unfolding delete_client
delete_client_present key db old e = ground (arith, has_key-lookup key db.clients)

pop-IsValid :
    (key : String) (db : Database)
    → IsValid db
    → IsValid (record db { clients = pop key db.clients })
pop-IsValid key db v = record {
  distinct = pop-Distinct key db.clients v.distinct;
  keyed = λ k c e. ground (arith, lookup-pop key k db.clients v.distinct, v.keyed k c);
  bounded = λ k c e. ground (arith, lookup-pop key k db.clients v.distinct, v.bounded k c);
  unique = λ j k b c e f i. ground (
    arith,
    lookup-pop key j db.clients v.distinct,
    lookup-pop key k db.clients v.distinct,
    v.unique j k b c,
  );
}

-- Revoking a key of a valid database, known or not, leaves a valid one, and the key has no row
-- afterwards.
pub delete_client-IsValid :
    (key : String) (db : Database)
    → IsValid db
    → IsValid (delete_client key db).0 × (get_client_by_api_key key (delete_client key db).0 ≡ none)
unfolding get_client_by_api_key delete_client
delete_client-IsValid key db v = elim (Bool-cases (has_key key db.clients)) [
  | inl e ↦
      rw (e, delete_client)
        (
          pop-IsValid key db v,
          ground (arith, lookup-pop key key db.clients v.distinct, eq_refl key),
        )
  | inr e ↦ rw (e, delete_client) (v, has_key-lookup key db.clients e)
]

-- Storing a row under a known key of a valid database leaves a valid one, if the row keeps the id
-- of the one that it replaces.
pub update_item-IsValid :
    (row old : Client) (db : Database)
    → IsValid db
    → get_client_by_api_key row.api_key db ≡ some old
    → row.client_id ≡ old.client_id
    → IsValid (update_item row db).0
unfolding get_client_by_api_key update_item
update_item-IsValid row old db v e i =
    set_item-IsValid db db.next_id row v (omega arith) (omega (arith, v.bounded row.api_key old e))
      (λ j b f h. v.unique j row.api_key b old f e (h ∙ i))

-- The first row with an id, in a dict where only `k` has a row with it.
find_id :
    (d : Dict Client) (k : String) (c : Client)
    → Distinct d
    → lookup k d ≡ some c
    → ((j : String) (b : Client) → lookup j d ≡ some b → b.client_id ≡ c.client_id → j ≡ k)
    → find? (λ b. nat_eq b.client_id c.client_id) (values d) ≡ some c
unfolding lookup find?
find_id [] k c u e only = absurd (cc)
find_id ((j, w) ∷ d) k c u e only = elim (Bool-cases (nat_eq w.client_id c.client_id)) [
  | inl q ↦
      let at : j ≡ k = only j w (rw (eq_refl j)) ((nat_eq_iff w.client_id c.client_id).0 q) in
      rw q (ground (arith, (eq_iff j k).1 at))
  | inr q ↦ rw q (
      find_id d k c u.1 (ground (arith, nat_eq_iff w.client_id c.client_id))
        (λ i b f. only i b (ground (arith, lookup-Absent j d u.0, eq_iff j i))))
]

-- In a valid database, a lookup by the id of a row finds that row and no other.
pub get_client_by_id_lem :
    (key : String) (db : Database) (c : Client)
    → IsValid db
    → get_client_by_api_key key db ≡ some c
    → get_client_by_id c.client_id db ≡ some c
unfolding get_client_by_api_key get_client_by_id
get_client_by_id_lem key db c v e =
    find_id db.clients key c v.distinct e (λ j b f i. v.unique j key b c f e i)

module _ (construct : Client → Client) (built : IsConstructor construct) (a : NewClient)
    (db : Database) where
  insert_row-IsValid : IsValid db → IsValid (add_row construct a db none)
  insert_row-IsValid v =
      let row : Client = construct (new_row a (db.next_id + 1)) in
      let key : row.api_key ≡ a.key = unfold new_row in built.api_key _ in
      let number : row.client_id ≡ db.next_id + 1 = unfold new_row in built.client_id _ in
      subst
        (λ k. IsValid (record { clients = set_item k row db.clients; next_id = db.next_id + 1 }))
        key
        (set_item-IsValid db (db.next_id + 1) row v (omega arith) (omega arith)
          (λ j b e i. absurd (omega (arith, v.bounded j b e))))

  update_row-IsValid :
      (old : Client)
      → lookup a.key db.clients ≡ some old
      → IsValid db
      → IsValid (add_row construct a db (some old))
  update_row-IsValid old e v =
      let row : Client = update_existing a old in
      let key : row.api_key ≡ a.key = unfold update_existing in v.keyed a.key old e in
      let number : row.client_id ≡ old.client_id = unfold update_existing in refl in
      subst (λ k. IsValid (record { clients = set_item k row db.clients; next_id = db.next_id }))
        key
        (set_item-IsValid db db.next_id row v (omega arith) (omega (arith, v.bounded a.key old e))
          (λ j b f i. v.unique j a.key b old f e (i ∙ number) ∙ sym key))

  -- If the constructor of `Client` keeps the key and the id that it is given, then adding a
  -- client, new or known, to a valid database leaves a valid one: rows under their own keys, ids
  -- at most the counter, and no two rows with one id.
  pub add_client-IsValid : IsValid db → IsValid (add_client construct a db).0
  unfolding add_client
  add_client-IsValid v = elim (Option-cases (lookup a.key db.clients)) [
    | inl e ↦ rw (e, add_client) (insert_row-IsValid v)
    | inr (old, e) ↦ rw (e, add_client) (update_row-IsValid old e v)
  ]

  add_client_new :
      get_client_by_api_key a.key db ≡ none
      → (add_client construct a db).0 ≡ add_row construct a db none
  unfolding add_client
  add_client_new e = rw (e, add_client)

-- If the constructor of `Client` keeps the key and the id that it is given, then in a valid
-- database a known key that is deleted and added again has a row with a higher id than before.
pub readd_fresh :
    (construct : Client → Client) (a : NewClient) (db : Database) (old : Client)
    → IsConstructor construct
    → IsValid db
    → get_client_by_api_key a.key db ≡ some old
    → (c : Client) × (get_client_by_api_key a.key
          (add_client construct a (delete_client a.key db).0).0
        ≡ some c)
      × (old.client_id < c.client_id)
unfolding get_client_by_api_key
readd_fresh construct a db old built v e =
    let left : Database = record db { clients = pop a.key db.clients } in
    let gone : lookup a.key left.clients ≡ none =
      ground (arith, lookup-pop a.key a.key db.clients v.distinct, eq_refl a.key) in
    rw (delete_client_present a.key db old e, add_client_new construct built a left gone)
      (
        construct (new_row a (db.next_id + 1)),
        rw (lookup-set_item a.key a.key (construct (new_row a (db.next_id + 1))) left.clients)
            (rw (eq_refl a.key)),
        unfold new_row in
            omega (arith, built.client_id (new_row a (db.next_id + 1)), v.bounded a.key old e),
      )
