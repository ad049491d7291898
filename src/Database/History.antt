-- ===== src/Database/History.antt =====
-- Series of calls of hivescope/database.py: the database is a finite map from keys to rows, with a counter of
-- ids, that forgets the order of insertion.
use hivescope.Prelude.{
  ℕ, ◌+◌, ◌≡◌, refl, sym, ap, ◌∙◌, subst, String, Option, none, some, List, [], ◌∷◌, ◌==◌, All,
  eq_iff, Bool-cases, inl, inr, if◌then◌else◌,
}
use hivescope.Dict.{lookup, set_item, has_key}
use hivescope.Dict.Laws.{lookup-set_item, lookup-pop, has_key-lookup}
use hivescope.Database.{
  Client, Database, NewClient, init, new_row, update_existing, add_client, add_row, update_item,
  delete_client, get_client_by_api_key,
}
use hivescope.Database.Ids.{
  IsValid, IsConstructor, init-IsValid, add_client-IsValid, delete_client-IsValid,
  update_item-IsValid,
}

-- A client is added or deleted, or its row is fetched, changed and stored with `update_item`.
pub data Call : Type 0 where
  adds : NewClient → Call
  deletes : String → Call
  changes : String → (Client → Client) → Call

-- A change leaves the row's key and id.
abbrev pub Keeps : Call → Type 0
Keeps (adds a) = Unit
Keeps (deletes key) = Unit
Keeps (changes key f) = (c : Client) → ((f c).api_key ≡ c.api_key) × ((f c).client_id ≡ c.client_id)

-- The abstract view.
pub record Table : Type 0 where
  pub row : String → Option Client
  pub last_id : ℕ

abbrev pub put : String → Option Client → (String → Option Client) → String → Option Client
put k v f j = if k == j then v else f j

module _ (construct : Client → Client) where
  abbrev pub store : Option Client → (Client → Client) → Database → Database
  store none f db = db
  store (some row) f db = (update_item (f row) db).0

  unfoldable pub step : Call → Database → Database
  step (adds a) db = (add_client construct a db).0
  step (deletes key) db = (delete_client key db).0
  step (changes key f) db = store (get_client_by_api_key key db) f db

  unfoldable pub run : List Call → Database → Database
  unfolding step
  run [] db = db
  run (c ∷ cs) db = run cs (step c db)

  abbrev pub added : NewClient → Option Client → Table → Table
  added a none t = record {
    row = put a.key (some (construct (new_row a (t.last_id + 1)))) t.row;
    last_id = t.last_id + 1;
  }
  added a (some old) t = record t { row = put a.key (some (update_existing a old)) t.row }

  abbrev pub changed : String → (Client → Client) → Option Client → Table → Table
  changed key f none t = t
  changed key f (some row) t = record t { row = put key (some (f row)) t.row }

  -- What a call does to a table.
  unfoldable pub spec : Call → Table → Table
  spec (adds a) t = added a (t.row a.key) t
  spec (deletes key) t = record t { row = put key none t.row }
  spec (changes key f) t = changed key f (t.row key) t

  unfoldable pub spec_run : List Call → Table → Table
  unfolding spec
  spec_run [] t = t
  spec_run (c ∷ cs) t = spec_run cs (spec c t)

  abbrev pub Implements : Database → Table → Type 0
  Implements db t = ((k : String) → get_client_by_api_key k db ≡ t.row k) × (db.next_id ≡ t.last_id)

  set-Implements :
      (db : Database) (t : Table) (key : String) (row : Client) (n m : ℕ)
      → Implements db t
      → n ≡ m
      → Implements
          (record { clients = set_item key row db.clients; next_id = n })
          (record { row = put key (some row) t.row; last_id = m })
  unfolding get_client_by_api_key
  set-Implements db t key row n m h same = (
    (λ k. elim (Bool-cases (key == k)) [
      | inl e ↦ lookup-set_item key k row db.clients ∙ rw e refl
      | inr e ↦ lookup-set_item key k row db.clients ∙ rw e (h.0 k)
    ]),
    same,
  )

  added-Implements :
      (a : NewClient) (old : Option Client) (db : Database) (t : Table)
      → Implements db t
      → Implements (add_row construct a db old) (added a old t)
  added-Implements a none db t h =
      subst
        (λ n. Implements (add_row construct a db none) (record {
          row = put a.key (some (construct (new_row a (n + 1)))) t.row;
          last_id = n + 1;
        }))
        h.1
        (set-Implements db t a.key (construct (new_row a (db.next_id + 1))) (db.next_id + 1)
          (db.next_id + 1) h refl)
  added-Implements a (some old) db t h =
      set-Implements db t a.key (update_existing a old) db.next_id t.last_id h h.1

  delete-Implements :
      (key : String) (db : Database) (t : Table)
      → IsValid db
      → Implements db t
      → Implements (delete_client key db).0 (record t { row = put key none t.row })
  unfolding delete_client get_client_by_api_key
  delete-Implements key db t v h = elim (Bool-cases (has_key key db.clients)) [
    | inl e ↦
        rw (e, delete_client)
          (
            (λ k. elim (Bool-cases (key == k)) [
              | inl q ↦ lookup-pop key k db.clients v.distinct ∙ rw q refl
              | inr q ↦ lookup-pop key k db.clients v.distinct ∙ rw q (h.0 k)
            ]),
            h.1,
          )
    | inr e ↦
        rw (e, delete_client)
          (
            (λ k. elim (Bool-cases (key == k)) [
              | inl q ↦
                  let same : key ≡ k = (eq_iff key k).0 q in
                  rw q (ap (λ j. lookup j db.clients) (sym same) ∙ has_key-lookup key db.clients e)
              | inr q ↦ rw q (h.0 k)
            ]),
            h.1,
          )
  ]

  store-Implements :
      (key : String) (f : Client → Client) (o : Option Client) (db : Database) (t : Table)
      → Keeps (changes key f)
      → get_client_by_api_key key db ≡ o
      → IsValid db
      → Implements db t
      → Implements (store o f db) (changed key f o t) × IsValid (store o f db)
  unfolding update_item get_client_by_api_key
  store-Implements key f none db t keeps e v h = (h, v)
  store-Implements key f (some row) db t keeps e v h =
      let at : (f row).api_key ≡ key = (keeps row).0 ∙ v.keyed key row e in
      (
        subst
            (λ k.
              Implements (record db { clients = set_item k (f row) db.clients })
                (record t { row = put key (some (f row)) t.row }))
            (sym at) (set-Implements db t key (f row) db.next_id t.last_id h h.1),
        update_item-IsValid (f row) row db v (ap (λ k. lookup k db.clients) at ∙ e) (keeps row).1,
      )

  module _ (built : IsConstructor construct) where
    step-Implements :
        (c : Call) (db : Database) (t : Table)
        → Keeps c
        → IsValid db
        → Implements db t
        → Implements (step c db) (spec c t) × IsValid (step c db)
    unfolding step spec add_client
    step-Implements (adds a) db t keeps v h = (
      subst (λ o. Implements (add_client construct a db).0 (added a o t)) (h.0 a.key)
          (added-Implements a (get_client_by_api_key a.key db) db t h),
      add_client-IsValid construct built a db v,
    )
    step-Implements (deletes key) db t keeps v h =
        (delete-Implements key db t v h, (delete_client-IsValid key db v).0)
    step-Implements (changes key f) db t keeps v h =
        let (now, valid) =
          store-Implements key f (get_client_by_api_key key db) db t keeps refl v h in
        (
          subst (λ o. Implements (store (get_client_by_api_key key db) f db) (changed key f o t))
              (h.0 key) now,
          valid,
        )

    run_from :
        (cs : List Call) (db : Database) (t : Table)
        → All Keeps cs
        → IsValid db
        → Implements db t
        → Implements (run cs db) (spec_run cs t) × IsValid (run cs db)
    unfolding run spec_run
    run_from [] db t keeps v h = (h, v)
    run_from (c ∷ cs) db t keeps v h =
        let (now, valid) = step-Implements c db t keeps.0 v h in
        run_from cs (step c db) (spec c t) keeps.1 valid now

    -- If the constructor of `Client` keeps the key and the id that it is given, then after any series of adding,
    -- deleting and changing rows, where a change leaves a row's key and id: a lookup by key gives what a table,
    -- a function from keys to rows with the last id given, gives after the same calls; and the database is
    -- valid: each key stands once, rows stand under their keys, and no two rows have one id or one above the
    -- last.
    pub run-Implements :
        (cs : List Call)
        → All Keeps cs
        → Implements (run cs init) (spec_run cs (record { row = λ k. none; last_id = 0 }))
          × IsValid (run cs init)
    unfolding init get_client_by_api_key lookup
    run-Implements cs keeps =
        run_from cs init (record { row = λ k. none; last_id = 0 }) keeps init-IsValid
          ((λ k. refl), refl)
