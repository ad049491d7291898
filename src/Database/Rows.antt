-- ===== src/Database/Rows.antt =====
-- What `add_client` leaves in the database, on both of its branches.
use hivescope.Prelude.{
  ℕ, suc, refl, true, ◌+◌, ◌∙◌, ◌≡◌, String, Bool, false, Option, none, some, List, [], ◌==◌,
  eq_refl, arith, Option-cases, inl, inr,
}
use hivescope.Dict.{lookup}
use hivescope.Dict.Laws.{lookup-set_item}
use hivescope.Database.{
  Client, Database, NewClient, new_row, update_existing, add_client, get_client_by_api_key, given,
}

-- The permissions of a row.
abbrev pub permissions : Client → Bool × Bool × Bool × Bool × List String
permissions c = (c.is_admin, c.can_escalate, c.can_propagate, c.can_broadcast, c.allowed_types)

-- What is granted: an update with no `allowed_types` keeps the old ones, a new row has none.
abbrev pub types_or_old : Option (List String) → Option Client → List String
types_or_old (some types) old = types
types_or_old none (some c) = c.allowed_types
types_or_old none none = []

abbrev pub granted : NewClient → Option Client → Bool × Bool × Bool × Bool × List String
granted a old =
    (a.admin, a.can_escalate, a.can_propagate, a.can_broadcast, types_or_old a.allowed_types old)

module _ (construct : Client → Client) (a : NewClient) (db : Database) where
  -- After `add_client`, a lookup of any other key gives what it gave before.
  pub add_client_other :
      (j : String)
      → (a.key == j) ≡ false
      → get_client_by_api_key j (add_client construct a db).0 ≡ get_client_by_api_key j db
  unfolding add_client get_client_by_api_key
  add_client_other j h = elim (Option-cases (lookup a.key db.clients)) [
    | inl e ↦
        rw (e, add_client)
          (ground (
            arith,
            lookup-set_item a.key j (construct (new_row a (suc db.next_id))) db.clients,
            lookup-set_item a.key j (construct (new_row a (db.next_id + 1))) db.clients,
          ))
    | inr (old, e) ↦
        rw (e, add_client)
          (ground (arith, lookup-set_item a.key j (update_existing a old) db.clients))
  ]

  update_permissions : (old : Client) → permissions (update_existing a old) ≡ granted a (some old)
  unfolding update_existing
  update_permissions old = ground arith

  new_permissions : (n : ℕ) → permissions (new_row a n) ≡ granted a none
  unfolding new_row
  new_permissions n = ground arith

  -- If the constructor of `Client` keeps the permissions that it is given: after `add_client`, new
  -- key or known, the key's row has exactly the flags that were asked for, and the allowed types
  -- are those given, an empty list included; with none given, those of the old row, or none for a
  -- new key.
  pub add_client_grants :
      ((c : Client) → permissions (construct c) ≡ permissions c)
      → (c : Client) × (get_client_by_api_key a.key (add_client construct a db).0 ≡ some c)
        × (permissions c ≡ granted a (get_client_by_api_key a.key db))
  unfolding add_client get_client_by_api_key
  add_client_grants kept = elim (Option-cases (lookup a.key db.clients)) [
    | inl e ↦
        rw (e, add_client)
          (
            construct (new_row a (db.next_id + 1)),
            rw (lookup-set_item a.key a.key (construct (new_row a (db.next_id + 1))) db.clients)
                (rw (eq_refl a.key)),
            kept (new_row a (db.next_id + 1)) ∙ new_permissions (db.next_id + 1),
          )
    | inr (old, e) ↦
        rw (e, add_client)
          (
            update_existing a old,
            rw (lookup-set_item a.key a.key (update_existing a old) db.clients)
                (rw (eq_refl a.key)),
            update_permissions old,
          )
  ]

  -- If the constructor keeps the password that it is given: after `add_client` with a password that is not
  -- empty, the key's row has that password, whatever it had before.
  pub add_client-password :
      ((c : Client) → (construct c).password ≡ c.password)
      → given a.password ≡ true
      → (c : Client) × (get_client_by_api_key a.key (add_client construct a db).0 ≡ some c)
        × (c.password ≡ a.password)
  unfolding add_client get_client_by_api_key update_existing new_row
  add_client-password kept some_password = elim (Option-cases (lookup a.key db.clients)) [
    | inl e ↦
        rw (e, add_client)
          (
            construct (new_row a (db.next_id + 1)),
            rw (lookup-set_item a.key a.key (construct (new_row a (db.next_id + 1))) db.clients)
                (rw (eq_refl a.key)),
            kept (new_row a (db.next_id + 1)),
          )
    | inr (old, e) ↦
        rw (e, add_client)
          (
            update_existing a old,
            rw (lookup-set_item a.key a.key (update_existing a old) db.clients)
                (rw (eq_refl a.key)),
            rw some_password refl,
          )
  ]
