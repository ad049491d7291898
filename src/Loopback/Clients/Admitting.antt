-- ===== src/Loopback/Clients/Admitting.antt =====
-- Whom the connection handler of hivescope/plugins/loopback.py admits, and with which rights.
use hivescope.Prelude.{
  ◌≡◌, refl, ap, ◌∙◌, subst, false, ◌⊎◌, String, true, Option, none, some, Option-cases, Bool-cases,
  inl, inr,
}
use hivescope.Database.{Client, Database, given, get_client_by_api_key}
use hivescope.Node.{ConnectionArgs, connection_args}
use hivescope.Loopback.Clients.{
  Request, Admission, complete, closed, admitted, from_query, from_header, credentials, look_up,
  admit,
}

-- The row behind a connection that was made, with its rights one by one.
abbrev pub Granted : Database → String → ConnectionArgs → Type 0
Granted db name args =
    (client : Client) × (complete (some (name, args.key)) ≡ true)
    × (get_client_by_api_key args.key db ≡ some client)
    × (args.has_password_handshake ≡ given client.password)
    × (args.is_admin ≡ client.is_admin)
    × (args.can_escalate ≡ client.can_escalate)
    × (args.can_propagate ≡ client.can_propagate)
    × (args.can_broadcast ≡ client.can_broadcast)
    × (args.allowed_types ≡ client.allowed_types)

args_of : ConnectionArgs → Admission → ConnectionArgs
args_of d (closed code) = d
args_of d (admitted name args) = args

name_of : Admission → String
name_of (closed code) = ""
name_of (admitted name args) = name

module _ (parse_qs b64decode : String → Option String) where
  look_up-Granted :
      (db : Database) (p : Option (String × String)) (name : String) (args : ConnectionArgs)
      → look_up parse_qs b64decode db p ≡ admitted name args
      → Granted db name args × (p ≡ some (name, args.key))
  unfolding args_of name_of
  look_up-Granted db none name args h = absurd (cc)
  look_up-Granted db (some (n, k)) name args h = elim (Bool-cases (complete (some (n, k)))) [
    | inr e ↦ absurd (let g = rw e at h in cc)
    | inl e ↦ elim (Option-cases (get_client_by_api_key k db)) [
      | inl f ↦ absurd (let g = rw (e, f) at h in cc)
      | inr (client, f) ↦
          let g = rw (e, f) at h in
          let same : connection_args (λ c. c) k client ≡ args = ap (args_of args) g in
          let named : n ≡ name = ap name_of g in
          rw (← same, ← named) ((client, e, f, refl, refl, refl, refl, refl, refl), refl)
    ]
  ]

  -- The query is asked first, and the header only where it gives no name and key.
  credentials-from :
      (r : Request) (p : String × String)
      → credentials parse_qs b64decode r ≡ some p
      → complete (some p) ≡ true
      → (from_query parse_qs b64decode r ≡ some p)
        ⊎ ((complete (from_query parse_qs b64decode r) ≡ false)
            × (from_header parse_qs b64decode r ≡ some p))
  unfolding credentials
  credentials-from r p e full = elim (Bool-cases (complete (from_query parse_qs b64decode r))) [
    | inl q ↦ inl (rw q at e)
    | inr q ↦ elim (Option-cases (from_header parse_qs b64decode r)) [
      | inl f ↦
          let kept : from_query parse_qs b64decode r ≡ some p = rw (q, f) at e in
          absurd
            (let clash : complete (some p) ≡ false = subst (λ o. complete o ≡ false) kept q in cc)
      | inr (h, f) ↦ let same : some h ≡ some p = rw (q, f) at e in inr (q, f ∙ same)
    ]
  ]

  -- Whoever is admitted gave a name and a key, in the query or, where that gave none, in the header; the key is
  -- of a row of the database; and the connection is an admin, may escalate, propagate and broadcast, and may send
  -- the types, exactly as that row says, with a password handshake exactly if the row has a password.
  pub admit-Granted :
      (db : Database) (r : Request) (name : String) (args : ConnectionArgs)
      → admit parse_qs b64decode (some db) r ≡ admitted name args
      → Granted db name args
        × ((from_query parse_qs b64decode r ≡ some (name, args.key))
            ⊎ ((complete (from_query parse_qs b64decode r) ≡ false)
                × (from_header parse_qs b64decode r ≡ some (name, args.key))))
  unfolding admit
  admit-Granted db r name args h =
      let (granted, given) = look_up-Granted db (credentials parse_qs b64decode r) name args h in
      (granted, credentials-from r (name, args.key) given granted.1)
