-- ===== src/Agent/Routing.antt =====
-- Which clients the two handlers of `TestAgentProtocol` reach.
use hivescope.Prelude.{
  ◌≡◌, ◌≢◌, ◌↔◌, ◌⊎◌, ◌||◌, sym, eq_iff, refl, ap, String, Bool, true, false, List, [], ◌∷◌, ◌==◌,
  any, filter, map, All, if◌then◌else◌, arith, eq_refl, Bool-cases, inl, inr,
}
use hivescope.Outcome.{Outcome, ok, raise}
use hivescope.Value.{
  Value, null, bool, int, text, bytes, arr, dict, nil, cons, or_else, Fields, end, field, lookup,
  get, truthy, is_text, Items,
}
use hivescope.Assertions.{HiveMessageType}
use hivescope.Agent.{
  Message, bus_message, raw, Effect, send, emit, set_field, listed, destinations, as_list,
  handle_internal_mycroft, reply,
}

-- The peers that the effects reach, in order.
abbrev pub reached : List Effect → List String
reached [] = []
reached (send p m ∷ es) = p ∷ reached es
reached (emit t fs ∷ es) = reached es

get-set_field : (k : String) (v : Value) (fs : Fields) → get k (set_field k v fs) ≡ v
unfolding get set_field lookup
get-set_field k v end = rw (eq_refl k)
get-set_field k v (field j w fs) = ground (arith, get-set_field k v fs)

-- The source that a forwarded message shows is "hive".
abbrev pub HidesSource : Effect → Type 0
HidesSource (send p m) = elim m.payload [
  | raw v ↦ ⊥
  | bus_message b ↦ get "source" b.context ≡ text "hive"
]
HidesSource (emit t fs) = ⊥

-- The text is one of the items.
unfoldable pub Lists : String → Items → Type 0
Lists p nil = ⊥
Lists p (cons v vs) = (v ≡ text p) ⊎ Lists p vs

-- The destination of a message names a peer: it is the peer, or a list with the peer in it.
unfoldable pub Names : Value → String → Type 0
unfolding Lists
Names (text q) p = (q ≡ p) × (q ≢ "")
Names (arr vs) p = Lists p vs
Names v p = ⊥

is_text-text : (p : String) (v : Value) → is_text p v ≡ true → v ≡ text p
is_text-text p (text q) h = ap text (sym ((eq_iff p q).0 h))
is_text-text p null h = absurd (cc)
is_text-text p (bool b) h = absurd (cc)
is_text-text p (int n) h = absurd (cc)
is_text-text p (bytes ns) h = absurd (cc)
is_text-text p (arr vs) h = absurd (cc)
is_text-text p (dict fs) h = absurd (cc)

listed-Lists : (p : String) (vs : Items) → (listed p vs ≡ true) ↔ Lists p vs
unfolding listed Lists
listed-Lists p nil = ((λ h. absurd (cc)), λ h. absurd h)
listed-Lists p (cons v vs) = elim (Bool-cases (is_text p v)) [
  | inl e ↦ ((λ h. inl (is_text-text p v e)), λ h. rw e refl)
  | inr e ↦
      let (there, back) = listed-Lists p vs in
      (
        (λ h. inr (there (rw e at h))),
        λ h. elim h [
          | inl same ↦ absurd (let hit : is_text p v ≡ true = rw (same, eq_refl p) refl in cc)
          | inr l ↦ rw e (back l)
        ],
      )
]

nobody : (false ≡ true) ↔ ⊥
nobody = ((λ h. absurd (cc)), λ h. absurd h)

named : (v : Value) (p : String) → (listed p (as_list (or_else v (arr nil))) ≡ true) ↔ Names v p
unfolding or_else Names listed truthy
named null p = nobody
named (bool true) p = nobody
named (bool false) p = nobody
named (int n) p = elim (Bool-cases (truthy (int n))) [ inl e ↦ rw e nobody | inr e ↦ rw e nobody ]
named (text q) p = elim (Bool-cases (q == "")) [
  | inl e ↦ rw e ((λ h. absurd (cc)), λ h. absurd (h.1 ((eq_iff q "").0 e)))
  | inr e ↦ rw e (
    (λ h. (
      sym ((eq_iff p q).0 (ground (arith))),
      λ same. absurd (let hit = (eq_iff q "").1 same in cc),
    )),
    λ h. ground (arith, (eq_iff p q).1 (sym h.0)),
  )
]
named (bytes []) p = nobody
named (bytes (n ∷ ns)) p = nobody
named (arr nil) p = listed-Lists p nil
named (arr (cons v vs)) p = listed-Lists p (cons v vs)
named (dict end) p = nobody
named (dict (field k v fs)) p = nobody

names :
    (m : Message) (p : String)
    → (listed p (destinations m) ≡ true) ↔ Names (get "destination" m.context) p
unfolding destinations
names m p = named (get "destination" m.context) p

module _ (types : HiveMessageType) where
  reached-replies :
      (m : Message) (targets : Items) (peers : List String)
      → reached (map (reply types m targets) peers) ≡ peers
  reached-replies m targets [] = refl
  reached-replies m targets (p ∷ ps) = ap (◌∷◌ p) (reached-replies m targets ps)

  replies-hide :
      (m : Message) (targets : Items) (peers : List String)
      → All HidesSource (map (reply types m targets) peers)
  replies-hide m targets [] = tt
  replies-hide m targets (p ∷ ps) =
      (get-set_field "source" (text "hive") m.context, replies-hide m targets ps)

  -- A message on the agent bus goes to exactly the connected peers that its destination names, being the peer or
  -- a list with the peer in it, once each and in the order of the clients; every copy shows "hive" as its source.
  pub handle_internal_mycroft_lem :
      (clients : List String) (m : Message)
      → (is_named : String → Bool) × ((p : String)
          → (is_named p ≡ true) ↔ Names (get "destination" m.context) p)
        × (reached (handle_internal_mycroft types clients m) ≡ filter is_named clients)
        × All HidesSource (handle_internal_mycroft types clients m)
  unfolding handle_internal_mycroft
  handle_internal_mycroft_lem clients m = (
    (λ p. listed p (destinations m)),
    (λ p. names m p),
    reached-replies m (destinations m) _,
    replies-hide m (destinations m) _,
  )

  -- The clients that an explicit request is to reach.
  abbrev pub intended : List String → Value → String → List String
  intended clients msg_type p =
      if is_text types.propagate msg_type || is_text types.broadcast msg_type
      then clients
      else if is_text types.escalate msg_type
      then []
      else if any (λ c. c == p) clients
      then p ∷ []
      else []

  -- What reaches whom when the dispatch raises nothing.
  abbrev pub Reaches : Outcome (List Effect) → List String → Type 0
  Reaches (ok es) peers = reached es ≡ peers
  Reaches (raise e) peers = ⊥
