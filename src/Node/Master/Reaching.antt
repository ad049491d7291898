-- ===== src/Node/Master/Reaching.antt =====
-- Whom `send_to_all` of hivescope/node.py reaches.
use hivescope.Prelude.{◌≡◌, ◌⊎◌, inl, inr, refl, sym, subst, ap, String, List, [], ◌∷◌, ◌++◌}
use hivescope.Outcome.{Exception, Outcome, ok, raise}
use hivescope.Node.Master.{send_to_all, and_then}

Outcome-cases {ℓ} :
    {A : Type ℓ} (o : Outcome A) → ((a : A) × (o ≡ ok a)) ⊎ ((e : Exception) × (o ≡ raise e))
Outcome-cases (ok a) = inl (a, refl)
Outcome-cases (raise e) = inr (e, refl)

module _ {S : Type 0} (conn_send : String → S → S × Outcome (Unit {0})) where
  -- The state after a send to each in turn.
  unfoldable pub walk : List String → S → S
  walk [] s = s
  walk (peer ∷ peers) s = walk peers (conn_send peer s).0

  -- Each of these sends returns.
  unfoldable pub Returns : List String → S → Type 0
  Returns [] s = Unit
  Returns (peer ∷ peers) s = ((conn_send peer s).1 ≡ ok tt) × Returns peers (conn_send peer s).0

  -- Nothing is left, or the send to the next one raised, and that was the end.
  abbrev pub Ends : List String → S → S × Outcome (Unit {0}) → Type 0
  Ends [] s result = result ≡ (s, ok tt)
  Ends (peer ∷ peers) s result =
      (e : Exception) × ((conn_send peer s).1 ≡ raise e)
      × (result ≡ ((conn_send peer s).0, raise e))

  -- `send_to_all` sends to the connected peers in their order, each once, up to the first send that raises, whose
  -- exception it raises; with no such send it reaches all and returns.
  send_to_all_lem :
      (clients : List String) (s : S)
      → (reached left : List String) × (clients ≡ reached ++ left)
        × Returns reached s
        × Ends left (walk reached s) (send_to_all conn_send clients s)
  unfolding send_to_all walk Returns
  send_to_all_lem [] s = ([], [], refl, tt, refl)
  send_to_all_lem (peer ∷ peers) s = elim (Outcome-cases (conn_send peer s).1) [
    | inl (u, e) ↦
        let (reached, left, all, back, how) = send_to_all_lem peers (conn_send peer s).0 in
        (
          peer ∷ reached,
          left,
          ap (λ ps. peer ∷ ps) all,
          (e, back),
          subst (Ends left (walk reached (conn_send peer s).0))
              (sym (
                ap
                  (λ o.
                    and_then conn_send ((conn_send peer s).0, o)
                      (λ t. send_to_all conn_send peers t))
                  e))
              how,
        )
    | inr (x, e) ↦ (
      [],
      peer ∷ peers,
      refl,
      tt,
      (
        x,
        e,
        ap (λ o. and_then conn_send ((conn_send peer s).0, o) (λ t. send_to_all conn_send peers t))
            e,
      ),
    )
  ]
