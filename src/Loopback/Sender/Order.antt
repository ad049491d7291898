-- ===== src/Loopback/Sender/Order.antt =====
-- The order in which a connection's messages leave, and what the end of its handler overtakes.
use hivescope.Prelude.{
  ℕ, ◌≡◌, refl, ◌⊎◌, sym, ap, ◌∙◌, subst, Bool, true, false, none, some, List, [], ◌∷◌, ◌++◌,
  append-nil, append_assoc, Option-cases, inl, inr,
}
use hivescope.Loopback.Sender.{
  Item, message, disconnect, Sender, Event, sync_send, sync_disconnect, callback, handler_ends,
  gets, init, step, run, turn, put_nowait, when_open,
}

module _ {A : Type 0} where
  -- The payloads of what waits.
  unfoldable pub payloads : List (Item A) → List A
  payloads [] = []
  payloads (message payload ∷ items) = payload ∷ payloads items
  payloads (disconnect code reason ∷ items) = payloads items

  payloads-append : (xs ys : List (Item A)) → payloads (xs ++ ys) ≡ payloads xs ++ payloads ys
  unfolding payloads
  payloads-append [] ys = refl
  payloads-append (message payload ∷ xs) ys = ap (λ ps. payload ∷ ps) (payloads-append xs ys)
  payloads-append (disconnect code reason ∷ xs) ys = payloads-append xs ys

  -- What was submitted is what was sent, then what a closed sender gave up, then what waits.
  abbrev pub Accounts : Sender A → Type 0
  Accounts s =
      (given_up : List A) × (s.submitted
        ≡ (s.sent ++ given_up) ++ payloads s.aqueue ++ payloads s.scheduled)
      × (s.closed ≡ none → given_up ≡ [])

  put_nowait-Accounts :
      (items : List (Item A)) (s : Sender A)
      → s.scheduled ≡ items
      → Accounts s
      → Accounts (put_nowait items s)
  unfolding payloads
  put_nowait-Accounts [] s e h = h
  put_nowait-Accounts (message p ∷ items) s e (lost, all, none_lost) = (
    lost,
    all ∙ rw (e, payloads-append s.aqueue (message p ∷ [])) (simp append_assoc refl),
    none_lost,
  )
  put_nowait-Accounts (disconnect code reason ∷ items) s e (lost, all, none_lost) = (
    lost,
    all
        ∙ rw
            (
              e,
              payloads-append s.aqueue (disconnect code reason ∷ []),
              append-nil (payloads s.aqueue),
            )
            refl,
    none_lost,
  )

  turn-Accounts :
      (accepted : Bool) (items : List (Item A)) (s : Sender A)
      → s.aqueue ≡ items
      → s.closed ≡ none
      → Accounts s
      → Accounts (turn accepted items s)
  unfolding payloads
  turn-Accounts accepted [] s e live h = h
  turn-Accounts true (message p ∷ items) s e live (lost, all, none_lost) = (
    lost,
    all
        ∙ rw (e, none_lost live, append-nil s.sent, append-nil (s.sent ++ p ∷ []))
            (simp append_assoc refl),
    none_lost,
  )
  turn-Accounts false (message p ∷ items) s e live (lost, all, none_lost) = (
    p ∷ [],
    all ∙ rw (e, none_lost live, append-nil s.sent) (simp append_assoc refl),
    λ q. absurd (cc),
  )
  turn-Accounts true (disconnect code reason ∷ items) s e live (lost, all, none_lost) =
      (lost, all ∙ rw e refl, λ q. absurd (cc))
  turn-Accounts false (disconnect code reason ∷ items) s e live (lost, all, none_lost) =
      (lost, all ∙ rw e refl, λ q. absurd (cc))

  step-Accounts : (e : Event A) (s : Sender A) → Accounts s → Accounts (step e s)
  unfolding step payloads
  step-Accounts (sync_send payload) s (lost, all, none_lost) = (
    lost,
    ap (λ ps. ps ++ payload ∷ []) all
        ∙ rw (payloads-append s.scheduled (message payload ∷ [])) (simp append_assoc refl),
    none_lost,
  )
  step-Accounts (sync_disconnect code reason) s (lost, all, none_lost) = (
    lost,
    all
        ∙ rw
            (
              payloads-append s.scheduled (disconnect code reason ∷ []),
              append-nil (payloads s.scheduled),
            )
            refl,
    none_lost,
  )
  step-Accounts callback s h = put_nowait-Accounts s.scheduled s refl h
  step-Accounts handler_ends s (lost, all, none_lost) = (
    lost,
    all
        ∙ rw (payloads-append s.aqueue (disconnect 1000 "" ∷ []), append-nil (payloads s.aqueue))
            refl,
    none_lost,
  )
  step-Accounts (gets accepted) s h = elim (Option-cases s.closed) [
    | inl e ↦
        subst (λ o. Accounts (when_open o s (turn accepted s.aqueue s))) (sym e)
          (turn-Accounts accepted s.aqueue s refl e h)
    | inr (code, e) ↦ subst (λ o. Accounts (when_open o s (turn accepted s.aqueue s))) (sym e) h
  ]

  run-Accounts : (es : List (Event A)) (s : Sender A) → Accounts s → Accounts (run es s)
  unfolding run
  run-Accounts [] s h = h
  run-Accounts (e ∷ es) s h = run-Accounts es (step e s) (step-Accounts e s h)

  -- Whatever the order of the protocol's calls, the loop's callbacks, the handler's end and the sender's
  -- turns: what `sync_send` was given is, in that order, what the socket took, then what a sender that closed
  -- the socket gave up, then what still waits; an open sender has given up nothing.
  pub run-IsFifo :
      (es : List (Event A))
      → let s = run es init in
        (given_up : List A) × (s.submitted
          ≡ s.sent ++ (given_up ++ (payloads s.aqueue ++ payloads s.scheduled)))
        × ((given_up ≡ []) ⊎ ((code : ℕ) × (s.closed ≡ some code)))
  unfolding init payloads
  run-IsFifo es =
      let s = run es init in
      let (lost, all, none_lost) = run-Accounts es init ([], refl, λ e. refl) in
      (
        lost,
        all ∙ simp append_assoc refl,
        elim (Option-cases s.closed) [ inl e ↦ inl (none_lost e) | inr c ↦ inr c ],
      )
