-- ===== src/Loopback/Sender/Overtaking.antt =====
-- What the end of a handler of hivescope/plugins/loopback.py overtakes.
use hivescope.Prelude.{
  ◌≡◌, refl, ap, ◌∙◌, sym, subst, ◌⊎◌, inl, inr, Bool, true, false, none, some, List, [], ◌∷◌, ◌++◌,
}
use hivescope.Loopback.Sender.{
  Item, disconnect, Sender, Event, sync_send, sync_disconnect, callback, handler_ends, gets, step,
  run, turn, put_nowait, when_open,
}

module _ {A : Type 0} where
  -- The sender is about to close the socket, or has, with the code 1000.
  abbrev Leaving : Sender A → Type 0
  Leaving s =
      ((s.closed ≡ none) × (items : List (Item A)) × (s.aqueue ≡ disconnect 1000 "" ∷ items))
      ⊎ (s.closed ≡ some 1000)

  put_nowait-Leaving :
      (items : List (Item A)) (s : Sender A)
      → Leaving s
      → Leaving (put_nowait items s) × ((put_nowait items s).sent ≡ s.sent)
  put_nowait-Leaving [] s h = (h, refl)
  put_nowait-Leaving (item ∷ items) s (inl (live, queue, e)) =
      (inl (live, queue ++ item ∷ [], ap (λ q. q ++ item ∷ []) e), refl)
  put_nowait-Leaving (item ∷ items) s (inr e) = (inr e, refl)

  turn-Leaving :
      (accepted : Bool) (queue : List (Item A)) (s : Sender A)
      → Leaving (turn accepted (disconnect 1000 "" ∷ queue) s)
        × ((turn accepted (disconnect 1000 "" ∷ queue) s).sent ≡ s.sent)
  turn-Leaving true queue s = (inr refl, refl)
  turn-Leaving false queue s = (inr refl, refl)

  step-Leaving :
      (e : Event A) (s : Sender A) → Leaving s → Leaving (step e s) × ((step e s).sent ≡ s.sent)
  unfolding step
  step-Leaving (sync_send payload) s h = (h, refl)
  step-Leaving (sync_disconnect code reason) s h = (h, refl)
  step-Leaving callback s h = put_nowait-Leaving s.scheduled s h
  step-Leaving handler_ends s (inl (live, queue, e)) =
      (inl (live, queue ++ disconnect 1000 "" ∷ [], ap (λ q. q ++ disconnect 1000 "" ∷ []) e), refl)
  step-Leaving handler_ends s (inr e) = (inr e, refl)
  step-Leaving (gets accepted) s (inl (live, queue, e)) =
      subst (λ t. Leaving t × (t.sent ≡ s.sent))
        (sym
          (ap (λ o. when_open o s (turn accepted s.aqueue s)) live ∙ ap (λ q. turn accepted q s) e))
        (turn-Leaving accepted queue s)
  step-Leaving (gets accepted) s (inr e) =
      subst (λ t. Leaving t × (t.sent ≡ s.sent))
        (sym (ap (λ o. when_open o s (turn accepted s.aqueue s)) e)) (inr e, refl)

  run-Leaving :
      (es : List (Event A)) (s : Sender A)
      → Leaving s
      → Leaving (run es s) × ((run es s).sent ≡ s.sent)
  unfolding run
  run-Leaving [] s h = (h, refl)
  run-Leaving (e ∷ es) s h =
      let (k, same) = step-Leaving e s h in
      let (later, rest) = run-Leaving es (step e s) k in (later, rest ∙ same)

  code_of : (s : Sender A) → Leaving s → (s.closed ≡ none) ⊎ (s.closed ≡ some 1000)
  code_of s (inl h) = inl h.0
  code_of s (inr e) = inr e

  -- When a handler ends while the queue is empty, its item overtakes what the protocol has scheduled on the
  -- loop: whatever follows, no message leaves any more, and the socket is closed with 1000, if at all, whatever
  -- code a `sync_disconnect` that came before has asked for.
  handler_end_overtakes :
      (es : List (Event A)) (s : Sender A)
      → s.closed ≡ none
      → s.aqueue ≡ []
      → let t = run (handler_ends ∷ es) s in
        (t.sent ≡ s.sent) × ((t.closed ≡ none) ⊎ (t.closed ≡ some 1000))
  unfolding run step
  handler_end_overtakes es s live empty =
      let (h, same) =
        run-Leaving es (step handler_ends s)
          (inl (live, [], ap (λ q. q ++ disconnect 1000 "" ∷ []) empty)) in
      (same, code_of (run es (step handler_ends s)) h)
