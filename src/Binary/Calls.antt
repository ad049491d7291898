-- ===== src/Binary/Calls.antt =====
-- What the call list of `TestBinaryProtocol` shows after a handler ran.
use hivescope.Prelude.{
  ℕ, suc, ◌≡◌, String, some, List, [], ◌∷◌, ◌++◌, ◌==◌, filter, filter-append, last?-snoc,
  length-append, append-nil, if◌then◌else◌, arith,
}
use hivescope.Binary.{BinaryCall, Handled, call_of, handle, calls_of, assert_called, last_call}

calls_of-handle :
    (name : String) (h : Handled) (calls : List BinaryCall)
    → calls_of name (handle h calls) ≡ (
        if (call_of h).handler == name
        then calls_of name calls ++ call_of h ∷ []
        else calls_of name calls)
unfolding calls_of handle filter
calls_of-handle name h calls = ground (
  arith,
  filter-append (λ c. c.handler == name) calls (call_of h ∷ []),
  append-nil (calls_of name calls),
)

-- After a handler ran, the last call under a name is that call if it has the name, and what it was
-- before if not; and the count that `assert_called` accepts for a name grows by one in the first case
-- only.
pub calls-handle :
    (name : String) (h : Handled) (calls : List BinaryCall) (count : ℕ)
    → (last_call name (handle h calls)
        ≡ (if (call_of h).handler == name then some (call_of h) else last_call name calls))
      × (assert_called name (suc count) (handle h calls) ≡ (
          if (call_of h).handler == name
          then assert_called name count calls
          else assert_called name (suc count) calls))
unfolding last_call assert_called
calls-handle name h calls count = (
  ground (arith, calls_of-handle name h calls, last?-snoc (calls_of name calls) (call_of h)),
  ground
      (arith, calls_of-handle name h calls, length-append (calls_of name calls) (call_of h ∷ [])),
)
