-- ===== src/Value.antt =====
-- The Python values that payloads, contexts and sessions hold: JSON, and bytes. Floating-point
-- numbers are not modelled. A dict is its items in insertion order.
use Prim.Native.Nat.{Ordering}
use Prim.Native.String.{compare}
use hivescope.Prelude.{
  leb, ℕ, suc, String, Bool, true, false, not, ◌&&◌, Option, none, some, List, [], ◌∷◌, nat_eq,
  ◌==◌, if◌then◌else◌,
}
use hivescope.Prelude.Int.{ℤ, pos, eq_ℤ, leb_ℤ}
use hivescope.Outcome.{Outcome, ok, raise, attribute_error, type_error}

mutual
  pub data Value : Type 0 where
    null : Value
    bool : Bool → Value
    int : ℤ → Value
    text : String → Value
    bytes : List ℕ → Value
    arr : Items → Value
    dict : Fields → Value

  pub data Items : Type 0 where
    nil : Items
    cons : Value → Items → Items

  pub data Fields : Type 0 where
    end : Fields
    field : String → Value → Fields → Fields

-- A recorded payload: a value, or an OVOS `Message` by its attributes.
pub data Payload : Type 0 where
  plain : Value → Payload
  message : (msg_type content context : Value) → Payload

unfoldable pub lookup : String → Fields → Option Value
lookup k end = none
lookup k (field j v fs) = let rest = lookup k fs in if j == k then some v else rest

abbrev pub or_null : Option Value → Value
or_null none = null
or_null (some v) = v

-- d.get(k)
unfoldable pub get : String → Fields → Value
unfolding lookup
get k fs = or_null (lookup k fs)

-- bool(v)
unfoldable pub truthy : Value → Bool
truthy null = false
truthy (bool b) = b
truthy (int n) = not (eq_ℤ n (pos 0))
truthy (text s) = not (s == "")
truthy (bytes []) = false
truthy (bytes (b ∷ bs)) = true
truthy (arr nil) = false
truthy (arr (cons v vs)) = true
truthy (dict end) = false
truthy (dict (field k v fs)) = true

-- v or w
unfoldable pub or_else : Value → Value → Value
unfolding truthy
or_else v w = if truthy v then v else w

-- v.get(k), on whatever `v` is
unfoldable pub value_get : String → Value → Outcome Value
unfolding get
value_get k (dict fs) = ok (get k fs)
value_get k _ = raise attribute_error

abbrev pub is_null : Value → Bool
is_null null = true
is_null _ = false

-- isinstance(v, dict)
abbrev pub is_dict : Value → Bool
is_dict (dict fs) = true
is_dict _ = false

-- v if isinstance(v, dict) else {}
abbrev pub dict_or_empty : Value → Fields
dict_or_empty (dict fs) = fs
dict_or_empty _ = end

unfoldable pub size : Fields → ℕ
size end = 0
size (field k v fs) = suc (size fs)

-- `True == 1` and `False == 0` hold.
abbrev as_number : Value → Option ℤ
as_number (bool true) = some (pos 1)
as_number (bool false) = some (pos 0)
as_number (int n) = some n
as_number _ = none

abbrev same_number : ℤ → Option ℤ → Bool
same_number m none = false
same_number m (some n) = eq_ℤ m n

abbrev same_bytes : List ℕ → List ℕ → Bool
same_bytes [] [] = true
same_bytes (x ∷ xs) (y ∷ ys) = nat_eq x y && same_bytes xs ys
same_bytes _ _ = false

abbrev is_bytes : List ℕ → Value → Bool
is_bytes xs (bytes ys) = same_bytes xs ys
is_bytes xs _ = false

abbrev pub is_text : String → Value → Bool
is_text s (text t) = s == t
is_text s _ = false

-- v == w; two dicts are equal if they have equal values at the same keys, in any order
unfoldable mutual
  unfolding lookup size

  pub eq_value : Value → Value → Bool
  eq_value null w = is_null w
  eq_value (bool true) w = same_number (pos 1) (as_number w)
  eq_value (bool false) w = same_number (pos 0) (as_number w)
  eq_value (int n) w = same_number n (as_number w)
  eq_value (text s) w = is_text s w
  eq_value (bytes xs) w = is_bytes xs w
  eq_value (arr xs) w = elim w [ arr ys ↦ eq_items xs ys | _ ↦ false ]
  eq_value (dict fs) w = elim w [
    | dict gs ↦ nat_eq (size fs) (size gs) && sub_fields fs gs
    | _ ↦ false
  ]

  pub eq_items : Items → Items → Bool
  eq_items nil ys = elim ys [ nil ↦ true | cons y ys' ↦ false ]
  eq_items (cons x xs) ys = elim ys [ nil ↦ false | cons y ys' ↦ eq_value x y && eq_items xs ys' ]

  pub sub_fields : Fields → Fields → Bool
  sub_fields end gs = true
  sub_fields (field k v fs) gs = elim (lookup k gs) [
    | none ↦ false
    | some w ↦ eq_value v w && sub_fields fs gs
  ]

abbrev le_number : ℤ → Option ℤ → Outcome Bool
le_number m none = raise type_error
le_number m (some n) = ok (leb_ℤ m n)

-- Code points decide, first to last.
abbrev le_text : String → Value → Outcome Bool
le_text s (text t) = ok (elim (compare s t) [ Ordering.gt ↦ false | _ ↦ true ])
le_text s _ = raise type_error

abbrev le_byte_list : List ℕ → List ℕ → Bool
le_byte_list [] ys = true
le_byte_list (x ∷ xs) [] = false
le_byte_list (x ∷ xs) (y ∷ ys) = if nat_eq x y then le_byte_list xs ys else leb x y

abbrev le_bytes : List ℕ → Value → Outcome Bool
le_bytes xs (bytes ys) = ok (le_byte_list xs ys)
le_bytes xs _ = raise type_error

-- v <= w; values of two sorts, None and dicts have no order
unfoldable mutual
  unfolding eq_value

  pub le_value : Value → Value → Outcome Bool
  le_value null w = raise type_error
  le_value (bool true) w = le_number (pos 1) (as_number w)
  le_value (bool false) w = le_number (pos 0) (as_number w)
  le_value (int n) w = le_number n (as_number w)
  le_value (text s) w = le_text s w
  le_value (bytes xs) w = le_bytes xs w
  le_value (arr xs) w = elim w [ arr ys ↦ le_items xs ys | _ ↦ raise type_error ]
  le_value (dict fs) w = raise type_error

  pub le_items : Items → Items → Outcome Bool
  le_items nil ys = ok true
  le_items (cons x xs) ys = elim ys [
    | nil ↦ ok false
    | cons y ys' ↦ if eq_value x y then le_items xs ys' else le_value x y
  ]

-- The value at a text that is known to be one.
abbrev pub texts : List String → Items
texts [] = nil
texts (s ∷ ss) = cons (text s) (texts ss)
