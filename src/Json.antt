-- ===== src/Json.antt =====
-- tokenjuice_hermes/json_types.py: the JSON values that the hooks exchange. A float is kept as the
-- literal that it was read from; whether such a literal is zero is the Python runtime's answer.
pub mod Parser
pub mod Ends
pub mod Printer
pub mod Numbers
pub mod Steps
pub mod RoundTrip
use tokenjuice_hermes.Common.{
  Text, ℤ, pos, zero, Bool, true, false, Option, none, some, List, [], ◌∷◌, Dict, get, codes, ◌≡◌,
  refl, ap, lower, mem_text, ◌||◌,
}

pub data JsonScalar : Type 0 where
  null : JsonScalar
  bool : Bool → JsonScalar
  int : ℤ → JsonScalar
  float : Text → JsonScalar
  str : Text → JsonScalar

mutual
  pub data JsonValue : Type 0 where
    scalar : JsonScalar → JsonValue
    array : Items → JsonValue
    object : Fields → JsonValue

  pub data Items : Type 0 where
    nil : Items
    cons : JsonValue → Items → Items

  -- the entries of a `dict`, in insertion order
  pub data Fields : Type 0 where
    end : Fields
    field : Text → JsonValue → Fields → Fields

abbrev pub JsonObject : Type 0
JsonObject = Dict JsonValue

abbrev pub FlatJsonObject : Type 0
FlatJsonObject = Dict JsonScalar

unfoldable pub entries : Fields → JsonObject
entries end = []
entries (field k v fs) = (k, v) ∷ entries fs

unfoldable pub fields_of : JsonObject → Fields
fields_of [] = end
fields_of ((k, v) ∷ d) = field k v (fields_of d)

pub fields_of-entries : (fs : Fields) → fields_of (entries fs) ≡ fs
unfolding fields_of entries
fields_of-entries end = refl
fields_of-entries (field k v fs) = ap (field k v) (fields_of-entries fs)

unfoldable pub items_of : List JsonValue → Items
items_of [] = nil
items_of (v ∷ vs) = cons v (items_of vs)

unfoldable pub elements : Items → List JsonValue
elements nil = []
elements (cons v vs) = v ∷ elements vs

-- `value if isinstance(value, str) else None`, and so on; a Boolean is no integer here.
abbrev pub str? : JsonValue → Option Text
str? (scalar (str s)) = some s
str? _ = none

abbrev pub int? : JsonValue → Option ℤ
int? (scalar (int i)) = some i
int? _ = none

abbrev pub bool? : JsonValue → Option Bool
bool? (scalar (bool b)) = some b
bool? _ = none

abbrev pub object? : JsonValue → Option JsonObject
object? (object fs) = some (entries fs)
object? _ = none

-- `d.get(k)`, where a missing key and a stored `None` are alike
unfoldable pub get_value : Text → JsonObject → JsonValue
unfolding get
get_value k d = elim (get k d) [ none ↦ scalar null | some v ↦ v ]

unfoldable pub get_scalar : Text → FlatJsonObject → JsonScalar
unfolding get
get_scalar k d = elim (get k d) [ none ↦ null | some v ↦ v ]

-- The loop of `parse_flat_json_object`: the object, if every field is a scalar.
unfoldable pub flat_fields : Fields → Option FlatJsonObject
flat_fields end = some []
flat_fields (field k (scalar s) fs) = elim (flat_fields fs) [
  | none ↦ none
  | some d ↦ some ((k, s) ∷ d)
]
flat_fields (field k v fs) = none

-- `parse_flat_json_object`, after the text is parsed
unfoldable pub flat_json_object : JsonValue → Option FlatJsonObject
unfolding flat_fields
flat_json_object (object fs) = flat_fields fs
flat_json_object _ = none

module _ (is_zero_float : Text → Bool) where
  -- `isinstance(value, int | float) and value != 0`; `True` is an `int`
  unfoldable pub is_nonzero_number : JsonScalar → Bool
  is_nonzero_number (bool b) = b
  is_nonzero_number (int (pos zero)) = false
  is_nonzero_number (int i) = true
  is_nonzero_number (float x) = elim (is_zero_float x) [ true ↦ false | false ↦ true ]
  is_nonzero_number _ = false

abbrev pub error_statuses : List Text
error_statuses = codes "error" ∷ codes "errored" ∷ codes "failed" ∷ codes "failure" ∷ []

unfoldable pub is_error_status : JsonScalar → Bool
unfolding lower mem_text
is_error_status (str s) = mem_text (lower s) error_statuses
is_error_status _ = false

module _ (is_zero_float : Text → Bool) where
  unfoldable pub is_error_payload : FlatJsonObject → Bool
  is_error_payload payload =
      is_nonzero_number is_zero_float (get_scalar (codes "exit") payload)
      || is_error_status (get_scalar (codes "status") payload)

module _ (is_zero_float : Text → Bool) where
  -- `bool(value)`
  unfoldable pub truthy : JsonValue → Bool
  truthy (scalar (str [])) = false
  truthy (scalar (str s)) = true
  truthy (scalar s) = is_nonzero_number is_zero_float s
  truthy (array nil) = false
  truthy (object end) = false
  truthy _ = true
