-- ===== src/Json/Printer.antt =====
-- A writer of JSON, the reference that the parser of json_types.py is held against: the separators of
-- `json.dumps`, and only quotation marks and backslashes escaped. Each function puts the text before a
-- text that follows.
use tokenjuice_hermes.Common.{
  Text, codes, int_text, ◌≡◌, true, false, [], ◌∷◌, ◌++◌, has_key, digit_count, max_str_digits, leb,
  ◌==◌, ◌||◌, if◌then◌else◌,
}
use tokenjuice_hermes.Json.{
  JsonValue, JsonScalar, JsonObject, Items, Fields, nil, cons, end, field, scalar, array, object,
  null, bool, int, float, str,
}
use tokenjuice_hermes.Json.Parser.{NumberRuntime, read, number}

-- The characters of a string, with the quotation mark that closes it.
unfoldable pub print_chars : Text → Text → Text
print_chars [] rest = b'"' ∷ rest
print_chars (c ∷ s) rest =
    let more = print_chars s rest in if c == b'"' || c == b'\\' then b'\\' ∷ c ∷ more else c ∷ more

unfoldable pub print_scalar : JsonScalar → Text → Text
unfolding print_chars
print_scalar null rest = codes "null" ++ rest
print_scalar (bool true) rest = codes "true" ++ rest
print_scalar (bool false) rest = codes "false" ++ rest
print_scalar (int i) rest = int_text i ++ rest
print_scalar (float x) rest = x ++ rest
print_scalar (str s) rest = b'"' ∷ print_chars s rest

unfoldable mutual
  unfolding print_scalar print_chars

  pub print : JsonValue → Text → Text
  print (scalar v) rest = print_scalar v rest
  print (array nil) rest = b'[' ∷ b']' ∷ rest
  print (array (cons v vs)) rest = b'[' ∷ print v (print_items vs rest)
  print (object end) rest = b'{' ∷ b'}' ∷ rest
  print (object (field k v fs)) rest =
      b'{' ∷ b'"' ∷ print_chars k (b':' ∷ 32 ∷ print v (print_fields fs rest))

  -- The items after the first one, and the bracket that closes them.
  pub print_items : Items → Text → Text
  print_items nil rest = b']' ∷ rest
  print_items (cons v vs) rest = b',' ∷ 32 ∷ print v (print_items vs rest)

  pub print_fields : Fields → Text → Text
  print_fields end rest = b'}' ∷ rest
  print_fields (field k v fs) rest =
      b',' ∷ 32 ∷ b'"' ∷ print_chars k (b':' ∷ 32 ∷ print v (print_fields fs rest))

module _ (runtime : NumberRuntime) where
  -- What can be written and read: integers of 4300 digits at most, floats kept as a literal that the
  -- parser reads as that float, and no key that is among those before it.
  abbrev pub IsPrintableScalar : JsonScalar → Type 0
  IsPrintableScalar (int i) = leb (digit_count i) max_str_digits ≡ true
  IsPrintableScalar (float x) = number runtime x ≡ read (scalar (float x)) []
  IsPrintableScalar v = Unit

  unfoldable mutual
    pub IsPrintable : JsonValue → Type 0
    IsPrintable (scalar v) = IsPrintableScalar v
    IsPrintable (array vs) = IsPrintableItems vs
    IsPrintable (object fs) = IsPrintableFields [] fs

    pub IsPrintableItems : Items → Type 0
    IsPrintableItems nil = Unit
    IsPrintableItems (cons v vs) = IsPrintable v × IsPrintableItems vs

    pub IsPrintableFields : JsonObject → Fields → Type 0
    IsPrintableFields before end = Unit
    IsPrintableFields before (field k v fs) =
        (has_key k before ≡ false) × IsPrintable v × IsPrintableFields (before ++ (k, v) ∷ []) fs
