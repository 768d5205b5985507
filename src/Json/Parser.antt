-- ===== src/Json/Parser.antt =====
-- json_types.py: `JsonParser`. An index into the text is the text from there on. What the parser asks of
-- Python's runtime about numbers is in `NumberRuntime`.
use tokenjuice_hermes.Common
use tokenjuice_hermes.Common.{
  Text, codes, starts_with, int_of_text, ℕ, zero, suc, ◌+◌, ◌-◌, ◌*◌, ℤ, ◌≡◌, Bool, true, false,
  ◌&&◌, ◌||◌, not, Option, none, some, List, [], ◌∷◌, ◌++◌, put, all, length, take, drop, is_empty,
  ltb, leb, ◌==◌, if◌then◌else◌,
}
use tokenjuice_hermes.Json.{
  JsonValue, JsonObject, Items, nil, cons, end, scalar, array, object, null, bool, int, float, str,
  fields_of, FlatJsonObject, flat_json_object,
}

pub record NumberRuntime : Type 0 where
  -- `str.isdigit` of one character
  pub is_digit : ℕ → Bool
  -- `int(raw)`, where `none` stands for the `ValueError`
  pub int_of : Text → Option ℤ
  -- whether `float(raw)` is a number
  pub has_float : Text → Bool
  -- the digits of ASCII are 0 to 9
  pub is_digit-ascii : (c : ℕ) → ltb c 128 ≡ true → is_digit c ≡ Common.is_digit c
  -- what `int` makes of a text in ASCII
  pub int_of-ascii : (s : Text) → all (λ c. ltb c 128) s ≡ true → int_of s ≡ int_of_text s

-- What a method returns: a value with the text that is left, `None`, or nothing, for want of fuel.
pub data Reading {ℓ} (A : Type ℓ) : Type ℓ where
  read : A → Text → Reading A
  refused : Reading A
  out_of_fuel : Reading A

abbrev pub is_blank : ℕ → Bool
is_blank c = c == 32 || c == 10 || c == 13 || c == 9

-- `_skip`
unfoldable pub skip : Text → Text
skip [] = []
skip (c ∷ s) = if is_blank c then skip s else c ∷ s

-- `_at`
abbrev pub at : ℕ → Text → Bool
at c [] = false
at c (d ∷ s) = d == c

abbrev is_hex_digit : ℕ → Bool
is_hex_digit c = leb b'0' c && leb c b'9' || leb b'a' c && leb c b'f' || leb b'A' c && leb c b'F'

abbrev hex_digit : ℕ → ℕ
hex_digit c = if leb c b'9' then c - b'0' else if leb c b'F' then c - 55 else c - 87

-- `int(digits, 16)`, after the number `n` that was read before them
abbrev hex_value : ℕ → Text → ℕ
hex_value n [] = n
hex_value n (c ∷ s) = hex_value (n * 16 + hex_digit c) s

-- `ESCAPES`
unfoldable pub escaped_char : ℕ → Option ℕ
escaped_char c =
    if c == b'"' || c == b'\\' || c == b'/'
    then some c
    else if c == b'b'
    then some 8
    else if c == b'f'
    then some 12
    else if c == b'n'
    then some 10
    else if c == b'r'
    then some 13
    else if c == b't'
    then some 9
    else none

-- `_escape`: the character, and how many characters stand for it behind the backslash
unfoldable pub escape : Text → Option (ℕ × ℕ)
unfolding escaped_char all
escape [] = none
escape (c ∷ s) =
    if c == b'u'
    then if length (take 4 s) == 4 && all is_hex_digit (take 4 s)
      then some (hex_value 0 (take 4 s), 5)
      else none
    else elim (escaped_char c) [ none ↦ none | some v ↦ some (v, 1) ]

abbrev pub cons_char : ℕ → Option (Text × Text) → Option (Text × Text)
cons_char c none = none
cons_char c (some (t, rest)) = some (c ∷ t, rest)

-- The loop of `_string`: `skipped` characters belong to the last escape.
unfoldable pub string_chars : ℕ → Text → Option (Text × Text)
unfolding escape
string_chars skipped [] = none
string_chars (suc skipped) (c ∷ s) = string_chars skipped s
string_chars zero (c ∷ s) = elim (c == b'"') [
  | true ↦ some ([], s)
  | false ↦ elim (c == b'\\') [
    | true ↦ elim (escape s) [ none ↦ none | some (v, n) ↦ cons_char v (string_chars n s) ]
    | false ↦ cons_char c (string_chars 0 s)
  ]
]

-- A sign that is there, one of two.
abbrev pub sign_span : (ℕ → Bool) → Text → Text × Text
sign_span is_sign [] = ([], [])
sign_span is_sign (c ∷ s) = if is_sign c then (c ∷ [], s) else ([], c ∷ s)

-- `Parsed(string.value, string.index)`
abbrev pub string_value : Option (Text × Text) → Reading JsonValue
string_value none = refused
string_value (some (t, rest)) = read (scalar (str t)) rest

abbrev pub array_of : Reading Items → Reading JsonValue
array_of (read vs rest) = read (array vs) rest
array_of refused = refused
array_of out_of_fuel = out_of_fuel

abbrev pub cons_item : JsonValue → Reading Items → Reading Items
cons_item v (read vs rest) = read (cons v vs) rest
cons_item v refused = refused
cons_item v out_of_fuel = out_of_fuel

-- What `parse` makes of the value: nothing may follow it.
unfoldable pub whole : Reading JsonValue → Option JsonValue
unfolding skip
whole (read v rest) = if is_empty (skip rest) then some v else none
whole refused = none
whole out_of_fuel = none

module _ (runtime : NumberRuntime) where
  open runtime use {is_digit, int_of, has_float}

  -- `_digits`: the digits, and the text after them
  unfoldable pub digits_span : Text → Text × Text
  digits_span [] = ([], [])
  digits_span (c ∷ s) =
      let (ds, rest) = digits_span s in if is_digit c then (c ∷ ds, rest) else ([], c ∷ s)

  -- The fraction of `_number`, with its point
  unfoldable pub fraction_span : Text → Text × Text
  unfolding digits_span
  fraction_span [] = ([], [])
  fraction_span (c ∷ s) =
      let (ds, rest) = digits_span s in if c == b'.' then (c ∷ ds, rest) else ([], c ∷ s)

  -- The exponent of `_number`, with its letter
  unfoldable pub exponent_span : Text → Text × Text
  unfolding digits_span
  exponent_span [] = ([], [])
  exponent_span (c ∷ s) =
      let (sign, s') = sign_span (λ d. d == b'+' || d == b'-') s in
      let (ds, rest) = digits_span s' in
      if c == b'e' || c == b'E' then (c ∷ (sign ++ ds), rest) else ([], c ∷ s)

  -- `float(raw) if is_float else int(raw)`
  unfoldable pub number_value : Bool → Text → Text → Reading JsonValue
  number_value true raw rest = if has_float raw then read (scalar (float raw)) rest else refused
  number_value false raw rest = elim (int_of raw) [
    | none ↦ refused
    | some i ↦ read (scalar (int i)) rest
  ]

  -- `_number`
  unfoldable pub number : Text → Reading JsonValue
  unfolding digits_span fraction_span exponent_span number_value
  number s =
      let (sign, s1) = sign_span (λ d. d == b'-') s in
      let (whole, s2) = digits_span s1 in
      let (fraction, s3) = fraction_span s2 in
      let (exponent, s4) = exponent_span s3 in
      if is_empty whole
      then refused
      else number_value (not (is_empty fraction) || not (is_empty exponent))
          (sign ++ (whole ++ (fraction ++ exponent))) s4

  -- The values that are no string, object or array.
  unfoldable pub word_or_number : Text → Reading JsonValue
  unfolding starts_with number
  word_or_number [] = refused
  word_or_number (c ∷ s) =
      if starts_with (c ∷ s) (codes "true")
      then read (scalar (bool true)) (drop 3 s)
      else if starts_with (c ∷ s) (codes "false")
      then read (scalar (bool false)) (drop 4 s)
      else if starts_with (c ∷ s) (codes "null")
      then read (scalar null) (drop 3 s)
      else if c == b'-' || is_digit c
      then number (c ∷ s)
      else refused

  -- `_value`, `_object` with its loop, and the loop of `_array`, after the character that opens them
  unfoldable mutual
    unfolding string_chars word_or_number skip put fields_of

    pub parse_value : ℕ → Text → Reading JsonValue
    parse_value zero s = out_of_fuel
    parse_value (suc f) [] = refused
    parse_value (suc f) (c ∷ s) = elim (c == b'"') [
      | true ↦ string_value (string_chars 0 s)
      | false ↦ elim (c == b'{') [
        | true ↦ elim (at b'}' (skip s)) [
          | true ↦ read (object end) (drop 1 (skip s))
          | false ↦ parse_members f [] (skip s)
        ]
        | false ↦ elim (c == b'[') [
          | true ↦ elim (at b']' (skip s)) [
            | true ↦ read (array nil) (drop 1 (skip s))
            | false ↦ array_of (parse_items f (skip s))
          ]
          | false ↦ word_or_number (c ∷ s)
        ]
      ]
    ]

    -- The loop of `_object`, with `_member`; the first character of a member is skipped unread.
    pub parse_members : ℕ → JsonObject → Text → Reading JsonValue
    parse_members zero result s = out_of_fuel
    parse_members (suc f) result [] = refused
    parse_members (suc f) result (c ∷ s) = elim (string_chars 0 s) [
      | none ↦ refused
      | some (key, s1) ↦ elim (at b':' (skip s1)) [
        | false ↦ refused
        | true ↦ elim (parse_value f (skip (drop 1 (skip s1)))) [
          | refused ↦ refused
          | out_of_fuel ↦ out_of_fuel
          | read value s2 ↦ elim (at b'}' (skip s2)) [
            | true ↦ read (object (fields_of (put key value result))) (drop 1 (skip s2))
            | false ↦ elim (at b',' (skip s2)) [
              | false ↦ refused
              | true ↦ parse_members f (put key value result) (skip (drop 1 (skip s2)))
            ]
          ]
        ]
      ]
    ]

    pub parse_items : ℕ → Text → Reading Items
    parse_items zero s = out_of_fuel
    parse_items (suc f) [] = refused
    parse_items (suc f) (c ∷ s) = elim (parse_value f (c ∷ s)) [
      | refused ↦ refused
      | out_of_fuel ↦ out_of_fuel
      | read value s1 ↦ elim (at b']' (skip s1)) [
        | true ↦ read (cons value nil) (drop 1 (skip s1))
        | false ↦ elim (at b',' (skip s1)) [
          | false ↦ refused
          | true ↦ cons_item value (parse_items f (skip (drop 1 (skip s1))))
        ]
      ]
    ]

  -- `parse_json`, with the fuel that is enough
  unfoldable pub parse_json : Text → Option JsonValue
  unfolding skip parse_value whole
  parse_json text = whole (parse_value (2 * length (skip text) + 1) (skip text))

  unfoldable pub parse_flat_json_object : Text → Option FlatJsonObject
  unfolding parse_json flat_json_object
  parse_flat_json_object text = elim (parse_json text) [ none ↦ none | some v ↦ flat_json_object v ]
