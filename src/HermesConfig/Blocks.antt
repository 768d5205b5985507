-- ===== src/HermesConfig/Blocks.antt =====
-- hermes_config.py: the reader of config.yaml reads what a document says.
use mathlib.Core.List.{append_assoc, append-nil}
use tokenjuice_hermes.Common.{
  Bool-cases, ◌⊎◌, inl, inr, Text, strip, ℕ, zero, suc, ◌+◌, ◌≤◌, ◌<◌, ◌≡◌, refl, sym, ap, ◌∙◌,
  Bool, false, none, some, List, [], ◌∷◌, ◌++◌, put, length, length-append, is_empty, ltb, any,
  ◌==◌, arith,
}
use tokenjuice_hermes.HermesConfig.{
  YamlEntry, key_value, partition_colon, parse_yaml_scalar, child_indent, parse_yaml_mapping,
}
use tokenjuice_hermes.HermesConfig.Ends.{IsOver}
use tokenjuice_hermes.Json.{JsonObject, scalar, object, end, fields_of}
use tokenjuice_hermes.Json.Parser.{NumberRuntime}

-- What is written at one indent: lines that say nothing, keys with a value on the line, and keys with a block
-- that is indented by `suc step` more.
pub data YamlBlock : Type 0 where
  done : YamlBlock
  note : Text → YamlBlock → YamlBlock
  plain : Text → Text → YamlBlock → YamlBlock
  nested : Text → ℕ → YamlBlock → YamlBlock → YamlBlock

abbrev pub line : ℕ → Text → YamlEntry
line n text = record { indent = n; text = text }

-- The entries of a block at an indent.
abbrev pub written : ℕ → YamlBlock → List YamlEntry
written n done = []
written n (note text more) = line n text ∷ written n more
written n (plain key value more) = line n (key ++ b':' ∷ value) ∷ written n more
written n (nested key step inside more) =
    line n (key ++ b':' ∷ []) ∷ (written (suc (n + step)) inside ++ written n more)

abbrev pub has_colon : Text → Bool
has_colon = any (λ c. c == b':')

-- Keys are not blank and have no colon, values are not blank, and notes have no colon.
abbrev pub IsReadable : YamlBlock → Type 0
IsReadable done = Unit
IsReadable (note text more) = (has_colon text ≡ false) × IsReadable more
IsReadable (plain key value more) =
    (has_colon key ≡ false)
    × (is_empty (strip key) ≡ false)
    × (is_empty (strip value) ≡ false)
    × IsReadable more
IsReadable (nested key step inside more) =
    (has_colon key ≡ false) × (is_empty (strip key) ≡ false) × IsReadable inside × IsReadable more

partition_colon-append :
    (key value : Text)
    → has_colon key ≡ false
    → partition_colon (key ++ b':' ∷ value) ≡ some (key, value)
unfolding partition_colon any
partition_colon-append [] value h = refl
partition_colon-append (c ∷ key) value h = elim (Bool-cases (c == b':')) [
  | inl e ↦ absurd (ground (arith, e, h))
  | inr e ↦
      let later = partition_colon-append key value (ground (arith, e, h)) in rw (e, later) refl
]

partition_colon-none : (text : Text) → has_colon text ≡ false → partition_colon text ≡ none
unfolding partition_colon any
partition_colon-none [] h = refl
partition_colon-none (c ∷ text) h = elim (Bool-cases (c == b':')) [
  | inl e ↦ absurd (ground (arith, e, h))
  | inr e ↦ let later = partition_colon-none text (ground (arith, e, h)) in rw (e, later) refl
]

key_value_lem :
    (key value : Text)
    → has_colon key ≡ false
    → is_empty (strip key) ≡ false
    → key_value (key ++ b':' ∷ value) ≡ some (strip key, strip value)
key_value_lem key value h e =
    let split = partition_colon-append key value h in
    unfold key_value in rw (split, e, key_value) refl

-- An entry of an indent that is too small ends the mapping, and so does the end of the entries.
IsOver-written :
    (n least : ℕ) (block : YamlBlock) (rest : List YamlEntry)
    → n < least
    → IsOver least rest
    → IsOver least (written n block ++ rest)
IsOver-written n least done rest h over = over
IsOver-written n least (note text more) rest h over = ground (arith, h)
IsOver-written n least (plain key value more) rest h over = ground (arith, h)
IsOver-written n least (nested key step inside more) rest h over = ground (arith, h)

IsOver-mono : (least n : ℕ) (rest : List YamlEntry) → least ≤ n → IsOver least rest → IsOver n rest
IsOver-mono least n [] h over = tt
IsOver-mono least n (entry ∷ rest) h over = ground (arith, h, over)

module _ (runtime : NumberRuntime) where
  -- The mapping that a block adds to one: a key that comes again keeps its place and gets the new value.
  abbrev pub mapping_of : YamlBlock → JsonObject → JsonObject
  mapping_of done d = d
  mapping_of (note text more) d = mapping_of more d
  mapping_of (plain key value more) d =
      mapping_of more (put (strip key) (scalar (parse_yaml_scalar runtime (strip value))) d)
  mapping_of (nested key step inside more) d =
      mapping_of more (put (strip key) (object (fields_of (mapping_of inside []))) d)

  -- The indent of the first entry of a block, if it has one.
  child_indent-written :
      (n step : ℕ) (block : YamlBlock) (rest : List YamlEntry)
      → IsOver (suc n) rest
      → (child_indent runtime n (written (suc (n + step)) block ++ rest) ≡ some (suc (n + step)))
        ⊎ ((child_indent runtime n (written (suc (n + step)) block ++ rest) ≡ none)
            × (written (suc (n + step)) block ++ rest ≡ rest)
            × (mapping_of block [] ≡ []))
  child_indent-written n step done [] over = inr (refl, refl, refl)
  child_indent-written n step done (entry ∷ rest) over = inr (ground (arith, over), refl, refl)
  child_indent-written n step (note text more) rest over = inl (ground arith)
  child_indent-written n step (plain key value more) rest over = inl (ground arith)
  child_indent-written n step (nested key step' inside more) rest over = inl (ground arith)

  parse_yaml_mapping-over :
      (f least : ℕ) (d : JsonObject) (rest : List YamlEntry)
      → IsOver least rest
      → parse_yaml_mapping runtime (suc f) least d rest ≡ some (d, rest)
  unfolding parse_yaml_mapping
  parse_yaml_mapping-over f least d [] over = refl
  parse_yaml_mapping-over f least d (entry ∷ rest) over = rw (over, parse_yaml_mapping) refl

  -- A key with nothing on its line, before a block of its own, and before none.
  module _ (f least n : ℕ) (key : Text) (d : JsonObject) (ts : List YamlEntry)
      (within : ltb n least ≡ false)
      (keyed : key_value (key ++ b':' ∷ []) ≡ some (strip key, [])) where
    parse_yaml_mapping-child :
        (m : ℕ) (child : JsonObject) (rest : List YamlEntry)
        → child_indent runtime n ts ≡ some m
        → parse_yaml_mapping runtime f m [] ts ≡ some (child, rest)
        → parse_yaml_mapping runtime (suc f) least d (line n (key ++ b':' ∷ []) ∷ ts)
          ≡ parse_yaml_mapping runtime f least (put (strip key) (object (fields_of child)) d) rest
    unfolding parse_yaml_mapping
    parse_yaml_mapping-child m child rest found parsed =
        rw (parse_yaml_mapping, within, keyed, found, parsed) refl

    parse_yaml_mapping-childless :
        child_indent runtime n ts ≡ none
        → parse_yaml_mapping runtime (suc f) least d (line n (key ++ b':' ∷ []) ∷ ts)
          ≡ parse_yaml_mapping runtime f least (put (strip key) (object end) d) ts
    unfolding parse_yaml_mapping
    parse_yaml_mapping-childless absent = rw (parse_yaml_mapping, within, keyed, absent) refl

  parse_yaml_mapping-written_rest :
      (f least n : ℕ) (block : YamlBlock) (d : JsonObject) (rest : List YamlEntry)
      → length (written n block ++ rest) < f
      → least ≤ n
      → IsReadable block
      → IsOver least rest
      → parse_yaml_mapping runtime f least d (written n block ++ rest)
        ≡ some (mapping_of block d, rest)
  unfolding parse_yaml_mapping
  parse_yaml_mapping-written_rest zero least n block d rest h le readable over =
      absurd (omega (arith, h))
  parse_yaml_mapping-written_rest (suc f) least n done d rest h le readable over =
      parse_yaml_mapping-over f least d rest over
  parse_yaml_mapping-written_rest (suc f) least n (note text more) d rest h le (no_colon, readable)
        over =
      let within : ltb n least ≡ false = ground (arith, le) in
      let split = partition_colon-none text no_colon in
      let no_key : key_value text ≡ none = unfold key_value in rw (split, key_value) refl in
      rw (within, no_key, parse_yaml_mapping)
        (parse_yaml_mapping-written_rest f least n more d rest (omega (arith, h)) le readable over)
  parse_yaml_mapping-written_rest (suc f) least n (plain key value more) d rest h le
        (no_colon, some_key, some_value, readable) over =
      let within : ltb n least ≡ false = ground (arith, le) in
      let keyed = key_value_lem key value no_colon some_key in
      let d' = put (strip key) (scalar (parse_yaml_scalar runtime (strip value))) d in
      rw (within, keyed, some_value, parse_yaml_mapping)
        (parse_yaml_mapping-written_rest f least n more d' rest (omega (arith, h)) le readable over)
  parse_yaml_mapping-written_rest (suc f) least n (nested key step inside more) d rest h le
        (no_colon, some_key, inner, readable) over =
      let within : ltb n least ≡ false = ground (arith, le) in
      let keyed = key_value_lem key [] no_colon some_key in
      let m = suc (n + step) in
      let ts = written n more ++ rest in
      let assoc : (written m inside ++ written n more) ++ rest ≡ written m inside ++ ts =
        append_assoc (written m inside) (written n more) rest in
      let over_more = λ (l : ℕ) (lt : n < l).
        IsOver-written n l more rest lt (IsOver-mono least l rest (omega (arith, le, lt)) over) in
      let short : length (written m inside ++ ts) < f = omega (arith, h, ap length assoc) in
      let longer = length-append (written m inside) ts in
      let d' = put (strip key) (object (fields_of (mapping_of inside []))) d in
      let later =
        parse_yaml_mapping-written_rest f least n more d' rest (omega (arith, short, longer)) le
          readable over in
      let entry = line n (key ++ b':' ∷ []) in
      ap (λ us. parse_yaml_mapping runtime (suc f) least d (entry ∷ us)) assoc
      ∙ elim (child_indent-written n step inside ts (over_more (suc n) (omega arith))) [
        | inl found ↦
            parse_yaml_mapping-child f least n key d (written m inside ++ ts) within keyed m
              (mapping_of inside []) ts found
              (parse_yaml_mapping-written_rest f m m inside [] ts short (omega arith) inner
                (over_more m (omega arith)))
            ∙ later
        | inr (absent, same, no_child) ↦
            let d'-eq : put (strip key) (object end) d ≡ d' =
              ap (λ child. put (strip key) (object (fields_of child)) d) (sym no_child) in
            parse_yaml_mapping-childless f least n key d (written m inside ++ ts) within keyed
              absent
            ∙ (ap (λ us. parse_yaml_mapping runtime f least (put (strip key) (object end) d) us)
                  same
                ∙ (ap (λ e. parse_yaml_mapping runtime f least e ts) d'-eq ∙ later))
      ]

  -- The reader of a whole document reads a block that starts at any indent as the mapping that the block
  -- says, if its keys are not blank and have no colon, its values are not blank, and its other lines
  -- have no colon; it has enough fuel and leaves no entry.
  pub parse_yaml_mapping-written :
      (n : ℕ) (block : YamlBlock)
      → IsReadable block
      → parse_yaml_mapping runtime (suc (length (written n block))) 0 [] (written n block)
        ≡ some (mapping_of block [], [])
  parse_yaml_mapping-written n block readable =
      let tokens = written n block in
      ap (λ us. parse_yaml_mapping runtime (suc (length tokens)) 0 [] us) (sym (append-nil tokens))
      ∙ parse_yaml_mapping-written_rest (suc (length tokens)) 0 n block [] []
          (omega (arith, length-append tokens [])) (omega arith) readable tt
