-- ===== src/HermesConfig.antt =====
-- tokenjuice_hermes/hermes_config.py: the configuration of the plugin in the host's config.yaml, with the reader for
-- mappings and scalars of YAML. The file's text is an argument.
pub mod Ends
pub mod Blocks
use tokenjuice_hermes.Common.{
  Text, codes, text_eq, mem_text, lower, strip, splitlines, starts_with, ℕ, zero, suc, ◌+◌, ◌-◌,
  ◌≡◌, Bool, true, false, ◌&&◌, ◌||◌, not, Option, none, some, List, [], ◌∷◌, Dict, put, keep, map,
  length, take, drop, reverse, is_empty, ltb, leb, ◌==◌, if◌then◌else◌,
}
use tokenjuice_hermes.Json.{
  JsonValue, JsonScalar, JsonObject, scalar, object, null, bool, int, float, str, end, fields_of,
  get_value, object?,
}
use tokenjuice_hermes.Json.Parser.{NumberRuntime}

-- `_YamlEntry`
pub record YamlEntry : Type 0 where
  pub indent : ℕ
  pub text : Text

abbrev pub is_quote : ℕ → Bool
is_quote c = c == b'"' || c == b'\''

-- The quotation mark that is open behind a character.
abbrev next_quote : ℕ → Option ℕ → Option ℕ
next_quote c none = if is_quote c then some c else none
next_quote c (some q) = if is_quote c && c == q then none else some q

-- `_strip_yaml_comment`, with the quotation mark that is open
unfoldable pub strip_comment : Option ℕ → Text → Text
strip_comment in_quote [] = []
strip_comment in_quote (c ∷ line) =
    let rest = strip_comment (next_quote c in_quote) line in
    elim in_quote [ none ↦ if c == b'#' then [] else c ∷ rest | some q ↦ c ∷ rest ]

-- `len(stripped) - len(stripped.lstrip(" "))`
unfoldable pub leading_spaces : Text → ℕ
leading_spaces [] = 0
leading_spaces (c ∷ s) = let rest = leading_spaces s in if c == 32 then suc rest else 0

-- The loop of `_load_yaml`; a line of `splitlines` has no line feed to strip.
unfoldable pub yaml_entries : List Text → List YamlEntry
unfolding strip_comment strip leading_spaces
yaml_entries [] = []
yaml_entries (line ∷ lines) =
    let rest = yaml_entries lines in
    let stripped = strip_comment none line in
    if is_empty (strip stripped)
    then rest
    else record { indent = leading_spaces stripped; text = strip stripped } ∷ rest

-- `text.partition(":")`, where there is a colon
unfoldable pub partition_colon : Text → Option (Text × Text)
partition_colon [] = none
partition_colon (c ∷ s) =
    let rest = partition_colon s in
    if c == b':'
    then some ([], s)
    else elim rest [ none ↦ none | some (before, after) ↦ some (c ∷ before, after) ]

-- The key and the value of an entry, if it has a key and a colon.
unfoldable pub key_value : Text → Option (Text × Text)
unfolding strip partition_colon
key_value text = elim (partition_colon text) [
  | none ↦ none
  | some (key, value) ↦ if is_empty (strip key) then none else some (strip key, strip value)
]

-- `_is_quoted`
unfoldable pub is_quoted : Text → Bool
is_quoted [] = false
is_quoted (c ∷ s) = elim (reverse s) [ [] ↦ false | d ∷ t ↦ c == d && is_quote c ]

module _ (runtime : NumberRuntime) where
  open runtime use {int_of, has_float}

  -- `_yaml_scalar_value`
  unfoldable pub yaml_scalar_value : Text → JsonScalar
  unfolding lower mem_text
  yaml_scalar_value value =
      if mem_text (lower value) (codes "null" ∷ codes "~" ∷ [])
      then null
      else if mem_text (lower value) (codes "true" ∷ codes "yes" ∷ codes "on" ∷ [])
      then bool true
      else if mem_text (lower value) (codes "false" ∷ codes "no" ∷ codes "off" ∷ [])
      then bool false
      else elim (int_of value) [
        | some i ↦ int i
        | none ↦ if has_float value then float value else str value
      ]

  -- `_parse_yaml_scalar`
  unfoldable pub parse_yaml_scalar : Text → JsonScalar
  unfolding strip is_quoted yaml_scalar_value
  parse_yaml_scalar value =
      let stripped = strip value in
      if is_quoted stripped
      then str (take (length stripped - 2) (drop 1 stripped))
      else yaml_scalar_value stripped

  -- The indent of the first entry, if it is a child's.
  abbrev pub child_indent : ℕ → List YamlEntry → Option ℕ
  child_indent indent [] = none
  child_indent indent (entry ∷ tokens) = if leb entry.indent indent then none else some entry.indent

  -- `_parse_yaml_mapping`, on the entries from an index on; `least` is `base_indent + 1`. It gives the
  -- mapping and the entries that are left, or nothing for want of fuel.
  unfoldable pub parse_yaml_mapping :
      ℕ → ℕ → JsonObject → List YamlEntry → Option (JsonObject × List YamlEntry)
  unfolding key_value parse_yaml_scalar put fields_of
  parse_yaml_mapping zero least result tokens = none
  parse_yaml_mapping (suc f) least result [] = some (result, [])
  parse_yaml_mapping (suc f) least result (entry ∷ tokens) = elim (ltb entry.indent least) [
    | true ↦ some (result, entry ∷ tokens)
    | false ↦ elim (key_value entry.text) [
      | none ↦ parse_yaml_mapping f least result tokens
      | some (key, value) ↦ elim (is_empty value) [
        | false ↦
            parse_yaml_mapping f least (put key (scalar (parse_yaml_scalar value)) result) tokens
        | true ↦ elim (child_indent entry.indent tokens) [
          | none ↦ parse_yaml_mapping f least (put key (object end) result) tokens
          | some indent ↦ elim (parse_yaml_mapping f indent [] tokens) [
            | none ↦ none
            | some (child, rest) ↦
                parse_yaml_mapping f least (put key (object (fields_of child)) result) rest
          ]
        ]
      ]
    ]
  ]

  -- `_load_yaml`, with the fuel that is enough
  unfoldable pub load_yaml : Text → JsonObject
  load_yaml text =
      let tokens = yaml_entries (splitlines text) in
      elim (parse_yaml_mapping (suc (length tokens)) 0 [] tokens) [
        | none ↦ []
        | some parsed ↦ parsed.0
      ]

-- `_plugin_entry_config`
unfoldable pub plugin_entry_config : JsonObject → Text → JsonObject
unfolding get_value
plugin_entry_config parsed plugin_name = elim (object? (get_value (codes "plugins") parsed)) [
  | none ↦ []
  | some plugins ↦ elim (object? (get_value (codes "entries") plugins)) [
    | none ↦ []
    | some found ↦ elim (object? (get_value plugin_name found)) [
      | none ↦ []
      | some plugin_entry ↦ elim (object? (get_value (codes "config") plugin_entry)) [
        | none ↦ []
        | some config ↦ config
      ]
    ]
  ]
]

-- `_top_level_tokenjuice_config`
unfoldable pub top_level_config : JsonObject → JsonObject
unfolding keep starts_with
top_level_config parsed = keep (λ item. starts_with item.0 (codes "tokenjuice_")) parsed

-- `load_hermes_plugin_config_from`; a file that cannot be read is `none`
unfoldable pub load_hermes_plugin_config_from : NumberRuntime → Option Text → Text → JsonObject
unfolding load_yaml plugin_entry_config top_level_config
load_hermes_plugin_config_from runtime none plugin_name = []
load_hermes_plugin_config_from runtime (some document) plugin_name =
    let parsed = load_yaml runtime document in
    let nested_config = plugin_entry_config parsed plugin_name in
    if is_empty nested_config then top_level_config parsed else nested_config
