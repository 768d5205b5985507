-- ===== src/Rescue/Options.antt =====
-- rescue_transform.py: `RescueOptions` and their parsing from the flat arguments of the hook.
use tokenjuice_hermes.Common.{
  Text, codes, split_csv, strip, int_of_text, ℕ, ℤ, pos, Bool, false, Option, none, some, List, [],
  ◌∷◌, Dict, put, is_empty, ◌==◌, if◌then◌else◌,
}
use tokenjuice_hermes.Common.Options.{◌>>=◌}
use tokenjuice_hermes.Json.{FlatJsonObject, JsonScalar, null, bool, int, str, get_scalar}

abbrev pub rescue_tool_names : List Text
rescue_tool_names = codes "web_search" ∷ codes "mcp_tool" ∷ codes "browser_snapshot" ∷ []

abbrev pub rescue_text_fields : List Text
rescue_text_fields =
    codes "content" ∷ codes "results" ∷ codes "snapshot" ∷ codes "output" ∷ codes "stdout" ∷ []

abbrev pub rescue_excluded_tool_prefixes : List Text
rescue_excluded_tool_prefixes =
    codes "tokenjuice" ∷ codes "rescuer" ∷ codes "memory" ∷ codes "delegate" ∷ codes "session" ∷ []

abbrev pub min_text_chars_default : ℕ
min_text_chars_default = 4000

pub record RescueOptions : Type 0 where
  pub session_id : Text
  pub store_path : Text
  pub fetch_available : Bool
  pub min_text_chars : ℕ
  pub tool_min_text_chars : Dict ℕ
  pub tool_names : List Text
  pub excluded_tools : List Text
  pub text_fields : List Text

abbrev pub str_arg : JsonScalar → Text → Text
str_arg null default = default
str_arg (str s) default = s
str_arg v default = []

abbrev pub bool_arg : JsonScalar → Bool → Option Bool
bool_arg null default = some default
bool_arg (bool b) default = some b
bool_arg v default = none

abbrev pub nonnegative_int_arg : JsonScalar → ℕ → Option ℕ
nonnegative_int_arg null default = some default
nonnegative_int_arg (int (pos n)) default = some n
nonnegative_int_arg v default = none

-- `_str_set_arg` and `_str_tuple_arg`, a set being a list here
unfoldable pub str_list_arg : JsonScalar → List Text → Option (List Text)
unfolding split_csv
str_list_arg null default = some default
str_list_arg (str s) default = some (split_csv s)
str_list_arg v default = none

-- `item.partition("=")`: the text before the first `=` and the one after it, if there is one
unfoldable pub partition_at : ℕ → Text → Option (Text × Text)
partition_at sep [] = none
partition_at sep (c ∷ s) =
    let rest = partition_at sep s in
    if c == sep then some ([], s) else elim rest [ none ↦ none | some (a, b) ↦ some (c ∷ a, b) ]

-- A threshold that is not negative.
abbrev threshold_of : Option ℤ → Option ℕ
threshold_of (some (pos n)) = some n
threshold_of _ = none

unfoldable pub parse_threshold_item : Text → Option (Text × ℕ)
unfolding partition_at strip int_of_text
parse_threshold_item item = elim (partition_at b'=' item) [
  | none ↦ none
  | some (tool_part, threshold_part) ↦
      if is_empty (strip tool_part)
      then none
      else elim (threshold_of (int_of_text (strip threshold_part))) [
        | none ↦ none
        | some threshold ↦ some (strip tool_part, threshold)
      ]
]

-- The loop of `_tool_threshold_map_arg`, with the dictionary so far.
unfoldable pub threshold_items : List Text → Dict ℕ → Option (Dict ℕ)
unfolding parse_threshold_item put
threshold_items [] result = some result
threshold_items (item ∷ items) result = elim (parse_threshold_item item) [
  | none ↦ none
  | some (tool, threshold) ↦ threshold_items items (put tool threshold result)
]

unfoldable pub tool_threshold_map_arg : JsonScalar → Dict ℕ → Option (Dict ℕ)
unfolding split_csv threshold_items
tool_threshold_map_arg null default = some default
tool_threshold_map_arg (str s) default = threshold_items (split_csv s) []
tool_threshold_map_arg v default = none

-- `kwargs.get("session_id", "")`, if it is a text
abbrev session_of : JsonScalar → Text
session_of (str s) = s
session_of v = []

unfoldable pub parse_rescue_options : FlatJsonObject → Option RescueOptions
unfolding get_scalar str_list_arg tool_threshold_map_arg
parse_rescue_options kwargs = do
  fetch_available ← bool_arg (get_scalar (codes "tokenjuice_rescue_fetch_available") kwargs) false
  min_text_chars ←
      nonnegative_int_arg (get_scalar (codes "tokenjuice_rescue_min_text_chars") kwargs)
        min_text_chars_default
  tool_min_text_chars ←
      tool_threshold_map_arg (get_scalar (codes "tokenjuice_rescue_tool_min_text_chars") kwargs) []
  tool_names ←
      str_list_arg (get_scalar (codes "tokenjuice_rescue_tool_names") kwargs) rescue_tool_names
  excluded_tools ← str_list_arg (get_scalar (codes "tokenjuice_rescue_excluded_tools") kwargs) []
  text_fields ←
      str_list_arg (get_scalar (codes "tokenjuice_rescue_text_fields") kwargs) rescue_text_fields
  some (record {
    session_id = session_of (get_scalar (codes "session_id") kwargs);
    store_path = str_arg (get_scalar (codes "tokenjuice_rescue_store_path") kwargs) [];
    fetch_available = fetch_available;
    min_text_chars = min_text_chars;
    tool_min_text_chars = tool_min_text_chars;
    tool_names = tool_names;
    excluded_tools = excluded_tools;
    text_fields = text_fields;
  })
