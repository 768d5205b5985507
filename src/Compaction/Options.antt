-- ===== src/Compaction/Options.antt =====
-- tokenjuice_hermes/compaction_options.py: the options of the terminal compaction.
use tokenjuice_hermes.Common.Options.{◌>>=◌}
use tokenjuice_hermes.Common.{
  Text, codes, text_eq, mem_text, starts_with, split_csv, ℕ, not, Option, none, some, List, [], ◌∷◌,
  ◌++◌, pos, if◌then◌else◌, all, keep,
}
use tokenjuice_hermes.Json.{JsonScalar, FlatJsonObject, null, int, str, get_scalar}

abbrev pub terminal_tool_names : List Text
terminal_tool_names = codes "terminal" ∷ codes "execute_code" ∷ []

abbrev pub protected_tool_names : List Text
protected_tool_names = codes "read_file" ∷ []

abbrev pub default_text_fields : List Text
default_text_fields = codes "stdout" ∷ codes "stderr" ∷ codes "output" ∷ []

abbrev config_prefix : Text
config_prefix = codes "tokenjuice_"

unfoldable pub option_keys : List Text
option_keys =
    codes "tokenjuice_mode"
    ∷ codes "tokenjuice_min_text_chars"
    ∷ codes "tokenjuice_head_lines"
    ∷ codes "tokenjuice_tail_lines"
    ∷ codes "tokenjuice_preview_chars"
    ∷ codes "tokenjuice_text_fields"
    ∷ codes "tokenjuice_tool_aliases"
    ∷ codes "tokenjuice_rescue_store_path"
    ∷ codes "tokenjuice_rescue_fetch_available"
    ∷ codes "tokenjuice_rescue_min_text_chars"
    ∷ codes "tokenjuice_rescue_tool_min_text_chars"
    ∷ codes "tokenjuice_rescue_tool_names"
    ∷ codes "tokenjuice_rescue_excluded_tools"
    ∷ codes "tokenjuice_rescue_text_fields"
    ∷ codes "tokenjuice_rescue_ttl_hours"
    ∷ codes "tokenjuice_rescue_tombstone_ttl_hours"
    ∷ codes "tokenjuice_rescue_max_store_mb"
    ∷ codes "tokenjuice_rescue_fetch_max_chars"
    ∷ codes "tokenjuice_rescue_full_fetch_max_chars"
    ∷ codes "tokenjuice_rescue_refuse_full_fetch"
    ∷ codes "tokenjuice_rescue_grep_max_pattern_len"
    ∷ codes "tokenjuice_rescue_grep_max_line_len"
    ∷ codes "tokenjuice_rescue_grep_timeout_ms"
    ∷ codes "tokenjuice_passref_enabled"
    ∷ codes "tokenjuice_passref_max_chars"
    ∷ codes "tokenjuice_passref_total_max_chars"
    ∷ codes "tokenjuice_prompt_pruning_enabled"
    ∷ codes "tokenjuice_prompt_pruning_threshold_tokens"
    ∷ codes "tokenjuice_prompt_pruning_trigger_ratio"
    ∷ codes "tokenjuice_prompt_pruning_target_ratio"
    ∷ codes "tokenjuice_prompt_pruning_soft_target_ratio"
    ∷ codes "tokenjuice_prompt_pruning_hard_target_ratio"
    ∷ codes "tokenjuice_prompt_pruning_min_saved_tokens"
    ∷ codes "tokenjuice_prompt_pruning_cache_ttl_seconds"
    ∷ codes "tokenjuice_prompt_pruning_protect_recent_messages"
    ∷ codes "tokenjuice_prompt_pruning_protect_recent_tool_interactions"
    ∷ codes "tokenjuice_prompt_pruning_classes"
    ∷ codes "tokenjuice_prompt_pruning_accounting_enabled"
    ∷ []

pub data CompactionMode : Type 0 where
  head_tail metadata off : CompactionMode

-- `mode.value`
unfoldable pub mode_value : CompactionMode → Text
mode_value head_tail = codes "head_tail"
mode_value metadata = codes "metadata"
mode_value off = codes "off"

pub record TokenjuiceOptions : Type 0 where
  pub mode : CompactionMode
  pub min_text_chars : ℕ
  pub head_lines : ℕ
  pub tail_lines : ℕ
  pub preview_chars : ℕ
  pub text_fields : List Text
  pub tool_aliases : List Text

unfoldable pub supported_tool_names : TokenjuiceOptions → List Text
unfolding keep mem_text
supported_tool_names options =
    terminal_tool_names
    ++ keep (λ name. not (mem_text name protected_tool_names)) options.tool_aliases

-- `CompactionMode(value)`, where `none` stands for the `ValueError`
abbrev mode_of : Text → Option CompactionMode
mode_of s =
    if text_eq s (codes "head_tail")
    then some head_tail
    else if text_eq s (codes "metadata")
    then some metadata
    else if text_eq s (codes "off")
    then some off
    else none

unfoldable pub parse_mode : JsonScalar → Option CompactionMode
parse_mode null = some head_tail
parse_mode (str s) = mode_of s
parse_mode _ = none

unfoldable pub parse_count : JsonScalar → ℕ → Option ℕ
parse_count null default = some default
parse_count (int (pos n)) default = some n
parse_count _ default = none

unfoldable pub parse_string_tuple : JsonScalar → List Text → Option (List Text)
unfolding split_csv
parse_string_tuple null default = some default
parse_string_tuple (str s) default = some (split_csv s)
parse_string_tuple _ default = none

unfoldable pub build_options : FlatJsonObject → Option TokenjuiceOptions
unfolding get_scalar parse_mode parse_count parse_string_tuple
build_options values = do
  mode ← parse_mode (get_scalar (codes "tokenjuice_mode") values)
  min_text_chars ← parse_count (get_scalar (codes "tokenjuice_min_text_chars") values) 4000
  head_lines ← parse_count (get_scalar (codes "tokenjuice_head_lines") values) 40
  tail_lines ← parse_count (get_scalar (codes "tokenjuice_tail_lines") values) 20
  preview_chars ← parse_count (get_scalar (codes "tokenjuice_preview_chars") values) 160
  text_fields ←
      parse_string_tuple (get_scalar (codes "tokenjuice_text_fields") values) default_text_fields
  tool_aliases ← parse_string_tuple (get_scalar (codes "tokenjuice_tool_aliases") values) []
  some (record {
    mode = mode;
    min_text_chars = min_text_chars;
    head_lines = head_lines;
    tail_lines = tail_lines;
    preview_chars = preview_chars;
    text_fields = text_fields;
    tool_aliases = tool_aliases;
  })

unfoldable pub parse_options : FlatJsonObject → Option TokenjuiceOptions
unfolding keep starts_with all mem_text option_keys build_options
parse_options kwargs =
    let values = keep (λ e. starts_with e.0 config_prefix) kwargs in
    if all (λ e. mem_text e.0 option_keys) values then build_options values else none
