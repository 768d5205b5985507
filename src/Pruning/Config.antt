-- ===== src/Pruning/Config.antt =====
-- structured_pruning_config.py: `parse_config` and the parsers of single options. A parser returns
-- `none` where the source returns `None`, and `parse_config` is `none` where `ConfigParseError` is
-- raised and caught.
pub mod Valid
use tokenjuice_hermes.Common.Options.{◌>>=◌}
use tokenjuice_hermes.Common.{
  Text, codes, lower, mem_text, split_csv, ℕ, Bool, true, false, Option, none, some, List, [], ◌∷◌,
  pos, ltb, if◌then◌else◌, is_empty,
}
use tokenjuice_hermes.Json.{JsonValue, JsonObject, scalar, null, bool, int, str, get_value}
use tokenjuice_hermes.Pruning.Types.{
  PruningConfig, default_trigger_ratio, default_target_ratio, default_min_saved_tokens,
  default_cache_ttl_seconds, default_protect_recent_messages,
  default_protect_recent_tool_interactions, default_classes,
}

abbrev pub enabled_key : Text
enabled_key = codes "tokenjuice_prompt_pruning_enabled"

abbrev pub threshold_tokens_key : Text
threshold_tokens_key = codes "tokenjuice_prompt_pruning_threshold_tokens"

abbrev pub trigger_ratio_key : Text
trigger_ratio_key = codes "tokenjuice_prompt_pruning_trigger_ratio"

abbrev pub target_ratio_key : Text
target_ratio_key = codes "tokenjuice_prompt_pruning_target_ratio"

abbrev pub soft_target_ratio_key : Text
soft_target_ratio_key = codes "tokenjuice_prompt_pruning_soft_target_ratio"

abbrev pub hard_target_ratio_key : Text
hard_target_ratio_key = codes "tokenjuice_prompt_pruning_hard_target_ratio"

abbrev pub min_saved_tokens_key : Text
min_saved_tokens_key = codes "tokenjuice_prompt_pruning_min_saved_tokens"

abbrev pub cache_ttl_seconds_key : Text
cache_ttl_seconds_key = codes "tokenjuice_prompt_pruning_cache_ttl_seconds"

abbrev pub protect_recent_messages_key : Text
protect_recent_messages_key = codes "tokenjuice_prompt_pruning_protect_recent_messages"

abbrev pub protect_recent_tool_interactions_key : Text
protect_recent_tool_interactions_key =
    codes "tokenjuice_prompt_pruning_protect_recent_tool_interactions"

abbrev pub classes_key : Text
classes_key = codes "tokenjuice_prompt_pruning_classes"

abbrev pub accounting_enabled_key : Text
accounting_enabled_key = codes "tokenjuice_prompt_pruning_accounting_enabled"

abbrev pub max_percentage : ℕ
max_percentage = 100

abbrev true_words : List Text
true_words = codes "true" ∷ codes "yes" ∷ codes "on" ∷ codes "1" ∷ []

bool_value : JsonValue → Bool → Option Bool
bool_value (scalar null) default = some default
bool_value (scalar (bool b)) default = some b
bool_value (scalar (str s)) default = some (mem_text (lower s) true_words)
bool_value _ default = none

unfoldable pub parse_bool : JsonObject → Text → Bool → Option Bool
unfolding bool_value
parse_bool context key default = bool_value (get_value key context) default

nonnegative_value : JsonValue → Option ℕ → Option ℕ
nonnegative_value (scalar null) default = default
nonnegative_value (scalar (int (pos n))) default = some n
nonnegative_value _ default = none

unfoldable pub parse_nonnegative_int : JsonObject → Text → Option ℕ → Option ℕ
unfolding nonnegative_value
parse_nonnegative_int context key default = nonnegative_value (get_value key context) default

unfoldable pub parse_positive_int : JsonObject → Text → Option ℕ → Option ℕ
unfolding parse_nonnegative_int
parse_positive_int context key default = do
  value ← parse_nonnegative_int context key default
  if ltb 0 value then some value else none

unfoldable pub parse_ratio : JsonObject → Text → ℕ → Option ℕ
unfolding parse_nonnegative_int
parse_ratio context key default = do
  value ← parse_nonnegative_int context key (some default)
  if ltb max_percentage value then none else some value

classes_value : JsonValue → Text → Option (List Text)
classes_value (scalar null) default = some (split_csv default)
classes_value (scalar (str s)) default =
    let classes = split_csv s in if is_empty classes then none else some classes
classes_value _ default = none

unfoldable pub parse_classes : JsonObject → Text → Text → Option (List Text)
unfolding classes_value
parse_classes context key default = classes_value (get_value key context) default

unfoldable pub parse_config : JsonObject → Option PruningConfig
parse_config context =
    let target = parse_ratio context target_ratio_key default_target_ratio in
    let phase_target_default : ℕ = elim target [ some t ↦ t | none ↦ default_target_ratio ] in
    do
      enabled ← parse_bool context enabled_key false
      threshold_tokens ← parse_positive_int context threshold_tokens_key none
      trigger_ratio ← parse_ratio context trigger_ratio_key default_trigger_ratio
      target_ratio ← target
      soft_target_ratio ← parse_ratio context soft_target_ratio_key phase_target_default
      hard_target_ratio ← parse_ratio context hard_target_ratio_key phase_target_default
      min_saved_tokens ←
          parse_nonnegative_int context min_saved_tokens_key (some default_min_saved_tokens)
      cache_ttl_seconds ←
          parse_nonnegative_int context cache_ttl_seconds_key (some default_cache_ttl_seconds)
      protect_recent_messages ←
          parse_nonnegative_int context protect_recent_messages_key
            (some default_protect_recent_messages)
      protect_recent_tool_interactions ←
          parse_nonnegative_int context protect_recent_tool_interactions_key
            (some default_protect_recent_tool_interactions)
      classes ← parse_classes context classes_key default_classes
      accounting_enabled ← parse_bool context accounting_enabled_key true
      some (record {
        enabled = enabled;
        threshold_tokens = threshold_tokens;
        trigger_ratio = trigger_ratio;
        target_ratio = target_ratio;
        soft_target_ratio = soft_target_ratio;
        hard_target_ratio = hard_target_ratio;
        min_saved_tokens = min_saved_tokens;
        cache_ttl_seconds = cache_ttl_seconds;
        protect_recent_messages = protect_recent_messages;
        protect_recent_tool_interactions = protect_recent_tool_interactions;
        classes = classes;
        accounting_enabled = accounting_enabled;
      })
