-- ===== src/Pruning/Types.antt =====
-- structured_pruning_types.py: the types and constants of structured context pruning.
use tokenjuice_hermes.Common.{Text, codes, ℕ, Bool, Option, List, [], ◌∷◌}
use tokenjuice_hermes.Json.{JsonValue, JsonObject}

abbrev pub default_trigger_ratio : ℕ
default_trigger_ratio = 80

abbrev pub default_target_ratio : ℕ
default_target_ratio = 75

abbrev pub default_min_saved_tokens : ℕ
default_min_saved_tokens = 256

abbrev pub default_cache_ttl_seconds : ℕ
default_cache_ttl_seconds = 3600

abbrev pub default_protect_recent_messages : ℕ
default_protect_recent_messages = 8

abbrev pub default_protect_recent_tool_interactions : ℕ
default_protect_recent_tool_interactions = 2

abbrev pub default_classes : Text
default_classes = codes "terminal_tool_output,diagnostic"

abbrev pub soft_trim_policy : Text
soft_trim_policy = codes "soft_trim"

abbrev pub hard_clear_policy : Text
hard_clear_policy = codes "hard_clear_allowed"

unfoldable pub protected_classes : List Text
protected_classes =
    codes "identity"
    ∷ codes "system_instruction"
    ∷ codes "project_context"
    ∷ codes "memory_context"
    ∷ codes "skill_context"
    ∷ codes "developer_instruction"
    ∷ codes "user_message"
    ∷ codes "tool_schema"
    ∷ codes "exact_file_read"
    ∷ codes "unknown"
    ∷ []

abbrev pub rescue_backed_classes : List Text
rescue_backed_classes = codes "diagnostic" ∷ []

abbrev pub stable_stabilities : List Text
stable_stabilities = codes "stable_prefix" ∷ codes "session_stable" ∷ []

abbrev pub prefix_cache_scopes : List Text
prefix_cache_scopes = codes "prefix" ∷ codes "body" ∷ []

-- The `TypedDict` that Hermes passes; nothing checks its fields before `parse_contributions`.
abbrev pub Contribution : Type 0
Contribution = JsonObject

pub record PruningConfig : Type 0 where
  pub enabled : Bool
  pub threshold_tokens : ℕ
  pub trigger_ratio : ℕ
  pub target_ratio : ℕ
  pub soft_target_ratio : ℕ
  pub hard_target_ratio : ℕ
  pub min_saved_tokens : ℕ
  pub cache_ttl_seconds : ℕ
  pub protect_recent_messages : ℕ
  pub protect_recent_tool_interactions : ℕ
  pub classes : List Text
  pub accounting_enabled : Bool

pub record ContributionInternal : Type 0 where
  pub id : Text
  pub kind : Text
  pub provenance : Text
  pub class_ : Text
  pub stability : Text
  pub content_hash : Text
  pub cache_scope : Text
  pub token_estimate : ℕ
  pub char_count : ℕ
  pub atomic_group_id : Option Text
  pub prune_policy : Text
  pub protected_reason : JsonValue
  pub created_at_epoch_ms : Option ℕ
  pub original_index : ℕ
  pub original : Contribution

pub record Group : Type 0 where
  pub index : ℕ
  pub savings : ℕ
  pub contributions : List ContributionInternal
  pub has_disposable : Bool
  pub soft_allowed : Bool
  pub hard_allowed : Bool
  pub class_protected : Bool
  pub ttl_protected : Bool
  pub recent_message_protected : Bool
  pub recent_tool_protected : Bool
  pub oldest_created_at_ms : Option ℕ

pub data PressureRoute : Type 0 where
  soft hard : PressureRoute

-- `route == PressureRoute.HARD`, and the same for `SOFT`
abbrev pub is_hard : PressureRoute → Bool
is_hard soft = Bool.false
is_hard hard = Bool.true

abbrev pub is_soft : PressureRoute → Bool
is_soft soft = Bool.true
is_soft hard = Bool.false

-- `StructuredPruningAccounting`
pub record StructuredPruningAccounting : Type 0 where
  pub saved_tokens : ℕ
  pub pruned_count : ℕ
  pub pruned_groups : ℕ
  pub attempted_count : ℕ
  pub rescued_count : ℕ
  pub insufficient_eligible_savings : ℕ

-- `StructuredPruningResult`
pub record StructuredPruningResult : Type 0 where
  pub effective_contributions : List Contribution
  pub effective_messages : List JsonObject
  pub effective_system_prompt : Text
  pub effective_tools : Option (List JsonObject)
  pub accounting : StructuredPruningAccounting
