-- ===== src/Observability.antt =====
-- tokenjuice_hermes/observability.py: the counters of the process and the functions that record.
-- `phase` and `redacted` of `record_structured_pruning` are dropped there and have no counterpart.
pub mod Status
pub mod Redacted
use tokenjuice_hermes.Common.{Text, ℕ, ◌+◌, Bool, false, [], none, some, Dict, get, put}

pub record Counters : Type 0 where
  pub compaction_count : ℕ
  pub compaction_chars_saved : ℕ
  pub rescue_count : ℕ
  pub rescue_chars_saved : ℕ
  pub fetch_count : ℕ
  pub fetch_modes : Dict ℕ
  pub passref_enabled : Bool
  pub passref_expansion_count : ℕ
  pub passref_denied_count : ℕ
  pub passref_truncated_count : ℕ
  pub passref_budget_exceeded_count : ℕ
  pub passref_chars_expanded : ℕ
  pub structured_pruning_attempted_count : ℕ
  pub structured_pruning_config_rejected_count : ℕ
  pub structured_pruning_count : ℕ
  pub structured_pruning_rescued_count : ℕ
  pub structured_pruning_insufficient_eligible_savings : ℕ
  pub structured_pruning_saved_tokens : ℕ

-- `_Counters()`, and what `reset_stats` goes back to
abbrev pub reset_stats : Counters
reset_stats = record {
  compaction_count = 0;
  compaction_chars_saved = 0;
  rescue_count = 0;
  rescue_chars_saved = 0;
  fetch_count = 0;
  fetch_modes = [];
  passref_enabled = false;
  passref_expansion_count = 0;
  passref_denied_count = 0;
  passref_truncated_count = 0;
  passref_budget_exceeded_count = 0;
  passref_chars_expanded = 0;
  structured_pruning_attempted_count = 0;
  structured_pruning_config_rejected_count = 0;
  structured_pruning_count = 0;
  structured_pruning_rescued_count = 0;
  structured_pruning_insufficient_eligible_savings = 0;
  structured_pruning_saved_tokens = 0;
}

-- `StructuredPruningStats`
pub record StructuredPruningStats : Type 0 where
  pub attempted_count : ℕ
  pub rescued_count : ℕ
  pub insufficient_eligible_savings : ℕ

unfoldable pub record_compaction : ℕ → Counters → Counters
record_compaction chars_saved k = record k {
  compaction_count = k.compaction_count + 1;
  compaction_chars_saved = k.compaction_chars_saved + chars_saved;
}

unfoldable pub record_rescue : ℕ → Counters → Counters
record_rescue chars_saved k = record k {
  rescue_count = k.rescue_count + 1;
  rescue_chars_saved = k.rescue_chars_saved + chars_saved;
}

unfoldable pub record_fetch : Text → Counters → Counters
unfolding get put
record_fetch mode k = record k {
  fetch_count = k.fetch_count + 1;
  fetch_modes =
      put mode (elim (get mode k.fetch_modes) [ none ↦ 1 | some n ↦ n + 1 ]) k.fetch_modes;
}

unfoldable pub record_passref_enabled : Bool → Counters → Counters
record_passref_enabled enabled k = record k { passref_enabled = enabled }

unfoldable pub record_passref_expansion : ℕ → Counters → Counters
record_passref_expansion chars_expanded k = record k {
  passref_expansion_count = k.passref_expansion_count + 1;
  passref_chars_expanded = k.passref_chars_expanded + chars_expanded;
}

unfoldable pub record_passref_denial : Counters → Counters
record_passref_denial k = record k { passref_denied_count = k.passref_denied_count + 1 }

unfoldable pub record_passref_truncation : Counters → Counters
record_passref_truncation k = record k { passref_truncated_count = k.passref_truncated_count + 1 }

unfoldable pub record_passref_budget_exceeded : Counters → Counters
record_passref_budget_exceeded k = record k {
  passref_budget_exceeded_count = k.passref_budget_exceeded_count + 1;
}

unfoldable pub record_structured_pruning : ℕ → ℕ → StructuredPruningStats → Counters → Counters
record_structured_pruning pruned_count saved_tokens stats k = record k {
  structured_pruning_attempted_count = k.structured_pruning_attempted_count + stats.attempted_count;
  structured_pruning_count = k.structured_pruning_count + pruned_count;
  structured_pruning_rescued_count = k.structured_pruning_rescued_count + stats.rescued_count;
  structured_pruning_insufficient_eligible_savings =
      k.structured_pruning_insufficient_eligible_savings + stats.insufficient_eligible_savings;
  structured_pruning_saved_tokens = k.structured_pruning_saved_tokens + saved_tokens;
}

unfoldable pub record_structured_pruning_config_rejected : Counters → Counters
record_structured_pruning_config_rejected k = record k {
  structured_pruning_config_rejected_count = k.structured_pruning_config_rejected_count + 1;
}
