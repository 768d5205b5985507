-- ===== src/Pruning/Apply.antt =====
-- structured_pruning_apply.py: apply the selected groups, and try all candidates when the excerpts
-- that stay behind eat up the savings.
pub mod Outcomes
use tokenjuice_hermes.BlobStore.{BlobStore}
use tokenjuice_hermes.Common.{
  Text, ℕ, ◌+◌, Bool, true, false, ◌&&◌, ◌||◌, Option, none, some, List, [], ◌∷◌, map, Outcome, ok,
  raise, leb, ◌==◌, if◌then◌else◌, length, sum_by, all,
}
use tokenjuice_hermes.Json.{JsonObject}
use tokenjuice_hermes.Observability.{StructuredPruningStats}
use tokenjuice_hermes.Pruning.Groups.{mem_number}
use tokenjuice_hermes.Pruning.Rescue.{AppliedPruning, apply_pruned_groups}
use tokenjuice_hermes.Pruning.Selection.{candidate_groups}
use tokenjuice_hermes.Pruning.Types.{
  ContributionInternal, Group, PressureRoute, PruningConfig, is_hard,
}

pub record PruningApplicationPlan : Type 0 where
  pub parsed_contributions : List ContributionInternal
  pub groups : List Group
  pub pruned_groups : List Group
  pub route : PressureRoute
  pub config : PruningConfig
  pub threshold_savings : ℕ
  pub context : JsonObject

pub record PruningApplicationResult : Type 0 where
  pub pruned_groups : List Group
  pub attempted_count : ℕ
  pub applied : AppliedPruning
  pub failure_stats : Option StructuredPruningStats

-- `sum(len(group.contributions) for group in groups)`
unfoldable pub attempted : List Group → ℕ
unfolding sum_by
attempted groups = sum_by (λ g. length g.contributions) groups

-- Equality of two sets of indices.
unfoldable pub same_indices : List Group → List Group → Bool
unfolding all mem_number
same_indices gs hs =
    all (λ g. mem_number g.index (map (λ h. h.index) hs)) gs
    && all (λ h. mem_number h.index (map (λ g. g.index) gs)) hs

-- What is returned when the retry worked, and when it did not.
after_retry :
    PruningApplicationPlan
    → AppliedPruning
    → List Group
    → Option AppliedPruning
    → PruningApplicationResult
unfolding attempted
after_retry plan applied retry_groups (some retry_applied) = record {
  pruned_groups = retry_groups;
  attempted_count = attempted retry_groups;
  applied = retry_applied;
  failure_stats = none;
}
after_retry plan applied retry_groups none = record {
  pruned_groups = plan.pruned_groups;
  attempted_count = attempted retry_groups;
  applied = applied;
  failure_stats = some (record {
    attempted_count = attempted retry_groups;
    rescued_count = applied.rescued_count;
    insufficient_eligible_savings = plan.threshold_savings;
  });
}

-- The result of the first attempt.
first_result : PruningApplicationPlan → AppliedPruning → PruningApplicationResult
unfolding attempted
first_result plan applied = record {
  pruned_groups = plan.pruned_groups;
  attempted_count = attempted plan.pruned_groups;
  applied = applied;
  failure_stats = none;
}

-- `plan.threshold_savings <= 0 or applied.saved_tokens >= plan.threshold_savings`
abbrev pub is_enough : ℕ → AppliedPruning → Bool
is_enough threshold_savings applied =
    threshold_savings == 0 || leb threshold_savings applied.saved_tokens

module _ (store : BlobStore) (build_excerpt : Text → Text → Text) where
  open store use {State}

  retry :
      PruningApplicationPlan
      → AppliedPruning
      → State
      → Outcome (Option PruningApplicationResult) × State
  unfolding candidate_groups same_indices apply_pruned_groups after_retry first_result
  retry plan applied s =
      let retry_groups = candidate_groups plan.groups plan.route plan.config (is_hard plan.route) in
      let (result, s') =
        apply_pruned_groups store build_excerpt plan.parsed_contributions retry_groups plan.context
          s in
      if same_indices retry_groups plan.pruned_groups
      then (ok (some (first_result plan applied)), s)
      else (
        elim result [
          | raise e ↦ raise e
          | ok retry_applied ↦ ok (some (after_retry plan applied retry_groups retry_applied))
        ],
        s',
      )

  unfoldable pub apply_threshold_pruning :
      PruningApplicationPlan → State → Outcome (Option PruningApplicationResult) × State
  unfolding apply_pruned_groups first_result retry
  apply_threshold_pruning plan s =
      let (result, s') =
        apply_pruned_groups store build_excerpt plan.parsed_contributions plan.pruned_groups
          plan.context s in
      elim result [
        | raise e ↦ (raise e, s')
        | ok none ↦ (ok none, s')
        | ok (some applied) ↦
            if is_enough plan.threshold_savings applied
            then (ok (some (first_result plan applied)), s')
            else retry plan applied s'
      ]
