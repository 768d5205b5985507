-- ===== src/Pruning/Apply/Outcomes.antt =====
-- structured_pruning_apply.py: where the result of `apply_threshold_pruning` comes from.
use tokenjuice_hermes.BlobStore.{BlobStore}
use tokenjuice_hermes.Common.{
  Text, ◌≡◌, refl, subst, Option, none, some, List, ok, ◌⊎◌, inl, inr, Outcome-cases, Bool-cases,
  arith,
}
use tokenjuice_hermes.Pruning.Apply.{
  PruningApplicationPlan, PruningApplicationResult, apply_threshold_pruning, retry, first_result,
  after_retry, same_indices, is_enough,
}
use tokenjuice_hermes.Pruning.Rescue.{AppliedPruning, apply_pruned_groups}
use tokenjuice_hermes.Pruning.Selection.{candidate_groups}
use tokenjuice_hermes.Pruning.Types.{Group, is_hard}

-- All candidates of the route of a plan.
abbrev pub retry_groups : PruningApplicationPlan → List Group
retry_groups plan = candidate_groups plan.groups plan.route plan.config (is_hard plan.route)

module _ (store : BlobStore) (build_excerpt : Text → Text → Text)
    (plan : PruningApplicationPlan) where
  open store use {State}

  -- The application was computed for its own groups, which are the plan's or all candidates.
  pub record ComesFrom (a : PruningApplicationResult) : Type 0 where
    pub state : State
    pub computed :
        (apply_pruned_groups store build_excerpt plan.parsed_contributions a.pruned_groups
          plan.context state).0
        ≡ ok (some a.applied)
    pub groups_of : (a.pruned_groups ≡ plan.pruned_groups) ⊎ (a.pruned_groups ≡ retry_groups plan)

  first_result-ComesFrom :
      (applied : AppliedPruning) (s : State)
      → (apply_pruned_groups store build_excerpt plan.parsed_contributions plan.pruned_groups
          plan.context s).0
        ≡ ok (some applied)
      → ComesFrom (first_result plan applied)
  unfolding first_result
  first_result-ComesFrom applied s h = record { state = s; computed = h; groups_of = inl refl }

  retried-ComesFrom :
      (applied : AppliedPruning) (o : Option AppliedPruning) (a : PruningApplicationResult)
      (s : State)
      → (apply_pruned_groups store build_excerpt plan.parsed_contributions
          (retry_groups plan)
          plan.context
          s).0
        ≡ ok o
      → a.failure_stats ≡ none
      → after_retry plan applied (retry_groups plan) o ≡ a
      → ComesFrom a
  retried-ComesFrom applied none a s h clean e = absurd (unfold after_retry in ground arith)
  retried-ComesFrom applied (some x) a s h clean e =
      subst ComesFrom e
        (unfold after_retry in record { state = s; computed = h; groups_of = inr refl })

  retry-ComesFrom :
      (applied : AppliedPruning) (a : PruningApplicationResult) (s s' : State)
      → (apply_pruned_groups store build_excerpt plan.parsed_contributions plan.pruned_groups
          plan.context s').0
        ≡ ok (some applied)
      → (retry store build_excerpt plan applied s).0 ≡ ok (some a)
      → a.failure_stats ≡ none
      → ComesFrom a
  retry-ComesFrom applied a s s' first h clean =
      let groups = retry_groups plan in
      let result =
        apply_pruned_groups store build_excerpt plan.parsed_contributions groups plan.context s in
      elim (Bool-cases (same_indices groups plan.pruned_groups)) [
        | inl same ↦
            let e : first_result plan applied ≡ a = unfold retry in ground arith in
            subst ComesFrom e (first_result-ComesFrom applied s' first)
        | inr other ↦ elim (Outcome-cases result.0) [
          | inl (error, failed) ↦ absurd (unfold retry in ground arith)
          | inr (o, done) ↦
              retried-ComesFrom applied o a s done clean (unfold retry in ground arith)
        ]
      ]

  pub apply_threshold_pruning-ComesFrom :
      (a : PruningApplicationResult) (s : State)
      → (apply_threshold_pruning store build_excerpt plan s).0 ≡ ok (some a)
      → a.failure_stats ≡ none
      → ComesFrom a
  apply_threshold_pruning-ComesFrom a s h clean =
      let result =
        apply_pruned_groups store build_excerpt plan.parsed_contributions plan.pruned_groups
          plan.context s in
      elim (Outcome-cases result.0) [
        | inl (error, failed) ↦ absurd (unfold apply_threshold_pruning in ground arith)
        | inr (none, nothing) ↦ absurd (unfold apply_threshold_pruning in ground arith)
        | inr (some applied, done) ↦ elim (Bool-cases (is_enough plan.threshold_savings applied)) [
          | inl enough ↦
              let e : first_result plan applied ≡ a =
                unfold apply_threshold_pruning in ground arith in
              subst ComesFrom e (first_result-ComesFrom applied s done)
          | inr short ↦
              retry-ComesFrom applied a result.1 s done
                (unfold apply_threshold_pruning in ground arith) clean
        ]
      ]
