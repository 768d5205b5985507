-- ===== src/Pruning/Context.antt =====
-- structured_pruning.py: `prune_structured_context`. A call goes from the counters of the process and
-- the state of the blob store to new ones, with the effective view or `none`.
pub mod Safety
pub mod Protected
use tokenjuice_hermes.BlobStore.{BlobStore}
use tokenjuice_hermes.Common.{
  Text, ℕ, zero, suc, ◌-◌, Bool, true, false, ◌&&◌, ◌||◌, not, Option, none, some, List, [], ◌∷◌,
  map, Outcome, ok, raise, ◌>>=◌, ℤ, ltb, ◌==◌, if◌then◌else◌, length,
}
use tokenjuice_hermes.Json.{JsonValue, JsonObject}
use tokenjuice_hermes.Observability.{
  Counters, StructuredPruningStats, record_structured_pruning,
  record_structured_pruning_config_rejected,
}
use tokenjuice_hermes.Pruning.Apply.{
  PruningApplicationPlan, PruningApplicationResult, apply_threshold_pruning, attempted,
}
use tokenjuice_hermes.Pruning.Config.{parse_config}
use tokenjuice_hermes.Pruning.Groups.{resolve_now_ms, build_groups}
use tokenjuice_hermes.Pruning.Parse.{parse_contributions}
use tokenjuice_hermes.Pruning.Pressure.{
  Prepared, context_with_dynamic_threshold, resolve_threshold, prepare,
}
use tokenjuice_hermes.Pruning.Provider.{
  provider_messages_from_contributions, provider_tools_from_contributions,
}
use tokenjuice_hermes.Pruning.Rescue.{AppliedPruning}
use tokenjuice_hermes.Pruning.Selection.{select_pruned_groups}
use tokenjuice_hermes.Pruning.Types.{
  Contribution, ContributionInternal, Group, PruningConfig, StructuredPruningResult,
}

-- `StructuredPruningStats(…)`
abbrev stats : ℕ → ℕ → ℕ → StructuredPruningStats
stats attempted_count rescued_count insufficient = record {
  attempted_count = attempted_count;
  rescued_count = rescued_count;
  insufficient_eligible_savings = insufficient;
}

-- `_record_structured_pruning`
unfoldable pub record_if : Bool → ℕ → ℕ → StructuredPruningStats → Counters → Counters
unfolding record_structured_pruning
record_if enabled pruned_count saved_tokens st k =
    if enabled then record_structured_pruning pruned_count saved_tokens st k else k

-- `_prepare_prune`: the counters with a rejected configuration counted, and what the call goes on with.
unfoldable pub prepare_prune :
    List Contribution
    → Option ℤ
    → Option ℤ
    → JsonObject
    → Counters
    → Outcome (Option Prepared) × Counters
unfolding context_with_dynamic_threshold parse_config record_structured_pruning_config_rejected
    resolve_threshold parse_contributions prepare
prepare_prune contributions current_pressure_tokens threshold_tokens context k =
    elim (parse_config (context_with_dynamic_threshold context threshold_tokens)) [
      | none ↦ (ok none, record_structured_pruning_config_rejected k)
      | some config ↦
          let threshold = resolve_threshold threshold_tokens context config in
          if not config.enabled || threshold == 0 then (ok none, k) else (
            elim (parse_contributions contributions) [
              | raise e ↦ raise e
              | ok none ↦ ok none
              | ok (some parsed) ↦
                  ok (prepare parsed config threshold current_pressure_tokens context)
            ],
            k,
          )
    ]

-- The two savings of a call: what brings the pressure to the target, and to the threshold.
abbrev pub threshold_savings : Prepared → ℕ
threshold_savings p = p.pressure - p.threshold

abbrev pub minimum_savings : Prepared → ℕ
minimum_savings p =
    let required = p.pressure - p.target_tokens in
    if ltb 0 required then required else threshold_savings p

module _ (store : BlobStore) (build_excerpt : Text → Text → Text) (is_zero_float : Text → Bool)
    (parse_json : Text → Option JsonValue) where
  open store use {State}

  -- The effective view of what is retained.
  unfoldable pub effective_view : PruningApplicationResult → Outcome StructuredPruningResult
  unfolding provider_messages_from_contributions provider_tools_from_contributions
  effective_view application = do
    effective_messages ←
        provider_messages_from_contributions is_zero_float application.applied.retained
    effective_tools ← provider_tools_from_contributions parse_json application.applied.retained
    ok (record {
      effective_contributions = map (λ c. c.original) application.applied.retained;
      effective_messages = effective_messages;
      effective_system_prompt = [];
      effective_tools = effective_tools;
      accounting = record {
        saved_tokens = application.applied.saved_tokens;
        pruned_count = application.applied.pruned_count;
        pruned_groups = length application.pruned_groups;
        attempted_count = application.attempted_count;
        rescued_count = application.applied.rescued_count;
        insufficient_eligible_savings = 0;
      };
    })

  -- After the groups were applied: the result, and what is recorded.
  unfoldable pub finish :
      Prepared
      → PruningApplicationResult
      → Counters
      → Outcome (Option StructuredPruningResult) × Counters
  unfolding record_if effective_view
  finish p application k =
      let enabled = p.config.accounting_enabled in
      let applied = application.applied in
      let threshold = threshold_savings p in
      elim application.failure_stats [
        | some failure_stats ↦ (ok none, record_if enabled 0 0 failure_stats k)
        | none ↦
            if ltb 0 threshold && ltb applied.saved_tokens threshold
            then (
              ok none,
              record_if enabled 0 0
                  (stats application.attempted_count applied.rescued_count
                    (threshold - applied.saved_tokens))
                  k,
            )
            else (
              effective_view application >>= λ view. ok (some view),
              record_if enabled applied.pruned_count applied.saved_tokens
                  (stats application.attempted_count applied.rescued_count 0) k,
            )
      ]

  -- The selected groups are applied.
  unfoldable pub apply_selected :
      Prepared
      → JsonObject
      → List Group
      → List Group
      → Counters
      → State
      → (Outcome (Option StructuredPruningResult) × Counters) × State
  unfolding apply_threshold_pruning attempted record_if finish
  apply_selected p context groups pruned_groups k s =
      let (application, s') =
        apply_threshold_pruning store build_excerpt
          (record {
            parsed_contributions = p.parsed_contributions;
            groups = groups;
            pruned_groups = pruned_groups;
            route = p.route;
            config = p.config;
            threshold_savings = threshold_savings p;
            context = context;
          })
          s in
      elim application [
        | raise e ↦ ((raise e, k), s')
        | ok none ↦ (
          (
            ok none,
            record_if p.config.accounting_enabled 0 0
                (stats (attempted pruned_groups) 0 (threshold_savings p)) k,
          ),
          s',
        )
        | ok (some a) ↦ (finish p a k, s')
      ]

  -- `_prune_structured_context`, once the call is prepared.
  unfoldable pub prune_prepared :
      Prepared
      → JsonObject
      → Counters
      → State
      → (Outcome (Option StructuredPruningResult) × Counters) × State
  unfolding resolve_now_ms build_groups select_pruned_groups record_if apply_selected
  prune_prepared p context k s =
      let groups =
        build_groups p.parsed_contributions p.config
          (resolve_now_ms p.parsed_contributions context) in
      elim (select_pruned_groups groups p.route (minimum_savings p) p.config
        (threshold_savings p)) [
          | none ↦ (
            (
              ok none,
              record_if p.config.accounting_enabled 0 0 (stats 0 0 (threshold_savings p)) k,
            ),
            s,
          )
          | some pruned_groups ↦ apply_selected p context groups pruned_groups k s
        ]

  -- What the caller sees: any exception is `None`.
  abbrev fail_open : Outcome (Option StructuredPruningResult) → Option StructuredPruningResult
  fail_open (ok result) = result
  fail_open (raise e) = none

  unfoldable pub prune_structured_context :
      List Contribution
      → Option ℤ
      → Option ℤ
      → JsonObject
      → Counters
      → State
      → Option StructuredPruningResult × Counters × State
  unfolding prepare_prune prune_prepared
  prune_structured_context contributions current_pressure_tokens threshold_tokens context k s =
      let (prepared, k') =
        prepare_prune contributions current_pressure_tokens threshold_tokens context k in
      elim prepared [
        | raise e ↦ (none, k', s)
        | ok none ↦ (none, k', s)
        | ok (some p) ↦
            let ((result, k''), s') = prune_prepared p context k' s in (fail_open result, k'', s')
      ]
