-- ===== src/Pruning/Context/Safety.antt =====
-- structured_pruning.py: where a view that `prune_structured_context` returns comes from.
use tokenjuice_hermes.BlobStore.{BlobStore}
use tokenjuice_hermes.Common.{
  Text, ◌≤◌, ◌≡◌, Bool, Option, none, some, List, map, ok, ℤ, inl, inr, Option-cases, arith,
}
use tokenjuice_hermes.Json.{JsonValue, JsonObject}
use tokenjuice_hermes.Observability.{Counters}
use tokenjuice_hermes.Pruning.Apply.Outcomes.{ComesFrom, apply_threshold_pruning-ComesFrom}
use tokenjuice_hermes.Pruning.Apply.{
  PruningApplicationPlan, PruningApplicationResult, apply_threshold_pruning,
}
use tokenjuice_hermes.Pruning.Context.{
  threshold_savings, minimum_savings, effective_view, finish, apply_selected, prune_prepared,
  prune_structured_context, prepare_prune,
}
use tokenjuice_hermes.Pruning.Groups.{resolve_now_ms, build_groups}
use tokenjuice_hermes.Pruning.Pressure.{Prepared}
use tokenjuice_hermes.Pruning.Selection.{select_pruned_groups}
use tokenjuice_hermes.Pruning.Types.{Contribution, Group, StructuredPruningResult}

-- The plan of a prepared call whose selection is `gs`.
abbrev pub plan_of : Prepared → JsonObject → List Group → PruningApplicationPlan
plan_of p context gs = record {
  parsed_contributions = p.parsed_contributions;
  groups =
      build_groups p.parsed_contributions p.config (resolve_now_ms p.parsed_contributions context);
  pruned_groups = gs;
  route = p.route;
  config = p.config;
  threshold_savings = threshold_savings p;
  context = context;
}

module _ (store : BlobStore) (build_excerpt : Text → Text → Text) (is_zero_float : Text → Bool)
    (parse_json : Text → Option JsonValue) where
  open store use {State}

  -- How a view comes about.
  pub record Explains (p : Prepared) (context : JsonObject) (view : StructuredPruningResult)
      (gs : List Group) (a : PruningApplicationResult) : Type 0 where
    pub selected :
        select_pruned_groups
          (build_groups p.parsed_contributions p.config
            (resolve_now_ms p.parsed_contributions context))
          p.route
          (minimum_savings p)
          p.config
          (threshold_savings p)
        ≡ some gs
    pub applied : ComesFrom store build_excerpt (plan_of p context gs) a
    pub contributions : view.effective_contributions ≡ map (λ c. c.original) a.applied.retained
    pub saved : view.accounting.saved_tokens ≡ a.applied.saved_tokens
    pub enough : threshold_savings p ≤ a.applied.saved_tokens

  effective_view-inv :
      (a : PruningApplicationResult) (view : StructuredPruningResult)
      → effective_view store build_excerpt is_zero_float parse_json a ≡ ok view
      → (view.effective_contributions ≡ map (λ c. c.original) a.applied.retained)
        × (view.accounting.saved_tokens ≡ a.applied.saved_tokens)
  unfolding effective_view
  effective_view-inv a view h = ground arith

  finish-inv :
      (p : Prepared) (a : PruningApplicationResult) (k : Counters) (view : StructuredPruningResult)
      → (finish store build_excerpt is_zero_float parse_json p a k).0 ≡ ok (some view)
      → (a.failure_stats ≡ none)
        × (effective_view store build_excerpt is_zero_float parse_json a ≡ ok view)
        × (threshold_savings p ≤ a.applied.saved_tokens)
  unfolding finish
  finish-inv p a k view h = ground arith

  apply_selected-inv :
      (p : Prepared) (context : JsonObject) (groups gs : List Group) (k : Counters) (s : State)
      (view : StructuredPruningResult)
      → (apply_selected store build_excerpt is_zero_float parse_json p context groups gs k s).0.0
        ≡ ok (some view)
      → (a : PruningApplicationResult) × ((apply_threshold_pruning store build_excerpt
            (record {
              parsed_contributions = p.parsed_contributions;
              groups = groups;
              pruned_groups = gs;
              route = p.route;
              config = p.config;
              threshold_savings = threshold_savings p;
              context = context;
            })
            s).0
          ≡ ok (some a))
        × ((finish store build_excerpt is_zero_float parse_json p a k).0 ≡ ok (some view))
  unfolding apply_selected
  apply_selected-inv p context groups gs k s view h = ground arith

  pub prune_prepared-Explains :
      (p : Prepared) (context : JsonObject) (k : Counters) (s : State)
      (view : StructuredPruningResult)
      → (prune_prepared store build_excerpt is_zero_float parse_json p context k s).0.0
        ≡ ok (some view)
      → (gs : List Group) × (a : PruningApplicationResult) × Explains p context view gs a
  prune_prepared-Explains p context k s view h =
      let groups =
        build_groups p.parsed_contributions p.config
          (resolve_now_ms p.parsed_contributions context) in
      elim (Option-cases
        (select_pruned_groups groups p.route (minimum_savings p) p.config (threshold_savings p))) [
          | inl nothing ↦ absurd (unfold prune_prepared in ground arith)
          | inr (gs, found) ↦
              let (a, applied, finished) =
                apply_selected-inv p context groups gs k s view
                  (unfold prune_prepared in ground arith) in
              let (clean, viewed, enough) = finish-inv p a k view finished in
              let (contributions, saved) = effective_view-inv a view viewed in
              (
                gs,
                a,
                record {
                  selected = found;
                  applied =
                      apply_threshold_pruning-ComesFrom store build_excerpt (plan_of p context gs) a
                        s applied clean;
                  contributions = contributions;
                  saved = saved;
                  enough = enough;
                },
              )
        ]

  pub prune_structured_context-inv :
      (contributions : List Contribution) (pressure threshold : Option ℤ) (context : JsonObject)
      (k : Counters) (s : State) (view : StructuredPruningResult) (p : Prepared)
      → (prepare_prune contributions pressure threshold context k).0 ≡ ok (some p)
      → (prune_structured_context store build_excerpt is_zero_float parse_json contributions
          pressure threshold context k s).0
        ≡ some view
      → (prune_prepared store build_excerpt is_zero_float parse_json p context
          (prepare_prune contributions pressure threshold context k).1
          s).0.0
        ≡ ok (some view)
  unfolding prune_structured_context
  prune_structured_context-inv contributions pressure threshold context k s view p e h =
      ground arith
