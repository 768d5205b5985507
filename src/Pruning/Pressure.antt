-- ===== src/Pruning/Pressure.antt =====
-- structured_pruning.py: the threshold, pressure, trigger, target and route of one call.
-- `int(a * r / 100)` is computed in floating point by the source; it is the exact quotient, as
-- written here, for products below 2 ^ 53.
use tokenjuice_hermes.Common.Options.{◌>>=◌}
use tokenjuice_hermes.Common.{
  Text, codes, text_eq, ℕ, zero, suc, ◌+◌, ◌-◌, ◌*◌, ◌/◌, not, Option, none, some, List, ℤ, pos,
  negsuc, ltb, leb, if◌then◌else◌, sum_by, keep, has_key, put, int_of_text,
}
use tokenjuice_hermes.Json.{JsonValue, JsonObject, scalar, int, str, get_value}
use tokenjuice_hermes.Pruning.Config.{threshold_tokens_key}
use tokenjuice_hermes.Pruning.Types.{
  ContributionInternal, PruningConfig, PressureRoute, soft, hard, is_hard,
}

int_value : JsonValue → Option ℤ
int_value (scalar (int i)) = some i
int_value (scalar (str s)) = int_of_text s
int_value _ = none

unfoldable pub int_context : JsonObject → Text → Option ℤ
unfolding int_value
int_context context key = int_value (get_value key context)

-- A number that is positive.
abbrev pub positive? : Option ℤ → Option ℕ
positive? (some (pos (suc n))) = some (suc n)
positive? _ = none

unfoldable pub context_with_dynamic_threshold : JsonObject → Option ℤ → JsonObject
unfolding has_key put
context_with_dynamic_threshold context threshold_tokens = elim (positive? threshold_tokens) [
  | none ↦ context
  | some n ↦
      if has_key threshold_tokens_key context
      then context
      else put threshold_tokens_key (scalar (int (pos n))) context
]

unfoldable pub resolve_threshold : Option ℤ → JsonObject → PruningConfig → ℕ
unfolding int_context
resolve_threshold threshold_tokens context config = elim (positive? threshold_tokens) [
  | some n ↦ n
  | none ↦ elim (positive? (int_context context (codes "threshold_tokens"))) [
    | some n ↦ n
    | none ↦ config.threshold_tokens
  ]
]

-- `n + i` for a sum that is positive
abbrev positive_sum : ℕ → ℤ → Option ℕ
positive_sum n (pos m) = if ltb 0 (n + m) then some (n + m) else none
positive_sum n (negsuc m) = if ltb (suc m) n then some (n - suc m) else none

-- The estimate of all contributions but the tool schemas.
unfoldable pub message_tokens : List ContributionInternal → ℕ
unfolding sum_by keep
message_tokens parsed =
    sum_by (λ c. c.token_estimate) (keep (λ c. not (text_eq c.kind (codes "tool_schema"))) parsed)

unfoldable pub resolve_pressure : List ContributionInternal → Option ℤ → JsonObject → Option ℕ
unfolding message_tokens int_context
resolve_pressure parsed (some (pos n)) context = some n
resolve_pressure parsed (some (negsuc n)) context = none
resolve_pressure parsed none context =
    positive_sum (message_tokens parsed)
      (elim (int_context context (codes "tool_schema_tokens")) [ none ↦ pos 0 | some i ↦ i ])

-- `int(threshold_tokens * ratio / 100)`
abbrev pub percent : ℕ → ℕ → ℕ
percent n ratio = n * ratio / 100

unfoldable pub resolve_trigger : JsonObject → PruningConfig → ℕ → ℕ
unfolding int_context
resolve_trigger context config threshold_tokens =
    elim (positive? (int_context context (codes "trigger_tokens"))) [
      | some n ↦ n
      | none ↦ percent threshold_tokens config.trigger_ratio
    ]

-- `PressureRoute.HARD if pressure >= threshold else PressureRoute.SOFT`
unfoldable pub pressure_route : ℕ → ℕ → PressureRoute
pressure_route pressure threshold = if leb threshold pressure then hard else soft

unfoldable pub resolve_target : JsonObject → PruningConfig → ℕ → ℕ → ℕ
unfolding int_context pressure_route
resolve_target context config threshold_tokens pressure =
    elim (positive? (int_context context (codes "target_tokens"))) [
      | some n ↦ n
      | none ↦ percent threshold_tokens (
          if is_hard (pressure_route pressure threshold_tokens)
          then config.hard_target_ratio
          else config.soft_target_ratio)
    ]

-- What `_prepare_prune` hands on, when it does not give up.
pub record Prepared : Type 0 where
  pub parsed_contributions : List ContributionInternal
  pub config : PruningConfig
  pub route : PressureRoute
  pub target_tokens : ℕ
  pub threshold : ℕ
  pub pressure : ℕ

-- `x if x > 0 else d`, for the two `if … <= 0` of `_prepare_prune`
abbrev or_default : ℕ → ℕ → ℕ
or_default zero d = d
or_default (suc n) d = suc n

-- `_prepare_prune`, once the configuration and the contributions are parsed.
unfoldable pub prepare :
    List ContributionInternal → PruningConfig → ℕ → Option ℤ → JsonObject → Option Prepared
unfolding resolve_pressure resolve_trigger resolve_target pressure_route
prepare parsed config effective_threshold current_pressure_tokens context = do
  pressure ← resolve_pressure parsed current_pressure_tokens context
  let trigger_tokens =
      or_default (resolve_trigger context config effective_threshold)
        (percent effective_threshold config.trigger_ratio)
  let target_tokens =
      or_default (resolve_target context config effective_threshold pressure) effective_threshold
  if ltb pressure trigger_tokens
      then none
      else some (record {
        parsed_contributions = parsed;
        config = config;
        route = pressure_route pressure effective_threshold;
        target_tokens = target_tokens;
        threshold = effective_threshold;
        pressure = pressure;
      })
