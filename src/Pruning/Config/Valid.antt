-- ===== src/Pruning/Config/Valid.antt =====
-- structured_pruning_config.py: what a configuration that `parse_config` accepts is like.
use tokenjuice_hermes.Common.{
  Text, ℕ, ◌≤◌, ◌<◌, ◌≡◌, Option, none, some, Option-cases, inl, inr, arith,
}
use tokenjuice_hermes.Json.{JsonObject}
use tokenjuice_hermes.Pruning.Config.{
  parse_config, parse_ratio, parse_positive_int, parse_nonnegative_int, max_percentage,
  trigger_ratio_key, target_ratio_key, soft_target_ratio_key, hard_target_ratio_key,
  threshold_tokens_key,
}
use tokenjuice_hermes.Pruning.Types.{PruningConfig}

parse_ratio-le :
    (context : JsonObject) (key : Text) (default r : ℕ)
    → parse_ratio context key default ≡ some r
    → r ≤ max_percentage
parse_ratio-le context key default r h =
    elim (Option-cases (parse_nonnegative_int context key (some default))) [
      | inl e ↦ absurd (unfold parse_ratio in ground (arith, e))
      | inr (v, e) ↦ unfold parse_ratio in ground (arith, e)
    ]

parse_positive_int-lt :
    (context : JsonObject) (key : Text) (default : Option ℕ) (r : ℕ)
    → parse_positive_int context key default ≡ some r
    → 0 < r
parse_positive_int-lt context key default r h =
    elim (Option-cases (parse_nonnegative_int context key default)) [
      | inl e ↦ absurd (unfold parse_positive_int in ground (arith, e))
      | inr (v, e) ↦ unfold parse_positive_int in ground (arith, e)
    ]

-- A configuration that is accepted has a positive threshold, and its four ratios are percentages.
pub parse_config_bounds :
    (context : JsonObject) (config : PruningConfig)
    → parse_config context ≡ some config
    → (0 < config.threshold_tokens)
      × (config.trigger_ratio ≤ 100)
      × (config.target_ratio ≤ 100)
      × (config.soft_target_ratio ≤ 100)
      × (config.hard_target_ratio ≤ 100)
unfolding parse_config
parse_config_bounds context config h =
    let threshold =
      parse_positive_int-lt context threshold_tokens_key none config.threshold_tokens in
    let trigger = parse_ratio-le context trigger_ratio_key 80 config.trigger_ratio in
    elim (Option-cases (parse_ratio context target_ratio_key 75)) [
      | inl e ↦ absurd (ground (arith, e))
      | inr (t, e) ↦
          let target = parse_ratio-le context target_ratio_key 75 t e in
          let soft = parse_ratio-le context soft_target_ratio_key t config.soft_target_ratio in
          let hard = parse_ratio-le context hard_target_ratio_key t config.hard_target_ratio in
          ground (arith, e, threshold, trigger, target, soft, hard)
    ]
