-- ===== src/Pruning/Parse.antt =====
-- structured_pruning_groups.py: `parse_contributions`. A missing key raises `KeyError`.
use tokenjuice_hermes.Common.{
  Text, codes, ℕ, suc, Option, none, some, List, [], ◌∷◌, Outcome, ok, raise, key_error, ◌>>=◌, get,
}
use tokenjuice_hermes.Json.{JsonValue}
use tokenjuice_hermes.Pruning.Labels.{Labels, text_labels, from_counts}
use tokenjuice_hermes.Pruning.Types.{Contribution, ContributionInternal}

-- `raw[key]`
unfoldable pub item : Text → Contribution → Outcome JsonValue
item key raw = elim (get key raw) [ none ↦ raise key_error | some v ↦ ok v ]

unfoldable pub read_labels : Contribution → Outcome (Labels JsonValue)
unfolding item
read_labels raw = do
  id ← item (codes "id") raw
  kind ← item (codes "kind") raw
  provenance ← item (codes "provenance") raw
  class_ ← item (codes "class") raw
  stability ← item (codes "stability") raw
  content_hash ← item (codes "content_hash") raw
  cache_scope ← item (codes "cache_scope") raw
  prune_policy ← item (codes "prune_policy") raw
  ok (record {
    id = id;
    kind = kind;
    provenance = provenance;
    class_ = class_;
    stability = stability;
    content_hash = content_hash;
    cache_scope = cache_scope;
    prune_policy = prune_policy;
  })

-- What follows the check of the labels.
with_labels : Contribution → ℕ → Labels Text → Outcome (Option ContributionInternal)
unfolding item from_counts
with_labels raw index t = do
  token_value ← item (codes "token_estimate") raw
  char_value ← item (codes "char_count") raw
  ok (from_counts raw index t token_value char_value)

unfoldable pub parse_contribution : Contribution → ℕ → Outcome (Option ContributionInternal)
unfolding read_labels text_labels with_labels
parse_contribution raw index = do
  values ← read_labels raw
  elim (text_labels values) [ none ↦ ok none | some t ↦ with_labels raw index t ]

-- The loop of `parse_contributions`, from the index `index` on.
unfoldable pub parse_from : ℕ → List Contribution → Outcome (Option (List ContributionInternal))
unfolding parse_contribution
parse_from index [] = ok (some [])
parse_from index (raw ∷ rest) = do
  contribution ← parse_contribution raw index
  elim contribution [
    | none ↦ ok none
    | some c ↦ do
      parsed ← parse_from (suc index) rest
      ok (elim parsed [ none ↦ none | some cs ↦ some (c ∷ cs) ])
  ]

unfoldable pub parse_contributions :
    List Contribution → Outcome (Option (List ContributionInternal))
unfolding parse_from
parse_contributions contributions = parse_from 0 contributions
