-- ===== src/Pruning/Selection.antt =====
-- structured_pruning_selection.py: which groups to prune.
pub mod Candidates
pub mod Optimal
pub mod Route
use tokenjuice_hermes.Common.{
  ℕ, zero, suc, ◌+◌, Bool, true, false, not, ◌&&◌, ◌||◌, Option, none, some, List, [], ◌∷◌, ◌++◌,
  map, ltb, leb, ◌==◌, if◌then◌else◌, is_empty, keep, sort_by,
}
use tokenjuice_hermes.Pruning.Groups.{mem_number}
use tokenjuice_hermes.Pruning.Types.{
  PruningConfig, Group, PressureRoute, soft, hard, is_soft, is_hard,
}

-- One round of the loop of `candidate_groups`: the group passes every `continue`.
unfoldable pub is_candidate : PressureRoute → PruningConfig → Bool → Group → Bool
is_candidate route config include_ttl_protected group =
    if group.class_protected || not group.has_disposable
    then false
    else if group.recent_message_protected || group.recent_tool_protected
    then false
    else if group.ttl_protected && not include_ttl_protected
    then false
    else if is_soft route && not group.soft_allowed
    then false
    else if is_hard route && not group.hard_allowed
    then false
    else if ltb group.savings config.min_saved_tokens
    then false
    else true

unfoldable pub candidate_groups : List Group → PressureRoute → PruningConfig → Bool → List Group
unfolding keep is_candidate
candidate_groups groups route config include_ttl_protected =
    keep (is_candidate route config include_ttl_protected) groups

-- `group.oldest_created_at_ms or 0`
abbrev age_key : Option ℕ → ℕ
age_key none = 0
age_key (some t) = t

-- The order of `key=lambda group: (-group.savings, group.oldest_created_at_ms or 0)`.
unfoldable pub savings_first : Group → Group → Bool
savings_first g h =
    ltb h.savings g.savings
    || g.savings == h.savings
      && leb (age_key g.oldest_created_at_ms) (age_key h.oldest_created_at_ms)

-- A set of numbers, as a list with no repetition.
unfoldable pub distinct : List ℕ → List ℕ
unfolding mem_number
distinct [] = []
distinct (n ∷ ns) = let rest = distinct ns in if mem_number n rest then rest else n ∷ rest

-- The inner loop of `_optimal_subset`: take groups until the total is reached.
unfoldable pub fill : ℕ → ℕ → List Group → List Group → Option (List Group)
fill required total selected [] = none
fill required total selected (g ∷ gs) =
    if leb required (total + g.savings)
    then some (selected ++ g ∷ [])
    else fill required (total + g.savings) (selected ++ g ∷ []) gs

-- One round of the outer loop.
unfoldable pub from_earliest : List Group → ℕ → ℕ → Option (List Group)
unfolding fill keep sort_by savings_first
from_earliest candidates required earliest =
    fill required 0 [] (sort_by savings_first (keep (λ g. leb earliest g.index) candidates))

-- The outer loop runs over `reversed(indices)`, so the later indices are tried first.
unfoldable pub latest_first : List Group → ℕ → List ℕ → Option (List Group)
unfolding from_earliest
latest_first candidates required [] = none
latest_first candidates required (earliest ∷ later) =
    elim (latest_first candidates required later) [
      | some selected ↦ some selected
      | none ↦ from_earliest candidates required earliest
    ]

-- `sorted({group.index for group in candidates})`
unfoldable pub sorted_indices : List Group → List ℕ
unfolding sort_by distinct
sorted_indices candidates = sort_by leb (distinct (map (λ g. g.index) candidates))

unfoldable pub optimal_subset : List Group → ℕ → Option (List Group)
unfolding latest_first sorted_indices
optimal_subset candidates required =
    if required == 0
    then some []
    else if is_empty candidates
    then none
    else latest_first candidates required (sorted_indices candidates)

-- `max(candidates, key=lambda group: group.index)`: the first of the groups with the largest index
unfoldable pub latest_group : Group → List Group → Group
latest_group best [] = best
latest_group best (g ∷ gs) = latest_group (if ltb best.index g.index then g else best) gs

unfoldable pub partial_subset : List Group → Option (List Group)
unfolding latest_group
partial_subset [] = none
partial_subset (g ∷ gs) = some (latest_group g gs ∷ [])

-- The part of `select_pruned_groups` for the hard route, after the core candidates fell short.
unfoldable pub extended_subset : List Group → PruningConfig → ℕ → ℕ → Option (List Group)
unfolding candidate_groups optimal_subset
extended_subset groups config required_savings fallback_savings =
    let extended = candidate_groups groups hard config true in
    elim (optimal_subset extended required_savings) [
      | some full_extended ↦ some full_extended
      | none ↦ if ltb 0 fallback_savings then optimal_subset extended fallback_savings else none
    ]

-- The last two steps of `select_pruned_groups`.
unfoldable pub fallback_subset : List Group → ℕ → Option (List Group) → Option (List Group)
unfolding optimal_subset partial_subset
fallback_subset core fallback_savings (some selected) = some selected
fallback_subset core fallback_savings none =
    if ltb 0 fallback_savings then optimal_subset core fallback_savings else partial_subset core

unfoldable pub select_pruned_groups :
    List Group → PressureRoute → ℕ → PruningConfig → ℕ → Option (List Group)
unfolding candidate_groups optimal_subset extended_subset fallback_subset
select_pruned_groups groups route required_savings config fallback_savings =
    if required_savings == 0
    then some []
    else let core = candidate_groups groups route config false in
      elim (optimal_subset core required_savings) [
        | some full ↦ some full
        | none ↦ fallback_subset core fallback_savings (
            if is_hard route
            then extended_subset groups config required_savings fallback_savings
            else none)
      ]
