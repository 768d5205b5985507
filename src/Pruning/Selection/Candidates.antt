-- ===== src/Pruning/Selection/Candidates.antt =====
-- structured_pruning_selection.py: which groups `candidate_groups` lets through.
use tokenjuice_hermes.Common.{
  ◌≤◌, ◌≡◌, not, ◌&&◌, Bool, true, false, List, [], ◌∷◌, keep, All, Bool-cases, inl, inr, arith,
}
use tokenjuice_hermes.Pruning.Selection.{is_candidate, candidate_groups}
use tokenjuice_hermes.Pruning.Types.{
  PruningConfig, Group, PressureRoute, soft, hard, is_soft, is_hard,
}

-- The group may be pruned on the route: nothing protects it, the policies of its disposable members
-- fit the route, and it saves enough. `ttl` says whether a young group is let through.
pub record IsPrunable (route : PressureRoute) (config : PruningConfig) (ttl : Bool) (g : Group)
    : Type 0 where
  pub no_protected_class : g.class_protected ≡ false
  pub no_recent_message : g.recent_message_protected ≡ false
  pub no_recent_tool : g.recent_tool_protected ≡ false
  pub disposable : g.has_disposable ≡ true
  pub old_enough : (g.ttl_protected && not ttl) ≡ false
  pub soft_policy : (is_soft route && not g.soft_allowed) ≡ false
  pub hard_policy : (is_hard route && not g.hard_allowed) ≡ false
  pub saves_enough : config.min_saved_tokens ≤ g.savings

module _ (config : PruningConfig) (g : Group) where
  is_candidate-IsPrunable :
      (route : PressureRoute) (ttl : Bool)
      → is_candidate route config ttl g ≡ true
      → IsPrunable route config ttl g
  unfolding is_candidate
  is_candidate-IsPrunable soft true h = ground arith
  is_candidate-IsPrunable soft false h = ground arith
  is_candidate-IsPrunable hard true h = ground arith
  is_candidate-IsPrunable hard false h = ground arith

-- Every candidate may be pruned on the route.
pub candidate_groups-IsPrunable :
    (groups : List Group) (route : PressureRoute) (config : PruningConfig) (ttl : Bool)
    → All (IsPrunable route config ttl) (candidate_groups groups route config ttl)
unfolding candidate_groups keep
candidate_groups-IsPrunable [] route config ttl = tt
candidate_groups-IsPrunable (g ∷ groups) route config ttl =
    let rest = candidate_groups-IsPrunable groups route config ttl in
    elim (Bool-cases (is_candidate route config ttl g)) [
      | inl e ↦ rw e (is_candidate-IsPrunable config g route ttl e, rest)
      | inr e ↦ rw e rest
    ]
