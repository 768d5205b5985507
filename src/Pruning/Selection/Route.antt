-- ===== src/Pruning/Selection/Route.antt =====
-- structured_pruning_selection.py: what `select_pruned_groups` returns on the two routes.
use tokenjuice_hermes.Common.{
  ℕ, zero, suc, ◌≤◌, ◌<◌, ◌≡◌, sym, ◌∙◌, keep, leb, true, false, Option, none, some, List, [], ◌∷◌,
  ltb, if◌then◌else◌, All, Bool-cases, Option-cases, inl, inr, arith,
}
use tokenjuice_hermes.Pruning.Selection.{
  candidate_groups, optimal_subset, partial_subset, latest_group, extended_subset, fallback_subset,
  select_pruned_groups,
}
use tokenjuice_hermes.Pruning.Selection.Candidates.{IsPrunable, candidate_groups-IsPrunable}
use tokenjuice_hermes.Pruning.Selection.Optimal.{
  total_savings, optimal_subset-reaches, optimal_subset-All, optimal_subset_latest,
}
use tokenjuice_hermes.Pruning.Types.{PruningConfig, Group, PressureRoute, soft, hard, is_hard}

-- A young group is let through on the hard route alone.
IsPrunable-weaken :
    (route : PressureRoute) (config : PruningConfig) (gs : List Group)
    → All (IsPrunable route config false) gs
    → All (IsPrunable route config (is_hard route)) gs
IsPrunable-weaken soft config gs ps = ps
IsPrunable-weaken hard config [] ps = tt
IsPrunable-weaken hard config (g ∷ gs) ps =
    (ground (arith, ps.0), IsPrunable-weaken hard config gs ps.1)

module _ {κ} (P : Group → Type κ) where
  latest_group-All : (best : Group) (gs : List Group) → P best → All P gs → P (latest_group best gs)
  unfolding latest_group
  latest_group-All best [] p ps = p
  latest_group-All best (g ∷ gs) p ps = elim (Bool-cases (ltb best.index g.index)) [
    | inl e ↦ rw e (latest_group-All g gs ps.0 ps.1)
    | inr e ↦ rw e (latest_group-All best gs p ps.1)
  ]

  partial_subset-All : (gs s : List Group) → partial_subset gs ≡ some s → All P gs → All P s
  unfolding partial_subset
  partial_subset-All [] s h ps = absurd (cc)
  partial_subset-All (g ∷ gs) [] h ps = tt
  partial_subset-All (g ∷ gs) (x ∷ []) h ps =
      let e : latest_group g gs ≡ x = ground arith in
      (rw (← e) (latest_group-All g gs ps.0 ps.1), tt)
  partial_subset-All (g ∷ gs) (x ∷ y ∷ s) h ps = absurd (ground arith)

  extended_subset-All :
      (groups : List Group) (config : PruningConfig) (required fallback : ℕ) (s : List Group)
      → extended_subset groups config required fallback ≡ some s
      → All P (candidate_groups groups hard config true)
      → All P s
  extended_subset-All groups config required fallback s h ps =
      let extended = candidate_groups groups hard config true in
      elim (Option-cases (optimal_subset extended required)) [
        | inr (t, e) ↦
            optimal_subset-All P extended required s (unfold extended_subset in ground arith) ps
        | inl e ↦
            optimal_subset-All P extended fallback s (unfold extended_subset in ground arith) ps
      ]

  fallback_subset-All :
      (core : List Group) (fallback : ℕ) (found : Option (List Group)) (s : List Group)
      → fallback_subset core fallback found ≡ some s
      → ((t : List Group) → found ≡ some t → All P t)
      → All P core
      → All P s
  unfolding fallback_subset
  fallback_subset-All core fallback (some t) s h ps qs = ps s h
  fallback_subset-All core fallback none s h ps qs = elim (Bool-cases (ltb 0 fallback)) [
    | inl b ↦ optimal_subset-All P core fallback s (rw b at h) qs
    | inr b ↦ partial_subset-All core s (rw b at h) qs
  ]

-- What the hard route finds beyond the core candidates.
abbrev beyond_core : List Group → PressureRoute → PruningConfig → ℕ → ℕ → Option (List Group)
beyond_core groups route config required fallback =
    if is_hard route then extended_subset groups config required fallback else none

-- The core candidates suffice, or they do not.
select_core :
    (groups : List Group) (route : PressureRoute) (r : ℕ) (config : PruningConfig) (fallback : ℕ)
    (s : List Group)
    → optimal_subset (candidate_groups groups route config false) (suc r) ≡ some s
    → select_pruned_groups groups route (suc r) config fallback ≡ some s
unfolding select_pruned_groups
select_core groups route r config fallback s e = ground arith

select_beyond :
    (groups : List Group) (route : PressureRoute) (r : ℕ) (config : PruningConfig) (fallback : ℕ)
    → optimal_subset (candidate_groups groups route config false) (suc r) ≡ none
    → select_pruned_groups groups route (suc r) config fallback
      ≡ fallback_subset
          (candidate_groups groups route config false)
          fallback
          (beyond_core groups route config (suc r) fallback)
unfolding select_pruned_groups
select_beyond groups route r config fallback e = ground arith

module _ {κ} (P : Group → Type κ) where
  beyond_core-All :
      (groups : List Group) (route : PressureRoute) (config : PruningConfig) (required fallback : ℕ)
      (s : List Group)
      → beyond_core groups route config required fallback ≡ some s
      → All P (candidate_groups groups route config (is_hard route))
      → All P s
  beyond_core-All groups soft config required fallback s h ps = absurd (ground arith)
  beyond_core-All groups hard config required fallback s h ps =
      extended_subset-All P groups config required fallback s h ps

  pub select_pruned_groups-All :
      (groups : List Group) (route : PressureRoute) (required : ℕ) (config : PruningConfig)
      (fallback : ℕ) (s : List Group)
      → select_pruned_groups groups route required config fallback ≡ some s
      → All P (candidate_groups groups route config false)
      → All P (candidate_groups groups route config (is_hard route))
      → All P s
  select_pruned_groups-All groups route zero config fallback [] h ps qs = tt
  select_pruned_groups-All groups route zero config fallback (g ∷ s) h ps qs =
      absurd (unfold select_pruned_groups in ground arith)
  select_pruned_groups-All groups route (suc r) config fallback s h ps qs =
      let core = candidate_groups groups route config false in
      elim (Option-cases (optimal_subset core (suc r))) [
        | inr (t, e) ↦
            optimal_subset-All P core (suc r) s
              (e ∙ (sym (select_core groups route r config fallback t e) ∙ h)) ps
        | inl e ↦
            fallback_subset-All P core fallback (beyond_core groups route config (suc r) fallback) s
              (sym (select_beyond groups route r config fallback e) ∙ h)
              (λ t found. beyond_core-All groups route config (suc r) fallback t found qs) ps
      ]

-- Every group that is selected may be pruned on the route: no protected class, no recent message or
-- tool interaction, a disposable member, policies that allow the route, enough savings; and on the
-- soft route no group that the cache's time to live protects.
pub select_pruned_groups-IsPrunable :
    (groups : List Group) (route : PressureRoute) (required : ℕ) (config : PruningConfig)
    (fallback : ℕ) (s : List Group)
    → select_pruned_groups groups route required config fallback ≡ some s
    → All (IsPrunable route config (is_hard route)) s
select_pruned_groups-IsPrunable groups route required config fallback s h =
    select_pruned_groups-All (IsPrunable route config (is_hard route)) groups route required config
      fallback s h
      (IsPrunable-weaken route config _ (candidate_groups-IsPrunable groups route config false))
      (candidate_groups-IsPrunable groups route config (is_hard route))

-- With a fallback that is positive and no more than what is required, what is selected saves at
-- least the fallback.
extended_subset-reaches :
    (groups : List Group) (config : PruningConfig) (required fallback : ℕ) (s : List Group)
    → fallback ≤ required
    → extended_subset groups config required fallback ≡ some s
    → fallback ≤ total_savings s
extended_subset-reaches groups config required fallback s le h =
    let extended = candidate_groups groups hard config true in
    elim (Option-cases (optimal_subset extended required)) [
      | inr (t, e) ↦
          let r =
            optimal_subset-reaches extended required s (unfold extended_subset in ground arith) in
          omega (arith, r)
      | inl e ↦ optimal_subset-reaches extended fallback s (unfold extended_subset in ground arith)
    ]

fallback_subset-reaches :
    (core : List Group) (fallback : ℕ) (found : Option (List Group)) (s : List Group)
    → 0 < fallback
    → fallback_subset core fallback found ≡ some s
    → ((t : List Group) → found ≡ some t → fallback ≤ total_savings t)
    → fallback ≤ total_savings s
fallback_subset-reaches core fallback (some t) s pos h ps = ps s (unfold fallback_subset in h)
fallback_subset-reaches core fallback none s pos h ps =
    optimal_subset-reaches core fallback s (unfold fallback_subset in ground arith)

beyond_core-reaches :
    (groups : List Group) (route : PressureRoute) (config : PruningConfig) (required fallback : ℕ)
    (s : List Group)
    → fallback ≤ required
    → beyond_core groups route config required fallback ≡ some s
    → fallback ≤ total_savings s
beyond_core-reaches groups soft config required fallback s le h = absurd (ground arith)
beyond_core-reaches groups hard config required fallback s le h =
    extended_subset-reaches groups config required fallback s le h

-- With a positive fallback that is no more than what is required, whatever is selected saves at least
-- the fallback by its estimates.
pub select_pruned_groups-reaches :
    (groups : List Group) (route : PressureRoute) (required : ℕ) (config : PruningConfig)
    (fallback : ℕ) (s : List Group)
    → 0 < fallback
    → fallback ≤ required
    → select_pruned_groups groups route required config fallback ≡ some s
    → fallback ≤ total_savings s
select_pruned_groups-reaches groups route zero config fallback s pos le h = absurd (omega arith)
select_pruned_groups-reaches groups route (suc r) config fallback s pos le h =
    let core = candidate_groups groups route config false in
    elim (Option-cases (optimal_subset core (suc r))) [
      | inr (t, e) ↦
          let got =
            optimal_subset-reaches core (suc r) s
              (e ∙ (sym (select_core groups route r config fallback t e) ∙ h)) in
          omega (arith, got)
      | inl e ↦
          fallback_subset-reaches core fallback (beyond_core groups route config (suc r) fallback) s
            pos (sym (select_beyond groups route r config fallback e) ∙ h)
            (λ t found. beyond_core-reaches groups route config (suc r) fallback t le found)
    ]

-- When the core candidates at or after an index can save what is required, which is positive, the
-- selection saves it and prunes nothing before that index.
pub select_pruned_groups_latest :
    (groups : List Group) (route : PressureRoute) (required : ℕ) (config : PruningConfig)
    (fallback bound : ℕ)
    → 0 < required
    → required
      ≤ total_savings (keep (λ g. leb bound g.index) (candidate_groups groups route config false))
    → (s : List Group) × (select_pruned_groups groups route required config fallback ≡ some s)
      × (required ≤ total_savings s)
      × All (λ g. bound ≤ g.index) s
select_pruned_groups_latest groups route zero config fallback bound pos room = elim pos [ ]
select_pruned_groups_latest groups route (suc r) config fallback bound pos room =
    let core = candidate_groups groups route config false in
    let (s, found, reaches, after) = optimal_subset_latest core (suc r) bound pos room in
    (s, select_core groups route r config fallback s found, reaches, after)
