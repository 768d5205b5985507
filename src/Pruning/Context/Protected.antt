-- ===== src/Pruning/Context/Protected.antt =====
-- structured_pruning.py: what a view that `prune_structured_context` returns holds and saves.
use mathlib.Core.List.{Memᴰ}
use mathlib.Core.List.Permᴰ
use tokenjuice_hermes.BlobStore.{BlobStore}
use tokenjuice_hermes.Common.{
  Text, ◌+◌, ◌≤◌, ◌≡◌, refl, sym, ap, subst, Bool, true, false, not, Option, some, List, [], ◌∷◌,
  map, ok, ℤ, keep, All, All-of-Memᴰ, All-Permᴰ, All-keep, ◌⊎◌, inl, inr, Bool-cases, arith,
}
use tokenjuice_hermes.Json.{JsonValue, JsonObject}
use tokenjuice_hermes.Observability.{Counters}
use tokenjuice_hermes.Pruning.Apply.Outcomes.{retry_groups}
use tokenjuice_hermes.Pruning.Apply.{PruningApplicationResult}
use tokenjuice_hermes.Pruning.Context.Safety.{
  Explains, plan_of, prune_prepared-Explains, prune_structured_context-inv,
}
use tokenjuice_hermes.Pruning.Context.{
  threshold_savings, minimum_savings, prune_structured_context, prepare_prune,
}
use tokenjuice_hermes.Pruning.Groups.Partition.{build_groups-Permᴰ}
use tokenjuice_hermes.Pruning.Groups.Protection.{
  is_protected, HasDistinctIds, IsUnprotected, build_groups-IsUnprotected, All-members_of,
  All-contributions, protected_not-is_selected,
}
use tokenjuice_hermes.Pruning.Groups.{build_groups, resolve_now_ms}
use tokenjuice_hermes.Pruning.Pressure.{Prepared}
use tokenjuice_hermes.Pruning.Rescue.Applied.{apply_pruned_groups_balance}
use tokenjuice_hermes.Pruning.Rescue.Counts.{is_selected, tokens}
use tokenjuice_hermes.Pruning.Rescue.{members_of}
use tokenjuice_hermes.Pruning.Selection.Candidates.{IsPrunable, candidate_groups-IsPrunable}
use tokenjuice_hermes.Pruning.Selection.Route.{
  select_pruned_groups-All, select_pruned_groups-IsPrunable,
}
use tokenjuice_hermes.Pruning.Selection.{candidate_groups, is_candidate, select_pruned_groups}
use tokenjuice_hermes.Pruning.Types.{
  Contribution, ContributionInternal, Group, PruningConfig, PressureRoute, StructuredPruningResult,
  is_hard,
}

All-zip {ℓ} :
    {A : Type ℓ} (P Q R : A → Type 0) (xs : List A)
    → ((x : A) → P x → Q x → R x)
    → All P xs
    → All Q xs
    → All R xs
All-zip P Q R [] f ps qs = tt
All-zip P Q R (x ∷ xs) f ps qs = (f x ps.0 qs.0, All-zip P Q R xs f ps.1 qs.1)

mem_keep :
    (p : ContributionInternal → Bool) (c : ContributionInternal) (cs : List ContributionInternal)
    → p c ≡ true
    → Memᴰ c cs
    → Memᴰ c (keep p cs)
unfolding keep
mem_keep p c [] h m = elim m [ ]
mem_keep p c (x ∷ cs) h (Memᴰ.head e) =
    let px : p x ≡ true = subst (λ y. p y ≡ true) e h in rw px (Memᴰ.head e)
mem_keep p c (x ∷ cs) h (Memᴰ.tail m) = elim (Bool-cases (p x)) [
  | inl e ↦ rw e (Memᴰ.tail (mem_keep p c cs h m))
  | inr e ↦ rw e (mem_keep p c cs h m)
]

mem_cons :
    (p : ContributionInternal → Bool) (c x : ContributionInternal) (cs : List ContributionInternal)
    → (Memᴰ c (keep p cs) → Memᴰ c cs)
    → Memᴰ c (x ∷ keep p cs)
    → Memᴰ c (x ∷ cs)
mem_cons p c x cs f (Memᴰ.head e) = Memᴰ.head e
mem_cons p c x cs f (Memᴰ.tail m) = Memᴰ.tail (f m)

mem_of-keep :
    (p : ContributionInternal → Bool) (c : ContributionInternal) (cs : List ContributionInternal)
    → Memᴰ c (keep p cs)
    → Memᴰ c cs
unfolding keep
mem_of-keep p c [] m = m
mem_of-keep p c (x ∷ cs) m = elim (Bool-cases (p x)) [
  | inl e ↦ mem_cons p c x cs (mem_of-keep p c cs) (rw e at m)
  | inr e ↦ Memᴰ.tail (mem_of-keep p c cs (rw e at m))
]

mem_map :
    (c : ContributionInternal) (cs : List ContributionInternal)
    → Memᴰ c cs
    → Memᴰ c.original (map (λ d. d.original) cs)
mem_map c [] m = elim m [ ]
mem_map c (x ∷ cs) (Memᴰ.head e) = Memᴰ.head (ap (λ (d : ContributionInternal). d.original) e)
mem_map c (x ∷ cs) (Memᴰ.tail m) = Memᴰ.tail (mem_map c cs m)

sound_candidates :
    (P : Group → Type 0) (groups : List Group) (route : PressureRoute) (config : PruningConfig)
    (ttl : Bool)
    → All P groups
    → All P (candidate_groups groups route config ttl)
unfolding candidate_groups
sound_candidates P groups route config ttl h = All-keep P (is_candidate route config ttl) groups h

module _ (parsed : List ContributionInternal) (config : PruningConfig) where
  -- A group of parsed contributions, with the marks that its members call for.
  IsSound : Group → Type 0
  IsSound g = IsUnprotected parsed config g × All (λ c. Memᴰ c parsed) g.contributions

  build_groups-IsSound : (now_ms : Option ℤ) → All IsSound (build_groups parsed config now_ms)
  unfolding IsSound
  build_groups-IsSound now_ms =
      let groups = build_groups parsed config now_ms in
      All-zip (IsUnprotected parsed config) (λ g. All (λ c. Memᴰ c parsed) g.contributions) IsSound
        groups (λ g p q. (p, q)) (build_groups-IsUnprotected parsed config now_ms)
        (All-contributions (λ c. Memᴰ c parsed) groups
          (All-Permᴰ (λ c. Memᴰ c parsed) (Permᴰ.symm (build_groups-Permᴰ parsed config now_ms))
            (All-of-Memᴰ (λ c. Memᴰ c parsed) parsed (λ c m. m))))

  -- A member that may go: parsed, and not protected.
  IsFree : ContributionInternal → Type 0
  IsFree c = (is_protected parsed config c ≡ false) × Memᴰ c parsed

  prunable_members :
      (route : PressureRoute) (ttl : Bool) (gs : List Group)
      → All IsSound gs
      → All (IsPrunable route config ttl) gs
      → All IsFree (members_of gs)
  unfolding IsSound IsFree
  prunable_members route ttl gs sound prunable = All-members_of IsFree gs (
      All-zip IsSound (IsPrunable route config ttl) (λ g. All IsFree g.contributions) gs
        (λ g s p.
          All-zip (λ c. is_protected parsed config c ≡ false) (λ c. Memᴰ c parsed) IsFree
            g.contributions (λ c a b. (a, b)) (s.0 p.no_protected_class p.no_recent_message) s.1)
        sound prunable)

-- The groups that a result was computed for are free to go.
pruned_members :
    (p : Prepared) (context : JsonObject) (gs hs : List Group)
    → select_pruned_groups
        (build_groups p.parsed_contributions p.config
          (resolve_now_ms p.parsed_contributions context))
        p.route
        (minimum_savings p)
        p.config
        (threshold_savings p)
      ≡ some gs
    → (hs ≡ gs) ⊎ (hs ≡ retry_groups (plan_of p context gs))
    → All (IsFree p.parsed_contributions p.config) (members_of hs)
pruned_members p context gs hs selected from =
    let groups =
      build_groups p.parsed_contributions p.config
        (resolve_now_ms p.parsed_contributions context) in
    let sound =
      build_groups-IsSound p.parsed_contributions p.config
        (resolve_now_ms p.parsed_contributions context) in
    let Sound = IsSound p.parsed_contributions p.config in
    elim from [
      | inl e ↦ rw e (
          prunable_members p.parsed_contributions p.config p.route (is_hard p.route) gs
            (select_pruned_groups-All Sound groups p.route (minimum_savings p) p.config
              (threshold_savings p) gs selected
              (sound_candidates Sound groups p.route p.config false sound)
              (sound_candidates Sound groups p.route p.config (is_hard p.route) sound))
            (select_pruned_groups-IsPrunable groups p.route (minimum_savings p) p.config
              (threshold_savings p) gs selected))
      | inr e ↦ rw e (
          prunable_members p.parsed_contributions p.config p.route (is_hard p.route)
            (retry_groups (plan_of p context gs))
            (sound_candidates Sound groups p.route p.config (is_hard p.route) sound)
            (candidate_groups-IsPrunable groups p.route p.config (is_hard p.route)))
    ]

module _ (store : BlobStore) (build_excerpt : Text → Text → Text) (is_zero_float : Text → Bool)
    (parse_json : Text → Option JsonValue) where
  open store use {State}

  explained_retains :
      (p : Prepared) (context : JsonObject) (view : StructuredPruningResult) (gs : List Group)
      (a : PruningApplicationResult)
      → HasDistinctIds p.parsed_contributions
      → Explains store build_excerpt is_zero_float parse_json p context view gs a
      → (c : ContributionInternal) → Memᴰ c p.parsed_contributions
      → is_protected p.parsed_contributions p.config c ≡ true
      → Memᴰ c.original view.effective_contributions
  unfolding IsFree
  explained_retains p context view gs a distinct x c mem h =
      let free = pruned_members p context gs a.pruned_groups x.selected x.applied.groups_of in
      let kept =
        apply_pruned_groups_balance store build_excerpt p.parsed_contributions a.pruned_groups
          context x.applied.state a.applied x.applied.computed in
      let unselected =
        protected_not-is_selected p.parsed_contributions p.config a.pruned_groups distinct free c
          mem h in
      let stays : not (is_selected a.pruned_groups c) ≡ true = rw unselected refl in
      let there =
        mem_keep (λ d. not (is_selected a.pruned_groups d)) c p.parsed_contributions stays mem in
      let retained =
        mem_of-keep (λ d. not (is_selected a.pruned_groups d)) c a.applied.retained
          (subst (Memᴰ c) (sym kept.0) there) in
      subst (Memᴰ c.original) (sym x.contributions) (mem_map c a.applied.retained retained)

  -- When a call that is prepared returns a view, and the parsed contributions have distinct ids,
  -- each contribution of a protected class and each of the recent messages is among the effective
  -- contributions, as it came.
  pub prune_structured_context-retains :
      (contributions : List Contribution) (pressure threshold : Option ℤ) (context : JsonObject)
      (k : Counters) (s : State) (view : StructuredPruningResult) (p : Prepared)
      → (prepare_prune contributions pressure threshold context k).0 ≡ ok (some p)
      → HasDistinctIds p.parsed_contributions
      → (prune_structured_context store build_excerpt is_zero_float parse_json contributions
          pressure threshold context k s).0
        ≡ some view
      → (c : ContributionInternal) → Memᴰ c p.parsed_contributions
      → is_protected p.parsed_contributions p.config c ≡ true
      → Memᴰ c.original view.effective_contributions
  prune_structured_context-retains contributions pressure threshold context k s view p e distinct h
        c mem protect =
      let (gs, a, x) =
        prune_prepared-Explains store build_excerpt is_zero_float parse_json p context
          (prepare_prune contributions pressure threshold context k).1 s view
          (prune_structured_context-inv store build_excerpt is_zero_float parse_json contributions
            pressure threshold context k s view p e h) in
      explained_retains p context view gs a distinct x c mem protect

  -- When a call that is prepared returns a view, the saved tokens that it accounts for bring the
  -- pressure down to the threshold, and are no more than the estimates of the parsed
  -- contributions.
  pub prune_structured_context-saves :
      (contributions : List Contribution) (pressure threshold : Option ℤ) (context : JsonObject)
      (k : Counters) (s : State) (view : StructuredPruningResult) (p : Prepared)
      → (prepare_prune contributions pressure threshold context k).0 ≡ ok (some p)
      → (prune_structured_context store build_excerpt is_zero_float parse_json contributions
          pressure threshold context k s).0
        ≡ some view
      → (p.pressure ≤ p.threshold + view.accounting.saved_tokens)
        × (view.accounting.saved_tokens ≤ tokens p.parsed_contributions)
  prune_structured_context-saves contributions pressure threshold context k s view p e h =
      let (gs, a, x) =
        prune_prepared-Explains store build_excerpt is_zero_float parse_json p context
          (prepare_prune contributions pressure threshold context k).1 s view
          (prune_structured_context-inv store build_excerpt is_zero_float parse_json contributions
            pressure threshold context k s view p e h) in
      let kept =
        apply_pruned_groups_balance store build_excerpt p.parsed_contributions a.pruned_groups
          context x.applied.state a.applied x.applied.computed in
      let saved = x.saved in
      let enough = x.enough in let bounded = kept.3 in omega (arith, saved, enough, bounded)
