-- ===== src/Pruning/Rescue/Groups.antt =====
-- structured_pruning_rescue.py: `apply_pruned_groups` on atomic groups, and without a rescue.
use mathlib.Core.List.{Memᴰ}
use tokenjuice_hermes.BlobStore.{BlobStore}
use tokenjuice_hermes.Common.{
  All-Memᴰ, subst, sym, Text, text_eq, text_eq_refl, mem_text, ◌≡◌, ◌⊎◌, refl, true, false, not,
  some, List, [], ◌∷◌, map, ok, Dict, get, put, keep, sum_by, Bool-cases, Option-cases, inl, inr,
  arith, All,
}
use tokenjuice_hermes.Json.{JsonObject}
use tokenjuice_hermes.Pruning.Rescue.Applied.{
  KeepsIds, rescue_replacements-KeepsIds, not_selected-get, selected-get,
}
use tokenjuice_hermes.Pruning.Rescue.Counts.{tokens, is_selected}
use tokenjuice_hermes.Pruning.Rescue.{
  AppliedPruning, Verdict, verdict, retain, drop, replace, add_round, apply_loop,
  apply_pruned_groups, rescue_replacements, pruned_by_id, members_of, by_id, rescued_group_ids,
  in_rescued_group, is_rescue_backed,
}
use tokenjuice_hermes.Pruning.Types.{ContributionInternal, Group}

-- A contribution is still among the retained ones, itself or as its replacement.
abbrev pub IsKept : Dict ContributionInternal → AppliedPruning → ContributionInternal → Type 0
IsKept rs r c =
    (kept : ContributionInternal) × Memᴰ kept r.retained
    × (kept.id ≡ c.id)
    × ((kept ≡ c) ⊎ (get c.id rs ≡ some kept))

mem_rescued_group_ids :
    (rs : Dict ContributionInternal) (k g : Text) (t : ContributionInternal)
    → get k rs ≡ some t
    → t.atomic_group_id ≡ some g
    → mem_text g (rescued_group_ids rs) ≡ true
unfolding get rescued_group_ids mem_text
mem_rescued_group_ids [] k g t h e = absurd (cc h)
mem_rescued_group_ids ((k', c) ∷ rs) k g t h e = elim (Bool-cases (text_eq k' k)) [
  | inl b ↦
      let same : c ≡ t = ground (arith, b, h) in
      let group : c.atomic_group_id ≡ some g = cc (same, e) in ground (arith, group, text_eq_refl g)
  | inr b ↦
      let later = mem_rescued_group_ids rs k g t (ground (arith, b, h)) e in
      elim (Option-cases c.atomic_group_id) [
        | inl n ↦ ground (arith, n, later)
        | inr (g', n) ↦ ground (arith, n, later)
      ]
]

module _ (pruned rs : Dict ContributionInternal) (ids : KeepsIds rs) where
  -- A contribution of a rescued group is not dropped.
  stays :
      (c : ContributionInternal) (r : AppliedPruning)
      → in_rescued_group (rescued_group_ids rs) c ≡ true
      → IsKept rs (add_round c (verdict pruned rs c) r) c
  stays c r h = elim (Option-cases (get c.id pruned)) [
    | inl e ↦ (c, unfold add_round verdict in rw (e, verdict) (Memᴰ.head refl), refl, inl refl)
    | inr (m, e) ↦ elim (Option-cases (get c.id rs)) [
      | inl f ↦
          (c, unfold add_round verdict in rw (e, f, h, verdict) (Memᴰ.head refl), refl, inl refl)
      | inr (t, f) ↦
          (t, unfold add_round verdict in rw (e, f, verdict) (Memᴰ.head refl), ids c.id t f, inr f)
    ]
  ]

  later_round :
      (d c : ContributionInternal) (v : Verdict) (r : AppliedPruning)
      → Memᴰ d r.retained
      → Memᴰ d (add_round c v r).retained
  unfolding add_round
  later_round d c retain r h = Memᴰ.tail h
  later_round d c drop r h = h
  later_round d c (replace t) r h = Memᴰ.tail h

  -- Each contribution of a rescued group is kept.
  AllKept : AppliedPruning → List ContributionInternal → Type 0
  AllKept r cs = All (λ c. in_rescued_group (rescued_group_ids rs) c ≡ true → IsKept rs r c) cs

  AllKept-later :
      (c : ContributionInternal) (v : Verdict) (r : AppliedPruning) (cs : List ContributionInternal)
      → AllKept r cs
      → AllKept (add_round c v r) cs
  unfolding AllKept
  AllKept-later c v r [] h = tt
  AllKept-later c v r (d ∷ cs) h = (
    λ e.
        let (kept, there, same, which) = h.0 e in (kept, later_round kept c v r there, same, which),
    AllKept-later c v r cs h.1,
  )

  apply_loop-AllKept : (cs : List ContributionInternal) → AllKept (apply_loop pruned rs cs) cs
  unfolding apply_loop AllKept
  apply_loop-AllKept [] = tt
  apply_loop-AllKept (c ∷ cs) = (
    stays c (apply_loop pruned rs cs),
    AllKept-later c (verdict pruned rs c) (apply_loop pruned rs cs) cs (apply_loop-AllKept cs),
  )

module _ (store : BlobStore) (build_excerpt : Text → Text → Text) where
  open store use {State}

  -- When the groups are applied, every contribution that is in one atomic group with a replacement is
  -- still among the retained ones under its id, as it came or as the replacement under this id.
  pub apply_pruned_groups_whole :
      (parsed : List ContributionInternal) (groups : List Group) (context : JsonObject) (s : State)
      (r : AppliedPruning) (rs : Dict ContributionInternal)
      → (apply_pruned_groups store build_excerpt parsed groups context s).0 ≡ ok (some r)
      → (rescue_replacements store build_excerpt (pruned_by_id groups) context s).0 ≡ ok (some rs)
      → (k g : Text) (t : ContributionInternal) → get k rs ≡ some t
      → t.atomic_group_id ≡ some g
      → (c : ContributionInternal) → Memᴰ c parsed
      → c.atomic_group_id ≡ some g
      → (kept : ContributionInternal) × Memᴰ kept r.retained
        × (kept.id ≡ c.id)
        × ((kept ≡ c) ⊎ (get c.id rs ≡ some kept))
  apply_pruned_groups_whole parsed groups context s r rs h replaced k g t there group c mem same =
      let pruned = pruned_by_id groups in
      let ids = rescue_replacements-KeepsIds store build_excerpt pruned context s rs replaced in
      let e : r ≡ apply_loop pruned rs parsed = unfold apply_pruned_groups in ground arith in
      let rescued : in_rescued_group (rescued_group_ids rs) c ≡ true =
        rw same (mem_rescued_group_ids rs k g t there group) in
      let whole =
        All-Memᴰ
          (λ d.
            in_rescued_group (rescued_group_ids rs) d ≡ true
            → IsKept rs (apply_loop pruned rs parsed) d)
          parsed (unfold AllKept in apply_loop-AllKept pruned rs ids parsed) mem rescued in
      subst (λ x. IsKept rs x c) (sym e) whole

-- No contribution of the dictionary is rescue-backed.
abbrev NoneBacked : Dict ContributionInternal → Type 0
NoneBacked d = All (λ e. is_rescue_backed e.1 ≡ false) d

put-NoneBacked :
    (k : Text) (c : ContributionInternal) (d : Dict ContributionInternal)
    → is_rescue_backed c ≡ false
    → NoneBacked d
    → NoneBacked (put k c d)
unfolding put
put-NoneBacked k c [] h ps = (h, tt)
put-NoneBacked k c (e ∷ d) h ps = elim (Bool-cases (text_eq e.0 k)) [
  | inl b ↦ rw b (h, ps.1)
  | inr b ↦ rw b (ps.0, put-NoneBacked k c d h ps.1)
]

by_id-NoneBacked :
    (cs : List ContributionInternal) (d : Dict ContributionInternal)
    → All (λ c. is_rescue_backed c ≡ false) cs
    → NoneBacked d
    → NoneBacked (by_id d cs)
unfolding by_id
by_id-NoneBacked [] d h ps = ps
by_id-NoneBacked (c ∷ cs) d h ps =
    by_id-NoneBacked cs (put c.id c d) h.1 (put-NoneBacked c.id c d h.0 ps)

no_candidates :
    (d : Dict ContributionInternal) → NoneBacked d → keep is_rescue_backed (map (λ e. e.1) d) ≡ []
unfolding keep
no_candidates [] h = refl
no_candidates (e ∷ d) h = rw h.0 (no_candidates d h.1)

-- The loop with no replacement.
plain_loop :
    (groups : List Group) (cs : List ContributionInternal)
    → ((apply_loop (pruned_by_id groups) [] cs).retained
        ≡ keep (λ c. not (is_selected groups c)) cs)
      × ((apply_loop (pruned_by_id groups) [] cs).saved_tokens
          ≡ tokens (keep (is_selected groups) cs))
      × ((apply_loop (pruned_by_id groups) [] cs).rescued_count ≡ 0)
unfolding apply_loop add_round verdict keep sum_by get rescued_group_ids mem_text
plain_loop groups [] = (refl, refl, refl)
plain_loop groups (c ∷ cs) =
    let rest = plain_loop groups cs in
    elim (Bool-cases (is_selected groups c)) [
      | inl e ↦ let there = selected-get groups c e in ground (arith, rest, there)
      | inr e ↦ let absent = not_selected-get groups c e in ground (arith, rest, absent)
    ]

module _ (store : BlobStore) (build_excerpt : Text → Text → Text) where
  open store use {State}

  -- When no member of the selected groups is rescue-backed, the call succeeds whatever the context and
  -- the store say: exactly the selected contributions go, their tokens are saved, and the store is
  -- left alone.
  pub apply_pruned_groups_drops :
      (parsed : List ContributionInternal) (groups : List Group) (context : JsonObject) (s : State)
      → All (λ c. is_rescue_backed c ≡ false) (members_of groups)
      → (r : AppliedPruning) × (apply_pruned_groups store build_excerpt parsed groups context s
          ≡ (ok (some r), s))
        × (r.retained ≡ keep (λ c. not (is_selected groups c)) parsed)
        × (r.saved_tokens ≡ tokens (keep (is_selected groups) parsed))
        × (r.rescued_count ≡ 0)
  unfolding apply_pruned_groups rescue_replacements pruned_by_id
  apply_pruned_groups_drops parsed groups context s h =
      let none_there =
        no_candidates (pruned_by_id groups) (by_id-NoneBacked (members_of groups) [] h tt) in
      let (kept, saved, rescued) = plain_loop groups parsed in
      (apply_loop (pruned_by_id groups) [] parsed, ground (arith, none_there), kept, saved, rescued)
