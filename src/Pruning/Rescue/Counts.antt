-- ===== src/Pruning/Rescue/Counts.antt =====
-- structured_pruning_rescue.py: the counts of the loop of `apply_pruned_groups`.
use tokenjuice_hermes.Common.{
  Text, text_eq, text_eq_iff, mem_text, ℕ, ◌+◌, ◌≤◌, ◌≡◌, ◌≢◌, refl, ap, Bool, true, false, none,
  some, List, [], ◌∷◌, map, Dict, get, put, get-put, keep, length, sum_by, Bool-cases, inl, inr,
  arith,
}
use tokenjuice_hermes.Pruning.Rescue.{
  AppliedPruning, Verdict, verdict, retain, drop, replace, add_round, apply_loop, members_of, by_id,
}
use tokenjuice_hermes.Pruning.Types.{ContributionInternal, Group}

-- The estimated tokens of a list of contributions.
abbrev pub tokens : List ContributionInternal → ℕ
tokens = sum_by (λ c. c.token_estimate)

module _ (pruned replacements : Dict ContributionInternal) where
  -- Each contribution is retained, replaced or dropped, and counted so.
  pub apply_loop-counts :
      (cs : List ContributionInternal)
      → length (apply_loop pruned replacements cs).retained
          + (apply_loop pruned replacements cs).pruned_count
        ≡ length cs + (apply_loop pruned replacements cs).rescued_count
  unfolding apply_loop
  apply_loop-counts [] = refl
  apply_loop-counts (c ∷ cs) = ground (arith, apply_loop-counts cs)

  -- The tokens that are gone are claimed as saved, and nothing more than there was.
  pub apply_loop-tokens :
      (cs : List ContributionInternal)
      → (tokens cs
          ≤ tokens (apply_loop pruned replacements cs).retained
            + (apply_loop pruned replacements cs).saved_tokens)
        × ((apply_loop pruned replacements cs).saved_tokens ≤ tokens cs)
  unfolding apply_loop sum_by
  apply_loop-tokens [] = omega arith
  apply_loop-tokens (c ∷ cs) = let rest = apply_loop-tokens cs in ground (arith, rest)

  -- A round on a contribution without `p` adds none that has it.
  keep_round :
      (p : ContributionInternal → Bool) (c : ContributionInternal) (v : Verdict)
      (r : AppliedPruning) (xs : List ContributionInternal)
      → p c ≡ false
      → ((t : ContributionInternal) → v ≡ replace t → p t ≡ false)
      → keep p r.retained ≡ xs
      → keep p (add_round c v r).retained ≡ xs
  unfolding add_round keep
  keep_round p c retain r xs e same h = rw e h
  keep_round p c drop r xs e same h = h
  keep_round p c (replace t) r xs e same h = rw (same t refl) h

  -- What the predicate `p` tells about a contribution is the same of its replacement.
  module _ (p : ContributionInternal → Bool) where
    pub apply_loop-keep :
        (cs : List ContributionInternal)
        → ((c : ContributionInternal) → p c ≡ true → verdict pruned replacements c ≡ retain)
        → ((c r : ContributionInternal)
            → p c ≡ false
            → verdict pruned replacements c ≡ replace r
            → p r ≡ false)
        → keep p (apply_loop pruned replacements cs).retained ≡ keep p cs
    unfolding apply_loop keep
    apply_loop-keep [] stays same = refl
    apply_loop-keep (c ∷ cs) stays same =
        let rest = apply_loop-keep cs stays same in
        elim (Bool-cases (p c)) [
          | inl e ↦ rw (stays c e, e) (ap (◌∷◌ c) rest)
          | inr e ↦ rw e (
              keep_round p c (verdict pruned replacements c) (apply_loop pruned replacements cs)
                (keep p cs) e (λ t. same c t e) rest)
        ]

-- The contribution has the id of a member of a selected group.
unfoldable pub is_selected : List Group → ContributionInternal → Bool
unfolding members_of mem_text
is_selected groups c = mem_text c.id (map (λ m. m.id) (members_of groups))

IsMember : Text → Dict ContributionInternal → Type 0
IsMember k d = (m : ContributionInternal) × (get k d ≡ some m)

-- The dictionary of the selected members has exactly their ids.
pub get-by_id_other :
    (k : Text) (cs : List ContributionInternal) (d : Dict ContributionInternal)
    → mem_text k (map (λ m. m.id) cs) ≡ false
    → get k (by_id d cs) ≡ get k d
unfolding by_id mem_text
get-by_id_other k [] d h = refl
get-by_id_other k (c ∷ cs) d h =
    let rest = get-by_id_other k cs (put c.id c d) (ground arith) in
    ground (arith, rest, get-put c.id k c d, text_eq_iff c.id k, text_eq_iff k c.id)

get-by_id_kept :
    (k : Text) (cs : List ContributionInternal) (d : Dict ContributionInternal)
    → get k d ≢ none
    → get k (by_id d cs) ≢ none
unfolding by_id
get-by_id_kept k [] d h = h
get-by_id_kept k (c ∷ cs) d h =
    get-by_id_kept k cs (put c.id c d) (ground (arith, get-put c.id k c d))

pub get-by_id_member :
    (k : Text) (cs : List ContributionInternal) (d : Dict ContributionInternal)
    → mem_text k (map (λ m. m.id) cs) ≡ true
    → get k (by_id d cs) ≢ none
unfolding by_id mem_text
get-by_id_member k [] d h = absurd (cc)
get-by_id_member k (c ∷ cs) d h = elim (Bool-cases (text_eq k c.id)) [
  | inl e ↦
      get-by_id_kept k cs (put c.id c d)
        (ground (arith, get-put c.id k c d, text_eq_iff c.id k, text_eq_iff k c.id))
  | inr e ↦ get-by_id_member k cs (put c.id c d) (ground arith)
]
