-- ===== src/Pruning/Rescue/Applied.antt =====
-- structured_pruning_rescue.py: the balance of a call of `apply_pruned_groups`.
use tokenjuice_hermes.BlobStore.{BlobStore}
use tokenjuice_hermes.Common.{
  Text, text_eq_iff, mem_text, ◌+◌, ◌≤◌, ◌≡◌, ◌≢◌, ap, true, false, not, none, some, List, [], ◌∷◌,
  map, ok, Dict, get, keep, length, Outcome-cases, inl, inr, arith, codes,
}
use tokenjuice_hermes.Json.{JsonObject}
use tokenjuice_hermes.Pruning.Rescue.{
  AppliedPruning, verdict, retain, replace, apply_loop, apply_pruned_groups, rescue_replacements,
  pruned_by_id, members_of, is_rescue_backed, rescue_contribution, rescue_all, rescue_content,
  excerpted, with_content, content_of, string_context,
}
use tokenjuice_hermes.Pruning.Rescue.Counts.{
  tokens, apply_loop-counts, apply_loop-tokens, apply_loop-keep, is_selected, get-by_id_other,
  get-by_id_member,
}
use tokenjuice_hermes.Pruning.Types.{ContributionInternal, Group}

-- Every replacement stands under its own id.
abbrev pub KeepsIds : Dict ContributionInternal → Type 0
KeepsIds d = (k : Text) (r : ContributionInternal) → get k d ≡ some r → r.id ≡ k

module _ (store : BlobStore) (build_excerpt : Text → Text → Text) where
  open store use {State}

  rescue_content-id :
      (c r : ContributionInternal) (session content : Text) (s : State)
      → (rescue_content store build_excerpt c session content s).0 ≡ ok r
      → r.id ≡ c.id
  unfolding rescue_content excerpted with_content
  rescue_content-id c r session content s h = ground arith

  rescue_contribution-id :
      (c r : ContributionInternal) (session : Text) (s : State)
      → (rescue_contribution store build_excerpt c session s).0 ≡ ok r
      → r.id ≡ c.id
  unfolding rescue_contribution
  rescue_contribution-id c r session s h = elim (Outcome-cases (content_of c)) [
    | inl (e, failed) ↦ absurd (ground arith)
    | inr (content, found) ↦ rescue_content-id c r session content s (ground arith)
  ]

  rescue_all-KeepsIds :
      (cs : List ContributionInternal) (session : Text) (s : State) (d : Dict ContributionInternal)
      → (rescue_all store build_excerpt cs session s).0 ≡ ok d
      → KeepsIds d
  unfolding rescue_all get
  rescue_all-KeepsIds [] session s d h k r g = absurd (ground arith)
  rescue_all-KeepsIds (c ∷ cs) session s d h k r g =
      let first = rescue_contribution store build_excerpt c session s in
      let rest = rescue_all store build_excerpt cs session first.1 in
      elim (Outcome-cases first.0) [
        | inl (e, failed) ↦ absurd (ground arith)
        | inr (t, done) ↦ elim (Outcome-cases rest.0) [
          | inl (e, failed) ↦ absurd (ground arith)
          | inr (d', found) ↦ ground (
            arith,
            text_eq_iff c.id k,
            rescue_contribution-id c t session s done,
            rescue_all-KeepsIds cs session first.1 d' found k r,
          )
        ]
      ]

  pub rescue_replacements-KeepsIds :
      (pruned : Dict ContributionInternal) (context : JsonObject) (s : State)
      (d : Dict ContributionInternal)
      → (rescue_replacements store build_excerpt pruned context s).0 ≡ ok (some d)
      → KeepsIds d
  unfolding rescue_replacements get
  rescue_replacements-KeepsIds pruned context s d h k r g =
      let cs = keep is_rescue_backed (map (λ e. e.1) pruned) in
      let session = string_context context (codes "session_id") in
      let all = rescue_all store build_excerpt cs session s in
      elim (Outcome-cases all.0) [
        | inl (e, failed) ↦ absurd (ground arith)
        | inr (d', found) ↦ ground (arith, rescue_all-KeepsIds cs session s d' found k r)
      ]

  pub apply_pruned_groups-inv :
      (parsed : List ContributionInternal) (groups : List Group) (context : JsonObject) (s : State)
      (r : AppliedPruning)
      → (apply_pruned_groups store build_excerpt parsed groups context s).0 ≡ ok (some r)
      → (rs : Dict ContributionInternal) × ((rescue_replacements store build_excerpt
            (pruned_by_id groups)
            context
            s).0
          ≡ ok (some rs))
        × (r ≡ apply_loop (pruned_by_id groups) rs parsed)
  unfolding apply_pruned_groups
  apply_pruned_groups-inv parsed groups context s r h = ground arith

-- Of the dictionary of members: what is not selected is not in it.
pub not_selected-get :
    (groups : List Group) (c : ContributionInternal)
    → is_selected groups c ≡ false
    → get c.id (pruned_by_id groups) ≡ none
unfolding is_selected pruned_by_id get
not_selected-get groups c h = get-by_id_other c.id (members_of groups) [] h

pub selected-get :
    (groups : List Group) (c : ContributionInternal)
    → is_selected groups c ≡ true
    → get c.id (pruned_by_id groups) ≢ none
unfolding is_selected pruned_by_id
selected-get groups c h = get-by_id_member c.id (members_of groups) [] h

-- A replacement is selected where the contribution that it stands for is.
is_selected-same_id :
    (groups : List Group) (c d : ContributionInternal)
    → c.id ≡ d.id
    → is_selected groups c ≡ is_selected groups d
unfolding is_selected
is_selected-same_id groups c d e = ap (λ k. mem_text k (map (λ m. m.id) (members_of groups))) e

module _ (pruned rs : Dict ContributionInternal) (c : ContributionInternal) where
  verdict_retain : get c.id pruned ≡ none → verdict pruned rs c ≡ retain
  unfolding verdict
  verdict_retain h = ground arith

  verdict_replace :
      (r : ContributionInternal) → verdict pruned rs c ≡ replace r → get c.id rs ≡ some r
  unfolding verdict
  verdict_replace r h = ground arith

module _ (store : BlobStore) (build_excerpt : Text → Text → Text) where
  open store use {State}

  -- When the groups are applied, what is not selected is retained as it is and in its order; the
  -- retained and the pruned contributions are all that there were, with the rescued ones counted
  -- twice; retained and saved tokens together are no less than the tokens there were, and the
  -- saved ones no more.
  pub apply_pruned_groups_balance :
      (parsed : List ContributionInternal) (groups : List Group) (context : JsonObject) (s : State)
      (r : AppliedPruning)
      → (apply_pruned_groups store build_excerpt parsed groups context s).0 ≡ ok (some r)
      → (keep (λ c. not (is_selected groups c)) r.retained
          ≡ keep (λ c. not (is_selected groups c)) parsed)
        × (length r.retained + r.pruned_count ≡ length parsed + r.rescued_count)
        × (tokens parsed ≤ tokens r.retained + r.saved_tokens)
        × (r.saved_tokens ≤ tokens parsed)
  apply_pruned_groups_balance parsed groups context s r h =
      let pruned = pruned_by_id groups in
      let (rs, replaced, e) =
        apply_pruned_groups-inv store build_excerpt parsed groups context s r h in
      let ids = rescue_replacements-KeepsIds store build_excerpt pruned context s rs replaced in
      let (enough, bounded) = apply_loop-tokens pruned rs parsed in
      rw e (
        apply_loop-keep pruned rs (λ c. not (is_selected groups c)) parsed
            (λ c free. verdict_retain pruned rs c (not_selected-get groups c (ground arith)))
            (λ c t taken v.
              let same =
                is_selected-same_id groups t c (ids c.id t (verdict_replace pruned rs c t v)) in
              ground (arith, same)),
        apply_loop-counts pruned rs parsed,
        enough,
        bounded,
      )
