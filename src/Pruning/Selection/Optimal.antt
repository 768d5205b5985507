-- ===== src/Pruning/Selection/Optimal.antt =====
-- structured_pruning_selection.py: what `_optimal_subset` finds.
use tokenjuice_hermes.Common.{
  ℕ, zero, suc, ◌+◌, ◌≤◌, ◌<◌, ◌≡◌, refl, ◌∙◌, true, some, List, [], IsAscending, All-le_trans,
  sort_by-IsAscending, All-sort_by, sum_by-sort_by, All-append, All-keep, ◌∷◌, ◌++◌, map, leb, ◌==◌,
  keep, insert, sort_by, sum_by, All, Bool-cases, Option-cases, inl, inr, arith, subst,
}
use tokenjuice_hermes.Pruning.Groups.{mem_number}
use tokenjuice_hermes.Pruning.Selection.{
  fill, from_earliest, latest_first, sorted_indices, optimal_subset, savings_first, distinct,
}
use tokenjuice_hermes.Pruning.Types.{Group}

-- The savings of a list of groups.
abbrev pub total_savings : List Group → ℕ
total_savings = sum_by (λ g. g.savings)

total_savings-snoc :
    (xs : List Group) (g : Group) → total_savings (xs ++ g ∷ []) ≡ total_savings xs + g.savings
unfolding sum_by
total_savings-snoc [] g = omega arith
total_savings-snoc (x ∷ xs) g = omega (arith, total_savings-snoc xs g)

-- What `fill` returns is made of what it was given.
fill-All {κ} :
    (P : Group → Type κ) (required total : ℕ) (selected gs s : List Group)
    → fill required total selected gs ≡ some s
    → All P selected
    → All P gs
    → All P s
unfolding fill
fill-All P required total selected [] s h ps qs = absurd (cc)
fill-All P required total selected (g ∷ gs) s h ps qs =
    let more = All-append P selected (g ∷ []) ps (qs.0, tt) in
    elim (Bool-cases (leb required (total + g.savings))) [
      | inl e ↦ subst (All P) (ground arith) more
      | inr e ↦
          fill-All P required (total + g.savings) (selected ++ g ∷ []) gs s (ground arith) more qs.1
    ]

fill-reaches :
    (required total : ℕ) (selected gs s : List Group)
    → fill required total selected gs ≡ some s
    → total ≡ total_savings selected
    → required ≤ total_savings s
unfolding fill
fill-reaches required total selected [] s h e = absurd (cc)
fill-reaches required total selected (g ∷ gs) s h e = ground (
  arith,
  total_savings-snoc selected g,
  fill-reaches required (total + g.savings) (selected ++ g ∷ []) gs s,
)

-- It returns something whenever the savings suffice.
fill_complete :
    (required total : ℕ) (selected gs : List Group)
    → total < required
    → required ≤ total + total_savings gs
    → (s : List Group) × (fill required total selected gs ≡ some s)
unfolding fill sum_by
fill_complete required total selected [] h k = absurd (omega arith)
fill_complete required total selected (g ∷ gs) h k =
    elim (Bool-cases (leb required (total + g.savings))) [
      | inl e ↦ (selected ++ g ∷ [], rw e)
      | inr e ↦ rw e (
          fill_complete required (total + g.savings) (selected ++ g ∷ []) gs (ground arith)
            (omega arith))
    ]

le_of-mem_number :
    (i n : ℕ) (later : List ℕ) → All (λ m. i ≤ m) later → mem_number n (i ∷ later) ≡ true → i ≤ n
unfolding mem_number
le_of-mem_number i n [] asc h = ground arith
le_of-mem_number i n (m ∷ ms) asc h = elim (Bool-cases (n == i)) [
  | inl e ↦ ground arith
  | inr e ↦ elim (Bool-cases (n == m)) [
    | inl e' ↦ let le : i ≤ m = asc.0 in ground arith
    | inr e' ↦ le_of-mem_number i n ms asc.1 (ground arith)
  ]
]

-- Facts on the groups at or after an index.
available_after :
    (candidates : List Group) (bound i : ℕ)
    → bound ≤ i
    → All (λ g. bound ≤ g.index) (keep (λ g. leb i g.index) candidates)
unfolding keep
available_after [] bound i h = tt
available_after (g ∷ gs) bound i h =
    let rest = available_after gs bound i h in
    elim (Bool-cases (leb i g.index)) [ inl e ↦ rw e (ground arith, rest) | inr e ↦ rw e rest ]

available_none :
    (candidates : List Group) (bound : ℕ)
    → All (λ g. leb bound g.index ≡ true → mem_number g.index [] ≡ true) candidates
    → total_savings (keep (λ g. leb bound g.index) candidates) ≡ 0
unfolding keep sum_by mem_number
available_none [] bound cover = refl
available_none (g ∷ gs) bound cover =
    let rest = available_none gs bound cover.1 in
    elim (Bool-cases (leb bound g.index)) [ inl e ↦ absurd (cc (cover.0 e)) | inr e ↦ rw e rest ]

-- Where all indices at or after `bound` are at or after `i`, so are the groups.
available_le :
    (candidates : List Group) (bound i : ℕ) (later : List ℕ)
    → All (λ m. i ≤ m) later
    → All (λ g. leb bound g.index ≡ true → mem_number g.index (i ∷ later) ≡ true) candidates
    → total_savings (keep (λ g. leb bound g.index) candidates)
      ≤ total_savings (keep (λ g. leb i g.index) candidates)
unfolding keep sum_by
available_le [] bound i later asc cover = omega arith
available_le (g ∷ gs) bound i later asc cover =
    let rest = available_le gs bound i later asc cover.1 in
    elim (Bool-cases (leb bound g.index)) [
      | inl e ↦
          let after = le_of-mem_number i g.index later asc (cover.0 e) in
          ground (arith, after, rest)
      | inr e ↦ ground (arith, rest)
    ]

-- An index below `bound` covers no group at or after it.
cover_later :
    (candidates : List Group) (bound i : ℕ) (later : List ℕ)
    → i < bound
    → All (λ g. leb bound g.index ≡ true → mem_number g.index (i ∷ later) ≡ true) candidates
    → All (λ g. leb bound g.index ≡ true → mem_number g.index later ≡ true) candidates
unfolding mem_number
cover_later [] bound i later h cover = tt
cover_later (g ∷ gs) bound i later h cover =
    (λ e. let c = cover.0 e in ground arith, cover_later gs bound i later h cover.1)

module _ (candidates : List Group) (required : ℕ) where
  -- The groups that a round of the outer loop may take.
  abbrev available : ℕ → List Group
  available earliest = keep (λ g. leb earliest g.index) candidates

  from_earliest-All {κ} :
      (P : Group → Type κ) (earliest : ℕ) (s : List Group)
      → from_earliest candidates required earliest ≡ some s
      → All P (available earliest)
      → All P s
  unfolding from_earliest
  from_earliest-All P earliest s h ps =
      fill-All P required 0 [] _ s h tt (All-sort_by savings_first P _ ps)

  from_earliest-reaches :
      (earliest : ℕ) (s : List Group)
      → from_earliest candidates required earliest ≡ some s
      → required ≤ total_savings s
  unfolding from_earliest sum_by
  from_earliest-reaches earliest s h = fill-reaches required 0 [] _ s h refl

  from_earliest_complete :
      (earliest : ℕ)
      → 0 < required
      → required ≤ total_savings (available earliest)
      → (s : List Group) × (from_earliest candidates required earliest ≡ some s)
  unfolding from_earliest
  from_earliest_complete earliest h k =
      fill_complete required 0 [] _ h
        (omega (arith, sum_by-sort_by savings_first (λ g. g.savings) (available earliest)))

  latest_first-All {κ} :
      (P : Group → Type κ) (indices : List ℕ) (s : List Group)
      → latest_first candidates required indices ≡ some s
      → All P candidates
      → All P s
  unfolding latest_first
  latest_first-All P [] s h ps = absurd (cc)
  latest_first-All P (i ∷ later) s h ps =
      elim (Option-cases (latest_first candidates required later)) [
        | inl e ↦ from_earliest-All P i s (rw (e, latest_first) at h) (All-keep P _ candidates ps)
        | inr (t, e) ↦ latest_first-All P later s (ground arith) ps
      ]

  latest_first-reaches :
      (indices : List ℕ) (s : List Group)
      → latest_first candidates required indices ≡ some s
      → required ≤ total_savings s
  unfolding latest_first
  latest_first-reaches [] s h = absurd (cc)
  latest_first-reaches (i ∷ later) s h =
      elim (Option-cases (latest_first candidates required later)) [
        | inl e ↦ from_earliest-reaches i s (rw (e, latest_first) at h)
        | inr (t, e) ↦ latest_first-reaches later s (ground arith)
      ]

  -- Nothing that is found lies before a bound on the indices.
  latest_first-after :
      (bound : ℕ) (indices : List ℕ) (s : List Group)
      → latest_first candidates required indices ≡ some s
      → All (λ i. bound ≤ i) indices
      → All (λ g. bound ≤ g.index) s
  unfolding latest_first
  latest_first-after bound [] s h ps = absurd (cc)
  latest_first-after bound (i ∷ later) s h ps =
      elim (Option-cases (latest_first candidates required later)) [
        | inl e ↦
            from_earliest-All (λ g. bound ≤ g.index) i s (rw (e, latest_first) at h)
              (available_after candidates bound i ps.0)
        | inr (t, e) ↦ latest_first-after bound later s (ground arith) ps.1
      ]

  -- The savings of what lies at or after `bound` are no more than those of what `indices` reach.
  latest_first_complete :
      (bound : ℕ) (indices : List ℕ)
      → 0 < required
      → required ≤ total_savings (available bound)
      → IsAscending indices
      → All (λ g. leb bound g.index ≡ true → mem_number g.index indices ≡ true) candidates
      → (s : List Group) × (latest_first candidates required indices ≡ some s)
        × All (λ g. bound ≤ g.index) s
  unfolding latest_first
  latest_first_complete bound [] h k asc cover =
      absurd (omega (arith, available_none candidates bound cover))
  latest_first_complete bound (i ∷ later) h k asc cover = elim (Bool-cases (leb bound i)) [
    | inl e ↦
        let le : bound ≤ i = ground arith in
        elim (Option-cases (latest_first candidates required later)) [
          | inr (t, found) ↦ (
            t,
            rw found,
            latest_first-after bound later t found (All-le_trans bound i later le asc.0),
          )
          | inl missed ↦
              let room = available_le candidates bound i later asc.0 cover in
              let (s, found) = from_earliest_complete i h (omega (arith, room)) in
              (
                s,
                rw missed found,
                from_earliest-All (λ g. bound ≤ g.index) i s found
                    (available_after candidates bound i le),
              )
        ]
    | inr e ↦
        let (s, found, after) =
          latest_first_complete bound later h k asc.1
            (cover_later candidates bound i later (ground arith) cover) in
        (s, rw found, after)
  ]

-- Every index is among the sorted ones.
mem_number-distinct :
    (n : ℕ) (ns : List ℕ) → mem_number n ns ≡ true → mem_number n (distinct ns) ≡ true
unfolding distinct mem_number
mem_number-distinct n [] h = h
mem_number-distinct n (m ∷ ms) h = ground (arith, mem_number-distinct n ms)

mem_number-insert :
    (n m : ℕ) (ns : List ℕ) → mem_number n (m ∷ ns) ≡ true → mem_number n (insert leb m ns) ≡ true
unfolding insert mem_number
mem_number-insert n m [] h = h
mem_number-insert n m (k ∷ ks) h = ground (arith, mem_number-insert n m ks)

mem_number-sort_by :
    (n : ℕ) (ns : List ℕ) → mem_number n ns ≡ true → mem_number n (sort_by leb ns) ≡ true
unfolding sort_by mem_number
mem_number-sort_by n [] h = h
mem_number-sort_by n (m ∷ ms) h =
    mem_number-insert n m (sort_by leb ms)
      (unfold mem_number in ground (arith, mem_number-sort_by n ms))

sorted_indices-IsAscending : (candidates : List Group) → IsAscending (sorted_indices candidates)
unfolding sorted_indices
sorted_indices-IsAscending candidates =
    sort_by-IsAscending (distinct (map (λ g. g.index) candidates))

cover-All :
    (candidates gs : List Group) (bound : ℕ)
    → All (λ g. mem_number g.index (map (λ h. h.index) candidates) ≡ true) gs
    → All (λ g. leb bound g.index ≡ true → mem_number g.index (sorted_indices candidates) ≡ true) gs
unfolding sorted_indices
cover-All candidates [] bound h = tt
cover-All candidates (g ∷ gs) bound h = (
  λ _. mem_number-sort_by g.index _ (mem_number-distinct g.index _ h.0),
  cover-All candidates gs bound h.1,
)

mem_number_weaken :
    (m : ℕ) (ns : List ℕ) (gs : List Group)
    → All (λ g. mem_number g.index ns ≡ true) gs
    → All (λ g. mem_number g.index (m ∷ ns) ≡ true) gs
unfolding mem_number
mem_number_weaken m ns [] h = tt
mem_number_weaken m ns (g ∷ gs) h = (ground (arith, h.0), mem_number_weaken m ns gs h.1)

index_mem : (gs : List Group) → All (λ g. mem_number g.index (map (λ h. h.index) gs) ≡ true) gs
unfolding mem_number
index_mem [] = tt
index_mem (g ∷ gs) =
    (ground arith, mem_number_weaken g.index (map (λ h. h.index) gs) gs (index_mem gs))

optimal_subset_search :
    (g : Group) (gs : List Group) (r : ℕ)
    → optimal_subset (g ∷ gs) (suc r) ≡ latest_first (g ∷ gs) (suc r) (sorted_indices (g ∷ gs))
unfolding optimal_subset
optimal_subset_search g gs r = ground arith

-- When the candidates at or after an index can save what is required, which is positive, a subset
-- is found that saves it and has no group before that index.
pub optimal_subset_latest :
    (candidates : List Group) (required bound : ℕ)
    → 0 < required
    → required ≤ total_savings (keep (λ g. leb bound g.index) candidates)
    → (s : List Group) × (optimal_subset candidates required ≡ some s)
      × (required ≤ total_savings s)
      × All (λ g. bound ≤ g.index) s
optimal_subset_latest candidates zero bound h k = elim h [ ]
optimal_subset_latest [] (suc r) bound h k = absurd (omega (arith, available_none [] bound tt))
optimal_subset_latest (g ∷ gs) (suc r) bound h k =
    let asc = sorted_indices-IsAscending (g ∷ gs) in
    let cover = cover-All (g ∷ gs) (g ∷ gs) bound (index_mem (g ∷ gs)) in
    let (s, found, after) =
      latest_first_complete (g ∷ gs) (suc r) bound (sorted_indices (g ∷ gs)) h k asc cover in
    (
      s,
      optimal_subset_search g gs r ∙ found,
      latest_first-reaches (g ∷ gs) (suc r) (sorted_indices (g ∷ gs)) s found,
      after,
    )

-- Whatever is found reaches the required savings.
pub optimal_subset-reaches :
    (candidates : List Group) (required : ℕ) (s : List Group)
    → optimal_subset candidates required ≡ some s
    → required ≤ total_savings s
optimal_subset-reaches candidates zero s h = omega arith
optimal_subset-reaches [] (suc r) s h = absurd (unfold optimal_subset in ground arith)
optimal_subset-reaches (g ∷ gs) (suc r) s h =
    latest_first-reaches (g ∷ gs) (suc r) (sorted_indices (g ∷ gs)) s
      (rw (optimal_subset_search g gs r) at h)

-- It is made of candidates.
pub optimal_subset-All {κ} :
    (P : Group → Type κ) (candidates : List Group) (required : ℕ) (s : List Group)
    → optimal_subset candidates required ≡ some s
    → All P candidates
    → All P s
optimal_subset-All P candidates zero [] h ps = tt
optimal_subset-All P candidates zero (g ∷ gs) h ps = absurd (unfold optimal_subset in ground arith)
optimal_subset-All P [] (suc r) s h ps = absurd (unfold optimal_subset in ground arith)
optimal_subset-All P (g ∷ gs) (suc r) s h ps =
    latest_first-All (g ∷ gs) (suc r) P (sorted_indices (g ∷ gs)) s
      (rw (optimal_subset_search g gs r) at h) ps
