-- ===== src/Pruning/Groups/Partition.antt =====
-- structured_pruning_groups.py: the members of the groups that `build_groups` makes.
use mathlib.Core.List.Permᴰ
use mathlib.Core.List.{Permᴰ, append_assoc}
use tokenjuice_hermes.Common.{
  Text, text_eq, ℕ, ◌≡◌, refl, sym, ap, ◌∙◌, subst, Bool, false, not, Option, none, some, List, [],
  ◌∷◌, ◌++◌, map, get, put, ℤ, keep, sort_by, flatten, Permᴰ-append, sort_by-Permᴰ, flatten-Permᴰ,
  keep-Permᴰ, Bool-cases, Option-cases, inl, inr, arith,
}
use tokenjuice_hermes.Pruning.Groups.{
  Members, add_member, atomic_members, has_no_group, index_le, member_lists, group_index_le,
  unprotected_groups, build_group, build_groups, protect_recent,
}
use tokenjuice_hermes.Pruning.Rescue.{members_of}
use tokenjuice_hermes.Pruning.Types.{PruningConfig, ContributionInternal, Group}

abbrev values : Members → List (List ContributionInternal)
values = map (λ m. m.1)

-- One more member of a group is one more contribution in the dictionary.
put_absent :
    (k : Text) (c : ContributionInternal) (d : Members)
    → get k d ≡ none
    → Permᴰ (flatten (values (put k (c ∷ []) d))) (c ∷ flatten (values d))
unfolding put get
put_absent k c [] h = Permᴰ.refl (c ∷ [])
put_absent k c ((j, cs) ∷ d) h = elim (Bool-cases (text_eq j k)) [
  | inl e ↦ absurd (ground arith)
  | inr e ↦ rw e (
      Permᴰ.trans (Permᴰ.append_left cs (put_absent k c d (ground arith)))
        (Permᴰ.middle c cs (flatten (values d))))
]

put_present :
    (k : Text) (c : ContributionInternal) (d : Members) (cs : List ContributionInternal)
    → get k d ≡ some cs
    → Permᴰ (flatten (values (put k (cs ++ c ∷ []) d))) (c ∷ flatten (values d))
unfolding put get
put_present k c [] cs h = absurd (ground arith)
put_present k c ((j, ds) ∷ d) cs h = elim (Bool-cases (text_eq j k)) [
  | inl e ↦
      let same : cs ≡ ds = ground arith in
      rw (e, same)
        (subst (λ l. Permᴰ l (c ∷ (ds ++ flatten (values d))))
          (sym (append_assoc ds (c ∷ []) (flatten (values d))))
          (Permᴰ.middle c ds (flatten (values d))))
  | inr e ↦ rw e (
      Permᴰ.trans (Permᴰ.append_left ds (put_present k c d cs (ground arith)))
        (Permᴰ.middle c ds (flatten (values d))))
]

add_member-Permᴰ :
    (k : Text) (c : ContributionInternal) (d : Members)
    → Permᴰ (flatten (values (add_member k c d))) (c ∷ flatten (values d))
unfolding add_member
add_member-Permᴰ k c d = elim (Option-cases (get k d)) [
  | inl e ↦ rw (e, add_member) (put_absent k c d e)
  | inr (cs, e) ↦ rw (e, add_member) (put_present k c d cs e)
]

abbrev is_grouped : ContributionInternal → Bool
is_grouped c = not (has_no_group c)

atomic_members-Permᴰ :
    (d : Members) (cs : List ContributionInternal)
    → Permᴰ (flatten (values (atomic_members d cs))) (flatten (values d) ++ keep is_grouped cs)
unfolding atomic_members keep
atomic_members-Permᴰ d [] = Permᴰ.symm (Permᴰ.append-nil (flatten (values d)))
atomic_members-Permᴰ d (c ∷ cs) = elim (Option-cases c.atomic_group_id) [
  | inl e ↦
      let kept : keep is_grouped (c ∷ cs) ≡ keep is_grouped cs = ground arith in
      simp e (
        subst (λ l. Permᴰ (flatten (values (atomic_members d cs))) (flatten (values d) ++ l))
          (sym kept) (atomic_members-Permᴰ d cs))
  | inr (k, e) ↦
      let kept : keep is_grouped (c ∷ cs) ≡ c ∷ keep is_grouped cs = ground arith in
      simp e (
        subst
          (λ l.
            Permᴰ (flatten (values (atomic_members (add_member k c d) cs)))
              (flatten (values d) ++ l))
          (sym kept)
          (Permᴰ.trans (atomic_members-Permᴰ (add_member k c d) cs) (
            Permᴰ.trans (Permᴰ.append_right (keep is_grouped cs) (add_member-Permᴰ k c d))
              (Permᴰ.symm (Permᴰ.middle c (flatten (values d)) (keep is_grouped cs))))))
]

singles_flat : (cs : List ContributionInternal) → flatten (map (λ c. c ∷ []) cs) ≡ cs
singles_flat [] = refl
singles_flat (c ∷ cs) = ap (◌∷◌ c) (singles_flat cs)

-- Sorting the members of each group only reorders.
sorted_flat :
    (d : Members) → Permᴰ (flatten (map (λ m. sort_by index_le m.1) d)) (flatten (values d))
sorted_flat [] = Permᴰ.nil
sorted_flat (m ∷ d) = Permᴰ-append (sort_by-Permᴰ index_le m.1) (sorted_flat d)

flatten-append :
    (xss yss : List (List ContributionInternal)) → flatten (xss ++ yss) ≡ flatten xss ++ flatten yss
flatten-append [] yss = refl
flatten-append (xs ∷ xss) yss =
    ap (◌++◌ xs) (flatten-append xss yss) ∙ sym (append_assoc xs (flatten xss) (flatten yss))

member_lists-Permᴰ : (cs : List ContributionInternal) → Permᴰ (flatten (member_lists cs)) cs
unfolding member_lists
member_lists-Permᴰ cs =
    rw (flatten-append, singles_flat)
      (Permᴰ.trans
        (Permᴰ.append_left (keep has_no_group cs)
          (Permᴰ.trans (sorted_flat (atomic_members [] cs)) (atomic_members-Permᴰ [] cs)))
        (keep-Permᴰ has_no_group cs))

-- The members of the groups, once the groups are sorted or built again.
abbrev pub lists_of : List Group → List (List ContributionInternal)
lists_of = map (λ g. g.contributions)

members_of-flatten : (gs : List Group) → members_of gs ≡ flatten (lists_of gs)
unfolding members_of
members_of-flatten [] = refl
members_of-flatten (g ∷ gs) = ap (◌++◌ g.contributions) (members_of-flatten gs)

pub lists_of-build_group :
    (lists : List (List ContributionInternal)) (config : PruningConfig) (now_ms : Option ℤ)
    → lists_of (map (λ ms. build_group ms config now_ms false false) lists) ≡ lists
unfolding build_group
lists_of-build_group [] config now_ms = refl
lists_of-build_group (ms ∷ lists) config now_ms =
    ap (◌∷◌ ms) (lists_of-build_group lists config now_ms)

lists_of-protect_recent :
    (gs : List Group) (config : PruningConfig) (now_ms : Option ℤ) (messages tools : List ℕ)
    → lists_of (map (protect_recent config now_ms messages tools) gs) ≡ lists_of gs
unfolding protect_recent
lists_of-protect_recent [] config now_ms messages tools = refl
lists_of-protect_recent (g ∷ gs) config now_ms messages tools =
    ap (◌∷◌ g.contributions) (lists_of-protect_recent gs config now_ms messages tools)

-- The lists of members of the groups are those that were gathered, in another order.
pub lists_of-build_groups :
    (parsed : List ContributionInternal) (config : PruningConfig) (now_ms : Option ℤ)
    → Permᴰ (lists_of (build_groups parsed config now_ms)) (member_lists parsed)
unfolding build_groups unprotected_groups
lists_of-build_groups parsed config now_ms =
    let made = map (λ ms. build_group ms config now_ms false false) (member_lists parsed) in
    rw lists_of-protect_recent (
      subst (λ l. Permᴰ (lists_of (sort_by group_index_le made)) l)
        (lists_of-build_group (member_lists parsed) config now_ms)
        (Permᴰ.map (λ g. g.contributions) (sort_by-Permᴰ group_index_le made)))

-- The groups hold each parsed contribution exactly once.
pub build_groups-Permᴰ :
    (parsed : List ContributionInternal) (config : PruningConfig) (now_ms : Option ℤ)
    → Permᴰ (members_of (build_groups parsed config now_ms)) parsed
build_groups-Permᴰ parsed config now_ms = rw members_of-flatten (
    Permᴰ.trans (flatten-Permᴰ (lists_of-build_groups parsed config now_ms))
      (member_lists-Permᴰ parsed))
