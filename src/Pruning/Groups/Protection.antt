-- ===== src/Pruning/Groups/Protection.antt =====
-- structured_pruning_groups.py: the marks of a group and its members, and what may be selected.
use mathlib.Core.List.{Memᴰ}
use tokenjuice_hermes.Common.{
  Text, text_eq, text_eq_iff, mem_text, ℕ, ◌≡◌, refl, sym, ap, ◌∙◌, subst, Bool, true, false, ◌||◌,
  Option, List, [], ◌∷◌, ◌++◌, map, ℤ, any, All, All-Memᴰ, All-append, Bool-cases, inl, inr, arith,
}
use tokenjuice_hermes.Pruning.Groups.{
  mem_number, build_group, protect_recent, build_groups, recent_message_indices,
  recent_tool_group_indices, unprotected_groups,
}
use tokenjuice_hermes.Pruning.Rescue.Counts.{is_selected}
use tokenjuice_hermes.Pruning.Rescue.{members_of}
use tokenjuice_hermes.Pruning.Types.{PruningConfig, ContributionInternal, Group, protected_classes}

-- The contribution is of a protected class, or one of the recent messages.
unfoldable pub is_protected :
    List ContributionInternal → PruningConfig → ContributionInternal → Bool
unfolding mem_text mem_number recent_message_indices
is_protected parsed config c =
    mem_text c.class_ protected_classes
    || mem_number c.original_index (recent_message_indices parsed config.protect_recent_messages)

-- No two contributions have one id.
abbrev pub HasDistinctIds : List ContributionInternal → Type 0
HasDistinctIds [] = Unit
HasDistinctIds (c ∷ cs) = All (λ d. text_eq c.id d.id ≡ false) cs × HasDistinctIds cs

none_of-any :
    (p q : ContributionInternal → Bool) (cs : List ContributionInternal)
    → any p cs ≡ false
    → any q cs ≡ false
    → All (λ c. (p c || q c) ≡ false) cs
unfolding any
none_of-any p q [] h k = tt
none_of-any p q (c ∷ cs) h k = (ground arith, none_of-any p q cs (ground arith) (ground arith))

-- A group without the two marks has no protected member.
abbrev pub IsUnprotected : List ContributionInternal → PruningConfig → Group → Type 0
IsUnprotected parsed config g =
    g.class_protected ≡ false
    → g.recent_message_protected ≡ false
    → All (λ c. is_protected parsed config c ≡ false) g.contributions

protect_recent-IsUnprotected :
    (parsed : List ContributionInternal) (config : PruningConfig) (now_ms : Option ℤ)
    (tools : List ℕ) (g : Group)
    → IsUnprotected parsed config (
        protect_recent config now_ms
          (recent_message_indices parsed config.protect_recent_messages)
          tools
          g)
unfolding protect_recent build_group is_protected
protect_recent-IsUnprotected parsed config now_ms tools g h k =
    none_of-any (λ c. mem_text c.class_ protected_classes)
      (λ c.
        mem_number c.original_index (recent_message_indices parsed config.protect_recent_messages))
      g.contributions h k

All-map_each :
    (P : Group → Type 0) (f : Group → Group) (gs : List Group)
    → ((g : Group) → P (f g))
    → All P (map f gs)
All-map_each P f [] h = tt
All-map_each P f (g ∷ gs) h = (h g, All-map_each P f gs h)

pub build_groups-IsUnprotected :
    (parsed : List ContributionInternal) (config : PruningConfig) (now_ms : Option ℤ)
    → All (IsUnprotected parsed config) (build_groups parsed config now_ms)
unfolding build_groups
build_groups-IsUnprotected parsed config now_ms = All-map_each (IsUnprotected parsed config) _ _ (
    protect_recent-IsUnprotected parsed config now_ms (
      recent_tool_group_indices (unprotected_groups parsed config now_ms)
        config.protect_recent_tool_interactions))

-- What holds of every member of every group, and back.
pub All-members_of :
    (P : ContributionInternal → Type 0) (gs : List Group)
    → All (λ g. All P g.contributions) gs
    → All P (members_of gs)
unfolding members_of
All-members_of P [] h = tt
All-members_of P (g ∷ gs) h =
    All-append P g.contributions (members_of gs) h.0 (All-members_of P gs h.1)

split_append :
    (P : ContributionInternal → Type 0) (xs ys : List ContributionInternal)
    → All P (xs ++ ys)
    → All P xs × All P ys
split_append P [] ys h = (tt, h)
split_append P (x ∷ xs) ys h = let (a, b) = split_append P xs ys h.1 in ((h.0, a), b)

pub All-contributions :
    (P : ContributionInternal → Type 0) (gs : List Group)
    → All P (members_of gs)
    → All (λ g. All P g.contributions) gs
unfolding members_of
All-contributions P [] h = tt
All-contributions P (g ∷ gs) h =
    let (a, b) = split_append P g.contributions (members_of gs) h in (a, All-contributions P gs b)

-- A selected id is that of a member.
member_of-mem_text :
    (k : Text) (cs : List ContributionInternal)
    → mem_text k (map (λ m. m.id) cs) ≡ true
    → (m : ContributionInternal) × Memᴰ m cs × (k ≡ m.id)
unfolding mem_text
member_of-mem_text k [] h = absurd (ground arith)
member_of-mem_text k (c ∷ cs) h = elim (Bool-cases (text_eq k c.id)) [
  | inl e ↦ (c, Memᴰ.head refl, (text_eq_iff k c.id).0 e)
  | inr e ↦ let (m, mem, same) = member_of-mem_text k cs (ground arith) in (m, Memᴰ.tail mem, same)
]

ids_apart : (x d : ContributionInternal) → text_eq x.id d.id ≡ false → x.id ≡ d.id → ⊥
ids_apart x d f e = let t = (text_eq_iff x.id d.id).1 e in cc

-- With distinct ids, contributions with one id are one.
eq_of-id :
    (cs : List ContributionInternal) (c d : ContributionInternal)
    → HasDistinctIds cs
    → Memᴰ c cs
    → Memᴰ d cs
    → c.id ≡ d.id
    → c ≡ d
eq_of-id [] c d distinct m n e = elim m [ ]
eq_of-id (x ∷ cs) c d distinct (Memᴰ.head p) (Memᴰ.head q) e = p ∙ sym q
eq_of-id (x ∷ cs) c d distinct (Memᴰ.head p) (Memᴰ.tail n) e = absurd (
    ids_apart x d (All-Memᴰ (λ y. text_eq x.id y.id ≡ false) cs distinct.0 n)
      (ap (λ (y : ContributionInternal). y.id) (sym p) ∙ e))
eq_of-id (x ∷ cs) c d distinct (Memᴰ.tail m) (Memᴰ.head q) e = absurd (
    ids_apart x c (All-Memᴰ (λ y. text_eq x.id y.id ≡ false) cs distinct.0 m)
      (ap (λ (y : ContributionInternal). y.id) (sym q) ∙ sym e))
eq_of-id (x ∷ cs) c d distinct (Memᴰ.tail m) (Memᴰ.tail n) e = eq_of-id cs c d distinct.1 m n e

-- A protected contribution is not selected with groups whose members are parsed and unprotected.
pub protected_not-is_selected :
    (parsed : List ContributionInternal) (config : PruningConfig) (gs : List Group)
    → HasDistinctIds parsed
    → All (λ m. (is_protected parsed config m ≡ false) × Memᴰ m parsed) (members_of gs)
    → (c : ContributionInternal) → Memᴰ c parsed
    → is_protected parsed config c ≡ true
    → is_selected gs c ≡ false
protected_not-is_selected parsed config gs distinct members c mem h =
    elim (Bool-cases (is_selected gs c)) [
      | inr e ↦ e
      | inl e ↦
          let (m, there, same) =
            member_of-mem_text c.id (members_of gs) (unfold is_selected in e) in
          let (free, parsed_too) =
            All-Memᴰ (λ m. (is_protected parsed config m ≡ false) × Memᴰ m parsed) (members_of gs)
              members there in
          let one : c ≡ m = eq_of-id parsed c m distinct mem parsed_too same in
          let taken : is_protected parsed config c ≡ false =
            subst (λ x. is_protected parsed config x ≡ false) (sym one) free in
          cc
    ]
