-- ===== src/Pruning/Groups.antt =====
-- structured_pruning_groups.py: the contributions gathered into atomic groups with their
-- protections.
pub mod Partition
pub mod Protection
use tokenjuice_hermes.Common.{
  Text, codes, text_eq, mem_text, ℕ, zero, suc, ◌+◌, ◌-◌, ◌/◌, min, max, Bool, true, false, not,
  ◌&&◌, ◌||◌, Option, none, some, List, [], ◌∷◌, ◌++◌, map, Dict, get, put, ℤ, pos, negsuc, ltb,
  leb, ◌==◌, if◌then◌else◌, take_last, any, all, keep, sum_by, sort_by,
}
use tokenjuice_hermes.Json.{JsonObject, int?, get_value}
use tokenjuice_hermes.Pruning.Types.{
  PruningConfig, ContributionInternal, Group, protected_classes, rescue_backed_classes,
  stable_stabilities, prefix_cache_scopes, soft_trim_policy, hard_clear_policy,
}

-- `[c.created_at_epoch_ms for c in contributions if c.created_at_epoch_ms is not None]`
unfoldable pub known_ages : List ContributionInternal → List ℕ
known_ages [] = []
known_ages (c ∷ cs) =
    let rest = known_ages cs in elim c.created_at_epoch_ms [ none ↦ rest | some t ↦ t ∷ rest ]

-- `max` and `min` of a list that is not empty
abbrev maximum : ℕ → List ℕ → ℕ
maximum n [] = n
maximum n (m ∷ ms) = max n (maximum m ms)

abbrev minimum : ℕ → List ℕ → ℕ
minimum n [] = n
minimum n (m ∷ ms) = min n (minimum m ms)

latest : List ℕ → Option ℤ
latest [] = none
latest (n ∷ ns) = some (pos (maximum n ns + 1000))

unfoldable pub resolve_now_ms : List ContributionInternal → JsonObject → Option ℤ
unfolding known_ages latest
resolve_now_ms contributions context = elim (int? (get_value (codes "now_epoch_ms") context)) [
  | some explicit ↦ some explicit
  | none ↦ latest (known_ages contributions)
]

-- `contribution.prune_policy in {SOFT_TRIM_POLICY, HARD_CLEAR_POLICY}`
abbrev pub is_prunable_policy : Text → Bool
is_prunable_policy policy = text_eq policy soft_trim_policy || text_eq policy hard_clear_policy

unfoldable pub is_disposable_member : ContributionInternal → Bool
is_disposable_member c =
    mem_text c.class_ rescue_backed_classes || is_prunable_policy c.prune_policy

oldest : List ℕ → Option ℕ
oldest [] = none
oldest (n ∷ ns) = some (minimum n ns)

unfoldable pub oldest_created_at : List ContributionInternal → Option ℕ
unfolding known_ages oldest
oldest_created_at contributions = oldest (known_ages contributions)

-- `max(0, (now_ms - created) // 1000)`
abbrev age_seconds : ℤ → ℕ → ℕ
age_seconds (pos now) created = (now - created) / 1000
age_seconds (negsuc now) created = 0

abbrev is_prune_candidate : ContributionInternal → PruningConfig → Bool
is_prune_candidate c config = mem_text c.class_ config.classes && is_prunable_policy c.prune_policy

abbrev is_cache_stable : ContributionInternal → Bool
is_cache_stable c =
    mem_text c.stability stable_stabilities && mem_text c.cache_scope prefix_cache_scopes

young : ContributionInternal → PruningConfig → Option ℤ → Option ℕ → Bool
young c config none created = false
young c config (some now) none = false
young c config (some now) (some created) =
    if is_prune_candidate c config || is_cache_stable c
    then ltb (age_seconds now created) config.cache_ttl_seconds
    else false

unfoldable pub is_ttl_protected : ContributionInternal → PruningConfig → Option ℤ → Bool
unfolding young
is_ttl_protected c config now_ms = young c config now_ms c.created_at_epoch_ms

-- `min(c.original_index for c in contributions)`; a group is never empty
unfoldable pub min_index : List ContributionInternal → ℕ
min_index [] = 0
min_index (c ∷ cs) = minimum c.original_index (map (λ d. d.original_index) cs)

-- `c.class_ in eligible_classes`
unfoldable pub is_eligible : PruningConfig → ContributionInternal → Bool
is_eligible config c = mem_text c.class_ config.classes || mem_text c.class_ rescue_backed_classes

unfoldable pub build_group :
    List ContributionInternal → PruningConfig → Option ℤ → Bool → Bool → Group
unfolding any all keep sum_by
build_group contributions config now_ms recent_message_protected recent_tool_protected =
    let disposable_members = keep (is_eligible config) contributions in
    let has_disposable = any is_disposable_member disposable_members in
    record {
      index = min_index contributions;
      savings = sum_by (λ c. c.token_estimate) contributions;
      contributions = contributions;
      has_disposable = has_disposable;
      soft_allowed =
          has_disposable && all (λ c. text_eq c.prune_policy soft_trim_policy) disposable_members;
      hard_allowed = has_disposable && all is_disposable_member disposable_members;
      class_protected = any (λ c. mem_text c.class_ protected_classes) contributions;
      ttl_protected = any (λ c. is_ttl_protected c config now_ms) contributions;
      recent_message_protected = recent_message_protected;
      recent_tool_protected = recent_tool_protected;
      oldest_created_at_ms = oldest_created_at contributions;
    }

-- `n in numbers`
unfoldable pub mem_number : ℕ → List ℕ → Bool
mem_number n [] = false
mem_number n (m ∷ ms) = n == m || mem_number n ms

unfoldable pub recent_message_indices : List ContributionInternal → ℕ → List ℕ
unfolding keep
recent_message_indices contributions count =
    if count == 0
    then []
    else take_last count
        (map (λ c. c.original_index) (keep (λ c. text_eq c.kind (codes "message")) contributions))

-- `any(c.kind == "tool_interaction" for c in group.contributions)`
unfoldable pub is_tool_group : Group → Bool
unfolding any
is_tool_group group = any (λ c. text_eq c.kind (codes "tool_interaction")) group.contributions

unfoldable pub recent_tool_group_indices : List Group → ℕ → List ℕ
unfolding keep
recent_tool_group_indices groups count =
    if count == 0 then [] else take_last count (map (λ g. g.index) (keep is_tool_group groups))

-- The first loop of `build_groups`: the contributions of no group, and the members of each group in
-- the order in which the groups are met.
abbrev pub Members : Type 0
Members = Dict (List ContributionInternal)

-- `atomic_members.setdefault(key, []).append(c)`
unfoldable pub add_member : Text → ContributionInternal → Members → Members
unfolding get put
add_member key c members = elim (get key members) [
  | none ↦ put key (c ∷ []) members
  | some cs ↦ put key (cs ++ c ∷ []) members
]

unfoldable pub atomic_members : Members → List ContributionInternal → Members
unfolding add_member
atomic_members members [] = members
atomic_members members (c ∷ cs) =
    atomic_members (elim c.atomic_group_id [ none ↦ members | some key ↦ add_member key c members ])
      cs

abbrev pub has_no_group : ContributionInternal → Bool
has_no_group c = elim c.atomic_group_id [ none ↦ true | some key ↦ false ]

abbrev index_le : ContributionInternal → ContributionInternal → Bool
index_le c d = leb c.original_index d.original_index

-- The contributions of each group, in the order in which the groups are first built.
unfoldable pub member_lists : List ContributionInternal → List (List ContributionInternal)
unfolding atomic_members keep sort_by
member_lists contributions =
    map (λ c. c ∷ []) (keep has_no_group contributions)
    ++ map (λ m. sort_by index_le m.1) (atomic_members [] contributions)

abbrev group_index_le : Group → Group → Bool
group_index_le g h = leb g.index h.index

-- The groups, sorted by index, before their recent members are looked at.
unfoldable pub unprotected_groups :
    List ContributionInternal → PruningConfig → Option ℤ → List Group
unfolding member_lists build_group sort_by
unprotected_groups contributions config now_ms =
    sort_by group_index_le
      (map (λ members. build_group members config now_ms false false) (member_lists contributions))

-- One group of the result, with the marks of the recent messages and tool interactions.
unfoldable pub protect_recent : PruningConfig → Option ℤ → List ℕ → List ℕ → Group → Group
unfolding build_group any mem_number
protect_recent config now_ms protected_messages protected_tools g =
    build_group g.contributions config now_ms
      (any (λ c. mem_number c.original_index protected_messages) g.contributions)
      (mem_number g.index protected_tools)

unfoldable pub build_groups : List ContributionInternal → PruningConfig → Option ℤ → List Group
unfolding unprotected_groups recent_message_indices recent_tool_group_indices protect_recent
build_groups contributions config now_ms =
    let groups = unprotected_groups contributions config now_ms in
    map
      (protect_recent config now_ms
        (recent_message_indices contributions config.protect_recent_messages)
        (recent_tool_group_indices groups config.protect_recent_tool_interactions))
      groups
