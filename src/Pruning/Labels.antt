-- ===== src/Pruning/Labels.antt =====
-- structured_pruning_groups.py: the fields of a contribution and what counts as a valid one.
use tokenjuice_hermes.Common.Options.{◌>>=◌}
use tokenjuice_hermes.Common.{Text, codes, ℕ, Option, none, some, [], pos, get}
use tokenjuice_hermes.Json.{JsonValue, scalar, null, int, str, str?, get_value}
use tokenjuice_hermes.Pruning.Types.{Contribution, ContributionInternal}

-- `_parse_int(value, min_value=0)`
abbrev pub parse_int : JsonValue → Option ℕ
parse_int (scalar (int (pos n))) = some n
parse_int _ = none

-- The age: absent or `None`, a number that is not negative, or no valid age.
abbrev pub parse_age : JsonValue → Option (Option ℕ)
parse_age (scalar null) = some none
parse_age (scalar (int (pos n))) = some (some n)
parse_age _ = none

-- The eight fields that `_parse_contribution` reads first, as values and then as texts.
pub record Labels (A : Type 0) : Type 0 where
  pub id : A
  pub kind : A
  pub provenance : A
  pub class_ : A
  pub stability : A
  pub content_hash : A
  pub cache_scope : A
  pub prune_policy : A

-- `none` if one of the eight is no `str`
unfoldable pub text_labels : Labels JsonValue → Option (Labels Text)
text_labels v = do
  id ← str? v.id
  kind ← str? v.kind
  provenance ← str? v.provenance
  class_ ← str? v.class_
  stability ← str? v.stability
  content_hash ← str? v.content_hash
  cache_scope ← str? v.cache_scope
  prune_policy ← str? v.prune_policy
  some (record {
    id = id;
    kind = kind;
    provenance = provenance;
    class_ = class_;
    stability = stability;
    content_hash = content_hash;
    cache_scope = cache_scope;
    prune_policy = prune_policy;
  })

-- `raw.get("protected_reason", "")`
protected_reason : Contribution → JsonValue
protected_reason raw = elim (get (codes "protected_reason") raw) [
  | none ↦ scalar (str [])
  | some v ↦ v
]

-- The contribution, if the counts and the age are valid too.
unfoldable pub from_counts :
    Contribution → ℕ → Labels Text → JsonValue → JsonValue → Option ContributionInternal
unfolding protected_reason
from_counts raw index t token_value char_value = do
  token_estimate ← parse_int token_value
  char_count ← parse_int char_value
  created_at_epoch_ms ← parse_age (get_value (codes "created_at_epoch_ms") raw)
  some (record {
    id = t.id;
    kind = t.kind;
    provenance = t.provenance;
    class_ = t.class_;
    stability = t.stability;
    content_hash = t.content_hash;
    cache_scope = t.cache_scope;
    token_estimate = token_estimate;
    char_count = char_count;
    atomic_group_id = str? (get_value (codes "atomic_group_id") raw);
    prune_policy = t.prune_policy;
    protected_reason = protected_reason raw;
    created_at_epoch_ms = created_at_epoch_ms;
    original_index = index;
    original = raw;
  })
