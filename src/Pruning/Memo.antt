-- ===== src/Pruning/Memo.antt =====
-- structured_pruning_memo.py: the results of recent calls, by the fingerprint of the request, the
-- least recently used one first. The fingerprint (a SHA-256 of a canonical JSON text, or `None` where
-- the request cannot be encoded) and the result type are parameters; copies of results are equal to
-- them, so `deepcopy` is not seen here.
pub mod Bounds
use tokenjuice_hermes.Common.{
  ℕ, zero, suc, ◌-◌, max, Bool, true, false, Option, none, some, List, [], ◌∷◌, ◌++◌, Text, text_eq,
  if◌then◌else◌, length, drop, Dict, get, put,
}

pub record StructuredPruningMemo (R : Type 0) : Type 0 where
  pub max_entries : ℕ
  pub results : Dict R

module _ {R : Type 0} where
  -- The entries but the one of the key.
  unfoldable pub without : Text → Dict R → Dict R
  without k [] = []
  without k ((j, r) ∷ d) = let rest = without k d in if text_eq j k then rest else (j, r) ∷ rest

  -- `self._results[key] = result; self._results.move_to_end(key)`
  unfoldable pub move_to_end : Text → R → Dict R → Dict R
  unfolding without
  move_to_end k r d = without k d ++ (k, r) ∷ []

  -- `while len(self._results) > max(1, self.max_entries): popitem(last=False)`
  unfoldable pub evict : ℕ → Dict R → Dict R
  evict limit d = drop (length d - limit) d

  -- What `reuse_or_compute` does with the result of `compute()`.
  unfoldable pub remember :
      Text → Option R → StructuredPruningMemo R → Option R × StructuredPruningMemo R
  unfolding move_to_end evict
  remember key none memo = (none, memo)
  remember key (some r) memo = (
    some r,
    record memo { results = evict (max 1 memo.max_entries) (move_to_end key r memo.results) },
  )

  -- `computed` is what `compute()` returns; it is called only where it is used.
  unfoldable pub reuse_or_compute :
      Option Text → Option R → StructuredPruningMemo R → Option R × StructuredPruningMemo R
  unfolding get move_to_end remember
  reuse_or_compute none computed memo = (computed, memo)
  reuse_or_compute (some key) computed memo = elim (get key memo.results) [
    | some cached ↦ (some cached, record memo { results = move_to_end key cached memo.results })
    | none ↦ remember key computed memo
  ]
