-- ===== src/Observability/Status.antt =====
-- observability.py: the statistics of the store and the status tool. Where there is an index, reading its
-- statistics opens it, with the migration that this runs. The path of the store is resolved.
use tokenjuice_hermes.Common.{
  Text, codes, text_eq, contains_text, ℕ, ◌+◌, Bool, true, false, Option, none, some, [], ◌∷◌,
  Outcome, ok, raise, type_error, attribute_error, Dict, get, has_key, any, length, keep, sum_by,
  pos, if◌then◌else◌,
}
use tokenjuice_hermes.Json.{
  JsonValue, JsonObject, scalar, array, object, bool, int, str, entries, elements, fields_of,
}
use tokenjuice_hermes.Observability.{Counters}
use tokenjuice_hermes.Store.Handles.{Bytes, Runtime, is_valid_handle}
use tokenjuice_hermes.Store.Legacy.{
  LegacyRuntime, LegacyStore, index_files, read_idx_file, migrate_legacy_indexes,
}
use tokenjuice_hermes.Store.Maintenance.{stats}

abbrev pub version : Text
version = codes "0.1.0"

-- What is at the path: whether there is an index, the index, and the directories.
pub record StorePath : Type 0 where
  pub has_db : Bool
  pub store : LegacyStore

-- How many entries are live and how many are tombstones.
abbrev Counts : Type 0
Counts = ℕ × ℕ

abbrev is_key_text : JsonValue → Bool
is_key_text (scalar (str s)) = text_eq s (codes "swept_at")
is_key_text v = false

-- `"swept_at" in entry`
unfoldable pub is_swept_entry : JsonValue → Outcome Bool
unfolding contains_text any elements has_key entries
is_swept_entry (object fs) = ok (has_key (codes "swept_at") (entries fs))
is_swept_entry (array vs) = ok (any is_key_text (elements vs))
is_swept_entry (scalar (str s)) = ok (contains_text (codes "swept_at") s)
is_swept_entry (scalar v) = raise type_error

unfoldable pub count_entries : Counts → JsonObject → Outcome Counts
count_entries counts [] = ok counts
count_entries (live, tombstones) ((handle, entry) ∷ blobs) = elim (is_swept_entry entry) [
  | raise e ↦ raise e
  | ok true ↦ count_entries (live, tombstones + 1) blobs
  | ok false ↦ count_entries (live + 1, tombstones) blobs
]

-- The entries of one index, `idx.get("blobs", {}).values()`.
unfoldable pub count_index : Counts → JsonObject → Outcome Counts
unfolding get entries
count_index counts idx = elim (get (codes "blobs") idx) [
  | none ↦ ok counts
  | some (object fs) ↦ count_entries counts (entries fs)
  | some v ↦ raise attribute_error
]

-- `_sum_blob_sizes`
unfoldable pub sum_blob_sizes : Dict Bytes → ℕ × ℕ
unfolding keep sum_by
sum_blob_sizes files =
    let blobs = keep (λ file. is_valid_handle file.0) files in
    (length blobs, sum_by (λ file. length file.1) blobs)

abbrev pub store_stats_fields : Counts → ℕ × ℕ → JsonObject
store_stats_fields (live, tombstones) (files, bytes) =
    (codes "live_blob_count", scalar (int (pos live)))
    ∷ (codes "tombstone_count", scalar (int (pos tombstones)))
    ∷ (codes "total_blob_bytes", scalar (int (pos bytes)))
    ∷ (codes "blob_file_count", scalar (int (pos files)))
    ∷ []

-- `_empty_store_stats`
abbrev pub empty_store_stats : JsonObject
empty_store_stats = store_stats_fields (0, 0) (0, 0)

-- `dict(_COUNTERS.fetch_modes)`
abbrev pub mode_fields : Dict ℕ → JsonObject
mode_fields [] = []
mode_fields ((mode, n) ∷ modes) = (mode, scalar (int (pos n))) ∷ mode_fields modes

abbrev number : ℕ → JsonValue
number n = scalar (int (pos n))

-- The snapshot, with the statistics of the store in it.
unfoldable pub snapshot_of : Counters → JsonObject → JsonObject
unfolding fields_of
snapshot_of k store_stats =
    (codes "version", scalar (str version))
    ∷ (codes "passref_enabled", scalar (bool k.passref_enabled))
    ∷ (codes "compaction_count", number k.compaction_count)
    ∷ (codes "compaction_chars_saved", number k.compaction_chars_saved)
    ∷ (codes "rescue_count", number k.rescue_count)
    ∷ (codes "rescue_chars_saved", number k.rescue_chars_saved)
    ∷ (codes "fetch_count", number k.fetch_count)
    ∷ (codes "fetch_modes", object (fields_of (mode_fields k.fetch_modes)))
    ∷ (codes "passref_expansion_count", number k.passref_expansion_count)
    ∷ (codes "passref_denied_count", number k.passref_denied_count)
    ∷ (codes "passref_truncated_count", number k.passref_truncated_count)
    ∷ (codes "passref_budget_exceeded_count", number k.passref_budget_exceeded_count)
    ∷ (codes "passref_chars_expanded", number k.passref_chars_expanded)
    ∷ (codes "structured_pruning_attempted_count", number k.structured_pruning_attempted_count)
    ∷ (
      codes "structured_pruning_config_rejected_count",
      number k.structured_pruning_config_rejected_count,
    )
    ∷ (codes "structured_pruning_count", number k.structured_pruning_count)
    ∷ (codes "structured_pruning_rescued_count", number k.structured_pruning_rescued_count)
    ∷ (
      codes "structured_pruning_insufficient_eligible_savings",
      number k.structured_pruning_insufficient_eligible_savings,
    )
    ∷ (codes "structured_pruning_saved_tokens", number k.structured_pruning_saved_tokens)
    ∷ (codes "store", object (fields_of store_stats))
    ∷ []

module _ (runtime : Runtime) (legacy : LegacyRuntime) where
  -- The loop of `_count_index_entries` over the index files.
  unfoldable pub count_files : Counts → Dict Bytes → Outcome Counts
  count_files counts [] = ok counts
  count_files counts ((name, raw) ∷ files) = elim (read_idx_file runtime legacy raw) [
    | raise e ↦ raise e
    | ok idx ↦ elim (count_index counts idx) [
      | raise e ↦ raise e
      | ok counts' ↦ count_files counts' files
    ]
  ]

  -- What `store_stats` makes of an opened index.
  abbrev counts_of : Outcome {0} Unit × LegacyStore → Outcome Counts
  counts_of (raise e, st) = raise e
  counts_of (ok u, st) = ok ((stats st.db).live_count, (stats st.db).tombstone_count)

  -- `_count_index_entries`
  unfoldable pub count_index_entries : ℕ → StorePath → Outcome Counts × StorePath
  count_index_entries now p =
      let opened = migrate_legacy_indexes runtime legacy now p.store in
      if p.has_db
      then (counts_of opened, record p { store = opened.1 })
      else (count_files (0, 0) (index_files p.store.meta_files), p)

  -- `_compute_store_stats`
  unfoldable pub compute_store_stats : ℕ → StorePath → Outcome JsonObject × StorePath
  compute_store_stats now p =
      let counted = count_index_entries now p in
      elim counted.0 [
        | raise e ↦ (raise e, counted.1)
        | ok counts ↦
            (ok (store_stats_fields counts (sum_blob_sizes counted.1.store.db.files)), counted.1)
      ]

  -- `status_snapshot`, where `none` is an empty path
  unfoldable pub status_snapshot :
      Counters → ℕ → Option StorePath → Outcome JsonObject × Option StorePath
  status_snapshot k now none = (ok (snapshot_of k empty_store_stats), none)
  status_snapshot k now (some p) =
      let computed = compute_store_stats now p in
      elim computed.0 [
        | raise e ↦ (raise e, some computed.1)
        | ok store_stats ↦ (ok (snapshot_of k store_stats), some computed.1)
      ]

  -- What `tokenjuice_status` hands to `json.dumps`.
  unfoldable pub tokenjuice_status : Counters → ℕ → Option StorePath → JsonObject × Option StorePath
  tokenjuice_status k now path =
      let snapshot = status_snapshot k now path in
      elim snapshot.0 [
        | raise e ↦
            ((codes "error", scalar (str (codes "tokenjuice_status unavailable"))) ∷ [], snapshot.1)
        | ok value ↦ (value, snapshot.1)
      ]
