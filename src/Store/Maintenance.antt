-- ===== src/Store/Maintenance.antt =====
-- rescue_sqlite_maintenance.py: the sweep by age and size, the statistics and the reconciliation with
-- the files. Each is one transaction.
use tokenjuice_hermes.Common.{
  Text, codes, ℕ, ◌+◌, ◌-◌, ◌*◌, Bool, false, ◌&&◌, not, none, some, List, [], ◌∷◌, ◌++◌, map, Dict,
  has_key, remove, length, ltb, leb, if◌then◌else◌, keep, sum_by, sort_by,
}
use tokenjuice_hermes.Store.Handles.{Bytes, Runtime}
use tokenjuice_hermes.Store.Tables.{
  BlobRow, OwnershipRow, Database, tombstone, is_live, is_live_row, has_live_row, blob_matches,
}

-- `state='tombstone', swept_at=now, reason=…`
abbrev pub swept : ℕ → Text → OwnershipRow → OwnershipRow
swept now reason row = record row { state = tombstone; swept_at = some now; reason = some reason }

-- `WHERE state='live' AND ? - created_at > ?`
abbrev pub is_expired : ℕ → ℕ → OwnershipRow → Bool
is_expired now ttl row = is_live row.state && ltb ttl (now - row.created_at)

-- `WHERE state='tombstone' AND swept_at IS NOT NULL AND ? - swept_at > ?`
abbrev pub is_forgotten : ℕ → ℕ → OwnershipRow → Bool
is_forgotten now tomb_ttl row =
    not (is_live row.state) && elim row.swept_at [ none ↦ false | some t ↦ ltb tomb_ttl (now - t) ]

unfoldable pub expire_rows : ℕ → ℕ → List OwnershipRow → List OwnershipRow
expire_rows now ttl rows =
    map (λ row. if is_expired now ttl row then swept now (codes "ttl") row else row) rows

unfoldable pub forget_rows : ℕ → ℕ → List OwnershipRow → List OwnershipRow
unfolding keep
forget_rows now tomb_ttl rows = keep (λ row. not (is_forgotten now tomb_ttl row)) rows

-- `UPDATE ownership SET state='tombstone', … WHERE handle=? AND state='live'`
unfoldable pub sweep_handle : ℕ → Text → Text → List OwnershipRow → List OwnershipRow
unfolding is_live_row
sweep_handle now reason handle rows =
    map (λ row. if is_live_row handle row then swept now reason row else row) rows

abbrev pub older : Text × BlobRow → Text × BlobRow → Bool
older (h, b) (k, c) = leb b.created_at c.created_at

-- The sizes of the blobs whose file is there.
unfoldable pub stored_size : Dict Bytes → List (Text × BlobRow) → ℕ
unfolding sum_by has_key
stored_size files rows = sum_by (λ e. if has_key e.0 files then e.1.size else 0) rows

-- The loop over the blobs, the oldest first, until the total is within the limit.
unfoldable pub sweep_by_size :
    ℕ → ℕ → ℕ → List (Text × BlobRow) → List OwnershipRow → List OwnershipRow
unfolding sweep_handle
sweep_by_size now max_bytes total [] rows = rows
sweep_by_size now max_bytes total ((handle, blob) ∷ blobs) rows =
    let rest =
      sweep_by_size now max_bytes (total - blob.size) blobs
        (sweep_handle now (codes "size") handle rows) in
    if leb total max_bytes then rows else rest

-- The loop that unlinks the files of blobs with no live row.
unfoldable pub unlink_dead : List (Text × BlobRow) → List OwnershipRow → Dict Bytes → Dict Bytes
unfolding has_live_row remove
unlink_dead [] rows files = files
unlink_dead ((handle, blob) ∷ blobs) rows files =
    unlink_dead blobs rows (if has_live_row handle rows then files else remove handle files)

-- The ownership rows after the three updates of `sweep`.
unfoldable pub swept_rows : ℕ → ℕ → ℕ → ℕ → Database → List OwnershipRow
unfolding expire_rows forget_rows sort_by stored_size sweep_by_size
swept_rows now ttl tomb_ttl max_mb db =
    let blobs = sort_by older db.blobs in
    sweep_by_size now (max_mb * 1024 * 1024) (stored_size db.files blobs) blobs
      (forget_rows now tomb_ttl (expire_rows now ttl db.ownership))

unfoldable pub sweep : ℕ → ℕ → ℕ → ℕ → Database → Database
unfolding swept_rows unlink_dead
sweep now ttl tomb_ttl max_mb db =
    let rows = swept_rows now ttl tomb_ttl max_mb db in
    record db { ownership = rows; files = unlink_dead db.blobs rows db.files }

pub record StoreStats : Type 0 where
  pub live_count : ℕ
  pub tombstone_count : ℕ

unfoldable pub stats : Database → StoreStats
unfolding keep
stats db = record {
  live_count = length (keep (λ row. is_live row.state) db.ownership);
  tombstone_count = length (keep (λ row. not (is_live row.state)) db.ownership);
}

pub record ReconcileStats : Type 0 where
  pub missing_live_tombstoned : ℕ
  pub integrity_tombstoned : ℕ
  pub orphan_blobs_quarantined : ℕ

module _ (runtime : Runtime) where
  -- One round of the first loop of `reconcile`: the rows, and what is added to the two counts.
  unfoldable pub reconcile_blob :
      ℕ → Dict Bytes → Text × BlobRow → List OwnershipRow → List OwnershipRow × ℕ × ℕ
  unfolding has_live_row has_key blob_matches sweep_handle
  reconcile_blob now files (handle, blob) rows =
      if not (has_live_row handle rows)
      then (rows, 0, 0)
      else if not (has_key handle files)
      then (sweep_handle now (codes "missing_blob") handle rows, 1, 0)
      else if blob_matches runtime files handle blob.full_hash blob.size
      then (rows, 0, 0)
      else (sweep_handle now (codes "integrity_mismatch") handle rows, 0, 1)

  unfoldable pub reconcile_blobs :
      ℕ → Dict Bytes → List (Text × BlobRow) → List OwnershipRow → List OwnershipRow × ℕ × ℕ
  unfolding reconcile_blob
  reconcile_blobs now files [] rows = (rows, 0, 0)
  reconcile_blobs now files (b ∷ blobs) rows =
      let (rows', missing, mismatch) = reconcile_blob now files b rows in
      let (rows'', missings, mismatches) = reconcile_blobs now files blobs rows' in
      (rows'', missing + missings, mismatch + mismatches)

  -- Files that no blob row names are moved out of the directory, under another name.
  abbrev is_known : Database → Text × Bytes → Bool
  is_known db (name, raw) = has_key name db.blobs

  abbrev orphan_name : Text × Bytes → Text × Bytes
  orphan_name (name, raw) = (codes "orphan-" ++ name, raw)

  unfoldable pub reconcile : ℕ → Database → ReconcileStats × Database
  unfolding reconcile_blobs has_key keep
  reconcile now db =
      let (rows, missing, mismatch) = reconcile_blobs now db.files db.blobs db.ownership in
      let stray = keep (λ f. not (is_known db f)) db.files in
      (
        record {
          missing_live_tombstoned = missing;
          integrity_tombstoned = mismatch;
          orphan_blobs_quarantined = length stray;
        },
        record db {
          ownership = rows;
          files = keep (is_known db) db.files;
          orphans = map orphan_name stray ++ db.orphans;
        },
      )
