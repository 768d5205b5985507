-- ===== src/Store/Rows.antt =====
-- The rows of `ownership` under an upsert, an update and a deletion.
use tokenjuice_hermes.Common.{
  Text, text_eq_iff, ℕ, ◌≡◌, refl, Bool, true, not, some, List, [], ◌∷◌, map, All, All-keep,
  Bool-cases, inl, inr, arith, if◌then◌else◌, codes, subst, ap, sym, ◌∙◌, ◌-◌, ◌*◌, sort_by,
}
use tokenjuice_hermes.Store.Maintenance.{
  swept, is_expired, is_forgotten, expire_rows, forget_rows, sweep_handle, sweep_by_size,
  swept_rows, stored_size, older, reconcile_blob, reconcile_blobs,
}
use tokenjuice_hermes.Store.Handles.{Bytes, Runtime}
use tokenjuice_hermes.Common.{Dict, has_key, leb}
use tokenjuice_hermes.Store.Ownership.{BlobWrite, upsert, new_row, updated_row}
use tokenjuice_hermes.Store.Tables.{
  BlobRow, Database, OwnershipRow, live, is_row_of, is_live_row, find_row, has_live_row,
  blob_matches,
}

-- Keys are texts, so a test of them is an equation.
row_key :
    (k h : Text) (row : OwnershipRow)
    → is_row_of k h row ≡ true
    → (row.session_key ≡ k) × (row.handle ≡ h)
unfolding is_row_of
row_key k h row e = ground (arith, text_eq_iff row.session_key k, text_eq_iff row.handle h)

pub find_row-upsert_self :
    (blob : BlobWrite) (now : ℕ) (rows : List OwnershipRow)
    → (row : OwnershipRow) × (find_row blob.session_key blob.handle (upsert blob now rows)
        ≡ some row)
      × (row.state ≡ live)
unfolding find_row upsert
find_row-upsert_self blob now [] = (
  new_row blob now,
  ground
      (arith, text_eq_iff blob.session_key blob.session_key, text_eq_iff blob.handle blob.handle),
  refl,
)
find_row-upsert_self blob now (row ∷ rows) =
    elim (Bool-cases (is_row_of blob.session_key blob.handle row)) [
      | inl e ↦ (updated_row blob now row, ground (arith, e), refl)
      | inr e ↦
          let (r, found, is) = find_row-upsert_self blob now rows in
          (r, ground (arith, e, found), is)
    ]

module _ (P : OwnershipRow → Type 0) where
  -- What holds of the rows, of a new row and of an updated row holds after an upsert.
  pub All-upsert :
      (blob : BlobWrite) (now : ℕ) (rows : List OwnershipRow)
      → P (new_row blob now)
      → ((row : OwnershipRow)
          → P row
          → is_row_of blob.session_key blob.handle row ≡ true
          → P (updated_row blob now row))
      → All P rows
      → All P (upsert blob now rows)
  unfolding upsert
  All-upsert blob now [] new old ps = (new, tt)
  All-upsert blob now (row ∷ rows) new old ps =
      elim (Bool-cases (is_row_of blob.session_key blob.handle row)) [
        | inl e ↦ rw e (old row ps.0 e, ps.1)
        | inr e ↦ rw e (ps.0, All-upsert blob now rows new old ps.1)
      ]

  -- What holds of every row, and of every row once it is swept, holds after the updates.
  pub All-update :
      (test : OwnershipRow → Bool) (f : OwnershipRow → OwnershipRow)
      → ((row : OwnershipRow) → P row → P (f row))
      → (rows : List OwnershipRow) → All P rows
      → All P (map (λ row. if test row then f row else row) rows)
  All-update test f k [] ps = tt
  All-update test f k (row ∷ rows) ps = elim (Bool-cases (test row)) [
    | inl e ↦ rw e (k row ps.0, All-update test f k rows ps.1)
    | inr e ↦ rw e (ps.0, All-update test f k rows ps.1)
  ]

  pub All-forget_rows :
      (now tomb_ttl : ℕ) (rows : List OwnershipRow)
      → All P rows
      → All P (forget_rows now tomb_ttl rows)
  unfolding forget_rows
  All-forget_rows now tomb_ttl rows ps =
      All-keep P (λ row. not (is_forgotten now tomb_ttl row)) rows ps

  module _
      (kept : (now : ℕ) (reason : Text) (row : OwnershipRow)
        → P row
        → P (swept now reason row)) where
    pub All-expire_rows :
        (now ttl : ℕ) (rows : List OwnershipRow) → All P rows → All P (expire_rows now ttl rows)
    unfolding expire_rows
    All-expire_rows now ttl rows ps =
        All-update (is_expired now ttl) (swept now (codes "ttl")) (kept now (codes "ttl")) rows ps

    pub All-sweep_handle :
        (now : ℕ) (reason handle : Text) (rows : List OwnershipRow)
        → All P rows
        → All P (sweep_handle now reason handle rows)
    unfolding sweep_handle
    All-sweep_handle now reason handle rows ps =
        All-update (is_live_row handle) (swept now reason) (kept now reason) rows ps

    pub All-sweep_by_size :
        (now max_bytes total : ℕ) (blobs : List (Text × BlobRow)) (rows : List OwnershipRow)
        → All P rows
        → All P (sweep_by_size now max_bytes total blobs rows)
    unfolding sweep_by_size
    All-sweep_by_size now max_bytes total [] rows ps = ps
    All-sweep_by_size now max_bytes total ((h, b) ∷ blobs) rows ps =
        elim (Bool-cases (leb total max_bytes)) [
          | inl e ↦ rw e ps
          | inr e ↦ rw e (
              All-sweep_by_size now max_bytes (total - b.size) blobs
                (sweep_handle now (codes "size") h rows)
                (All-sweep_handle now (codes "size") h rows ps))
        ]

    -- The updates of a sweep keep it.
    pub All-swept_rows :
        (now ttl tomb_ttl max_mb : ℕ) (db : Database)
        → All P db.ownership
        → All P (swept_rows now ttl tomb_ttl max_mb db)
    unfolding swept_rows
    All-swept_rows now ttl tomb_ttl max_mb db ps =
        All-sweep_by_size now (max_mb * 1024 * 1024) (stored_size db.files (sort_by older db.blobs))
          (sort_by older db.blobs) (forget_rows now tomb_ttl (expire_rows now ttl db.ownership))
          (All-forget_rows now tomb_ttl (expire_rows now ttl db.ownership)
            (All-expire_rows now ttl db.ownership ps))

    pub All-reconcile_blob :
        (runtime : Runtime) (now : ℕ) (files : Dict Bytes) (b : Text × BlobRow)
        (rows : List OwnershipRow)
        → All P rows
        → All P (reconcile_blob runtime now files b rows).0
    unfolding reconcile_blob
    All-reconcile_blob runtime now files (h, b) rows ps = elim (Bool-cases (has_live_row h rows)) [
      | inr e ↦ rw e ps
      | inl e ↦ elim (Bool-cases (has_key h files)) [
        | inr f ↦ rw (e, f) (All-sweep_handle now (codes "missing_blob") h rows ps)
        | inl f ↦ elim (Bool-cases (blob_matches runtime files h b.full_hash b.size)) [
          | inl g ↦ rw (e, f, g) ps
          | inr g ↦ rw (e, f, g) (All-sweep_handle now (codes "integrity_mismatch") h rows ps)
        ]
      ]
    ]

    pub All-reconcile_blobs :
        (runtime : Runtime) (now : ℕ) (files : Dict Bytes) (blobs : List (Text × BlobRow))
        (rows : List OwnershipRow)
        → All P rows
        → All P (reconcile_blobs runtime now files blobs rows).0
    unfolding reconcile_blobs
    All-reconcile_blobs runtime now files [] rows ps = ps
    All-reconcile_blobs runtime now files (b ∷ blobs) rows ps =
        All-reconcile_blobs runtime now files blobs (reconcile_blob runtime now files b rows).0
          (All-reconcile_blob runtime now files b rows ps)

  -- A row that is found is one of the rows.
  pub All-find_row :
      (k h : Text) (rows : List OwnershipRow) (row : OwnershipRow)
      → find_row k h rows ≡ some row
      → All P rows
      → P row × (row.session_key ≡ k) × (row.handle ≡ h)
  All-find_row k h [] row e ps = absurd (unfold find_row in ground arith)
  All-find_row k h (r ∷ rows) row e ps = elim (Bool-cases (is_row_of k h r)) [
    | inl f ↦
        let same : r ≡ row = unfold find_row in ground arith in
        let (key, handle) = row_key k h r f in
        (
          subst P same ps.0,
          ap (λ (x : OwnershipRow). x.session_key) (sym same) ∙ key,
          ap (λ (x : OwnershipRow). x.handle) (sym same) ∙ handle,
        )
    | inr f ↦ All-find_row k h rows row (unfold find_row in ground arith) ps.1
  ]
