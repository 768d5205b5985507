-- ===== src/Store/Sweep.antt =====
-- rescue_sqlite_maintenance.py: what a sweep leaves.
use tokenjuice_hermes.Common.{
  Text, codes, text_eq_iff, ℕ, ◌+◌, ◌-◌, ◌*◌, ◌≤◌, ◌≡◌, ◌≢◌, refl, sym, subst, true, false, ◌&&◌,
  not, none, List, [], ◌∷◌, Dict, get, has_key, remove, get-remove, All, Bool-cases, Option-cases,
  inl, inr, arith, if◌then◌else◌, ltb, sort_by,
}
use tokenjuice_hermes.Store.Handles.{Bytes, Runtime}
use tokenjuice_hermes.Store.Maintenance.{
  swept, sweep, swept_rows, unlink_dead, sweep_by_size, sweep_handle, stored_size, expire_rows,
  forget_rows, older,
}
use tokenjuice_hermes.Store.Ownership.{BlobWrite, put_blob, upsert, key_references}
use tokenjuice_hermes.Store.Rows.{All-forget_rows, All-sweep_by_size, All-find_row}
use tokenjuice_hermes.Store.Tables.{
  BlobRow, OwnershipRow, Database, is_live, is_row_of, find_row, has_live_row,
}

-- A live row is not older than the time to live.
abbrev IsFresh : ℕ → ℕ → OwnershipRow → Type 0
IsFresh now ttl row = (is_live row.state && ltb ttl (now - row.created_at)) ≡ false

expire_rows-IsFresh :
    (now ttl : ℕ) (rows : List OwnershipRow) → All (IsFresh now ttl) (expire_rows now ttl rows)
unfolding expire_rows
expire_rows-IsFresh now ttl [] = tt
expire_rows-IsFresh now ttl (row ∷ rows) = (ground arith, expire_rows-IsFresh now ttl rows)

-- The two updates that follow keep what holds of every row once it expired.
after_expiry :
    (P : OwnershipRow → Type 0) (now ttl tomb_ttl max_mb : ℕ) (db : Database)
    → ((later : ℕ) (reason : Text) (row : OwnershipRow) → P row → P (swept later reason row))
    → All P (expire_rows now ttl db.ownership)
    → All P (swept_rows now ttl tomb_ttl max_mb db)
unfolding swept_rows
after_expiry P now ttl tomb_ttl max_mb db kept ps =
    All-sweep_by_size P kept now (max_mb * 1024 * 1024)
      (stored_size db.files (sort_by older db.blobs)) (sort_by older db.blobs)
      (forget_rows now tomb_ttl (expire_rows now ttl db.ownership))
      (All-forget_rows P now tomb_ttl (expire_rows now ttl db.ownership) ps)

has_key-get {ℓ} : {V : Type ℓ} (k : Text) (d : Dict V) → has_key k d ≡ false → get k d ≡ none
unfolding has_key get
has_key-get k [] h = refl
has_key-get k ((j, v) ∷ d) h = ground (arith, has_key-get k d)

get-unlink_dead :
    (blobs : List (Text × BlobRow)) (rows : List OwnershipRow) (files : Dict Bytes) (name : Text)
    → get name (unlink_dead blobs rows files)
      ≡ (if has_key name blobs && not (has_live_row name rows) then none else get name files)
unfolding unlink_dead has_key
get-unlink_dead [] rows files name = refl
get-unlink_dead ((h, b) ∷ blobs) rows files name = elim (Bool-cases (has_live_row h rows)) [
  | inl e ↦ ground (arith, e, text_eq_iff h name, get-unlink_dead blobs rows files name)
  | inr e ↦ ground (
    arith,
    e,
    text_eq_iff h name,
    get-unlink_dead blobs rows (remove h files) name,
    get-remove h name files,
  )
]

-- After a sweep no live row is older than the time to live, and exactly the files are gone that a blob
-- row names and that no live row does.
pub sweep_lem :
    (now ttl tomb_ttl max_mb : ℕ) (db : Database) (name : Text)
    → All
        (λ row. (is_live row.state && ltb ttl (now - row.created_at)) ≡ false)
        (sweep now ttl tomb_ttl max_mb db).ownership
      × (get name (sweep now ttl tomb_ttl max_mb db).files ≡ (
          if has_key name db.blobs
            && not (has_live_row name (sweep now ttl tomb_ttl max_mb db).ownership)
          then none
          else get name db.files))
unfolding sweep
sweep_lem now ttl tomb_ttl max_mb db name = (
  after_expiry (IsFresh now ttl) now ttl tomb_ttl max_mb db (λ later reason row p. refl)
      (expire_rows-IsFresh now ttl db.ownership),
  get-unlink_dead db.blobs (swept_rows now ttl tomb_ttl max_mb db) db.files name,
)

-- A row of the key is older than the time to live, or not live.
abbrev IsOld : Text → Text → ℕ → ℕ → OwnershipRow → Type 0
IsOld k h now ttl row = (is_row_of k h row && not (ltb ttl (now - row.created_at))) ≡ false

abbrev IsDead : Text → Text → OwnershipRow → Type 0
IsDead k h row = (is_row_of k h row && is_live row.state) ≡ false

expire_rows-IsDead :
    (k h : Text) (now ttl : ℕ) (rows : List OwnershipRow)
    → All (IsOld k h now ttl) rows
    → All (IsDead k h) (expire_rows now ttl rows)
unfolding expire_rows is_row_of
expire_rows-IsDead k h now ttl [] ps = tt
expire_rows-IsDead k h now ttl (row ∷ rows) ps =
    (ground (arith, ps), expire_rows-IsDead k h now ttl rows ps.1)

swept-IsDead :
    (k h : Text) (later : ℕ) (reason : Text) (row : OwnershipRow)
    → IsDead k h row
    → IsDead k h (swept later reason row)
unfolding is_row_of
swept-IsDead k h later reason row p = ground arith

-- An upsert of a key that is there keeps the age of its row.
upsert-IsOld :
    (blob : BlobWrite) (now later ttl : ℕ) (rows : List OwnershipRow)
    → find_row blob.session_key blob.handle rows ≢ none
    → All (IsOld blob.session_key blob.handle later ttl) rows
    → All (IsOld blob.session_key blob.handle later ttl) (upsert blob now rows)
unfolding upsert find_row is_row_of
upsert-IsOld blob now later ttl [] there ps = absurd (there refl)
upsert-IsOld blob now later ttl (row ∷ rows) there ps =
    elim (Bool-cases (is_row_of blob.session_key blob.handle row)) [
      | inl e ↦ rw e (ground (arith, ps), ps.1)
      | inr e ↦
          rw e (ps.0, upsert-IsOld blob now later ttl rows (λ f. there (ground (arith, e, f))) ps.1)
    ]

not_references :
    (runtime : Runtime) (k h : Text) (db : Database)
    → All (IsDead k h) db.ownership
    → key_references runtime h k db ≡ false
not_references runtime k h db ps = elim (Option-cases (find_row k h db.ownership)) [
  | inl e ↦ unfold key_references in ground (arith, e)
  | inr (row, e) ↦
      let (dead, key, handle) = All-find_row (IsDead k h) k h db.ownership row e ps in
      let lives : is_live row.state ≡ false =
        unfold is_row_of in
        ground (arith, dead, text_eq_iff row.session_key k, text_eq_iff row.handle h) in
      unfold key_references in ground (arith, e, lives)
]

module _ (runtime : Runtime) where
  put_blob-rows :
      (blob : BlobWrite) (now : ℕ) (db : Database)
      → (put_blob runtime blob now db).0 ≡ true
      → (put_blob runtime blob now db).1.ownership ≡ upsert blob now db.ownership
  unfolding put_blob
  put_blob-rows blob now db h = ground arith

  -- A put of what the session stored longer ago than the time to live does not renew it: the next sweep
  -- takes the reference away again, however soon it comes.
  pub put_blob-sweep_loses :
      (blob : BlobWrite) (now later ttl tomb_ttl max_mb : ℕ) (db : Database)
      → (put_blob runtime blob now db).0 ≡ true
      → find_row blob.session_key blob.handle db.ownership ≢ none
      → All
          (λ row.
            (is_row_of blob.session_key blob.handle row && not (ltb ttl (later - row.created_at)))
            ≡ false)
          db.ownership
      → key_references runtime blob.handle blob.session_key
          (sweep later ttl tomb_ttl max_mb (put_blob runtime blob now db).1)
        ≡ false
  put_blob-sweep_loses blob now later ttl tomb_ttl max_mb db accepted there old =
      let db' = (put_blob runtime blob now db).1 in
      let rows : db'.ownership ≡ upsert blob now db.ownership =
        put_blob-rows blob now db accepted in
      let aged = upsert-IsOld blob now later ttl db.ownership there old in
      let dead : All (IsDead blob.session_key blob.handle) (expire_rows later ttl db'.ownership) =
        expire_rows-IsDead blob.session_key blob.handle later ttl db'.ownership
          (subst (All (IsOld blob.session_key blob.handle later ttl)) (sym rows) aged) in
      not_references runtime blob.session_key blob.handle (sweep later ttl tomb_ttl max_mb db') (
        unfold sweep in
        after_expiry (IsDead blob.session_key blob.handle) later ttl tomb_ttl max_mb db'
          (swept-IsDead blob.session_key blob.handle) dead)

sweep_handle_dead :
    (now : ℕ) (reason handle : Text) (rows : List OwnershipRow)
    → has_live_row handle rows ≡ false
    → sweep_handle now reason handle rows ≡ rows
unfolding sweep_handle has_live_row
sweep_handle_dead now reason handle [] h = refl
sweep_handle_dead now reason handle (row ∷ rows) h =
    ground (arith, sweep_handle_dead now reason handle rows)

sweep_by_size_within :
    (now max_bytes total : ℕ) (blobs : List (Text × BlobRow)) (rows : List OwnershipRow)
    → total ≤ max_bytes
    → sweep_by_size now max_bytes total blobs rows ≡ rows
unfolding sweep_by_size
sweep_by_size_within now max_bytes total [] rows h = refl
sweep_by_size_within now max_bytes total (b ∷ blobs) rows h = ground arith

-- A blob without a file and without a live row is counted when the sweep looks for blobs to give up:
-- when the oldest blob is such a one, the sweep gives up nothing for up to its size over the limit.
pub sweep_by_size_counts_missing :
    (now max_bytes : ℕ) (handle : Text) (blob : BlobRow) (blobs : List (Text × BlobRow))
    (rows : List OwnershipRow) (files : Dict Bytes)
    → has_key handle files ≡ false
    → has_live_row handle rows ≡ false
    → stored_size files blobs ≤ max_bytes + blob.size
    → sweep_by_size now max_bytes
        (stored_size files ((handle, blob) ∷ blobs))
        ((handle, blob) ∷ blobs)
        rows
      ≡ rows
sweep_by_size_counts_missing now max_bytes handle blob blobs rows files gone dead small =
    let total : stored_size files ((handle, blob) ∷ blobs) ≡ stored_size files blobs =
      unfold stored_size in ground (arith, gone) in
    let same = sweep_handle_dead now (codes "size") handle rows dead in
    let done =
      sweep_by_size_within now max_bytes (stored_size files blobs - blob.size) blobs rows
        (omega arith) in
    rw total (unfold sweep_by_size in ground (arith, same, done))
