-- ===== src/Store/Authorization.antt =====
-- rescue_sqlite.py: who may redeem a handle. The states of the index are those that its transactions
-- reach, with files that anything may change between them.
use tokenjuice_hermes.Common.{
  Text, text_eq, text_eq_iff, ℕ, ◌≡◌, refl, Bool, true, false, ◌&&◌, ◌||◌, not, some, List, [], ◌∷◌,
  Dict, All, Bool-cases, Option-cases, inl, inr, arith, if◌then◌else◌,
}
use tokenjuice_hermes.Store.Handles.{Bytes, Runtime}
use tokenjuice_hermes.Store.Maintenance.{swept, sweep, reconcile}
use tokenjuice_hermes.Store.Ownership.{BlobWrite, put_blob, upsert, key_references}
use tokenjuice_hermes.Store.Rows.{All-upsert, All-swept_rows, All-reconcile_blobs, All-find_row}
use tokenjuice_hermes.Store.Tables.{OwnershipRow, Database, is_live, is_row_of, find_row, empty}

-- The puts that were accepted, as the session key and the handle of each.
abbrev pub Puts : Type 0
Puts = List (Text × Text)

unfoldable pub was_put : Text → Text → Puts → Bool
was_put key handle [] = false
was_put key handle ((k, h) ∷ puts) = text_eq key k && text_eq handle h || was_put key handle puts

abbrev after_put : BlobWrite → Bool → Puts → Puts
after_put blob accepted puts = if accepted then (blob.session_key, blob.handle) ∷ puts else puts

module _ (runtime : Runtime) where
  -- The states that transactions lead to, with the puts on the way. `tamper` stands for whatever
  -- happens to the files of the directory.
  pub data Reach : Puts → Database → Type 0 where
    start : Reach [] empty
    put :
        {puts : Puts} {db : Database} (blob : BlobWrite) (now : ℕ)
        → Reach puts db
        → Reach
            (after_put blob (put_blob runtime blob now db).0 puts)
            (put_blob runtime blob now db).1
    sweeping :
        {puts : Puts} {db : Database} (now ttl tomb_ttl max_mb : ℕ)
        → Reach puts db
        → Reach puts (sweep now ttl tomb_ttl max_mb db)
    reconciling :
        {puts : Puts} {db : Database} (now : ℕ)
        → Reach puts db
        → Reach puts (reconcile runtime now db).1
    tamper :
        {puts : Puts} {db : Database} (files : Dict Bytes)
        → Reach puts db
        → Reach puts (record db { files = files })

  -- A live row belongs to a put.
  abbrev Owned : Puts → OwnershipRow → Type 0
  Owned puts row = (is_live row.state && not (was_put row.session_key row.handle puts)) ≡ false

  Owned-weaken :
      (k h : Text) (puts : Puts) (rows : List OwnershipRow)
      → All (Owned puts) rows
      → All (Owned ((k, h) ∷ puts)) rows
  unfolding was_put
  Owned-weaken k h puts [] ps = tt
  Owned-weaken k h puts (row ∷ rows) ps = (ground (arith, ps), Owned-weaken k h puts rows ps.1)

  upsert-Owned :
      (blob : BlobWrite) (now : ℕ) (puts : Puts) (rows : List OwnershipRow)
      → All (Owned puts) rows
      → All (Owned ((blob.session_key, blob.handle) ∷ puts)) (upsert blob now rows)
  upsert-Owned blob now puts rows ps =
      All-upsert (Owned ((blob.session_key, blob.handle) ∷ puts)) blob now rows
        (unfold was_put in
          ground (
            arith,
            text_eq_iff blob.session_key blob.session_key,
            text_eq_iff blob.handle blob.handle,
          ))
        (λ row p e. unfold was_put is_row_of in ground (arith, e))
        (Owned-weaken blob.session_key blob.handle puts rows ps)

  pub put_blob-rows :
      (blob : BlobWrite) (now : ℕ) (db : Database)
      → (put_blob runtime blob now db).1.ownership
        ≡ (if (put_blob runtime blob now db).0 then upsert blob now db.ownership else db.ownership)
  unfolding put_blob
  put_blob-rows blob now db = ground arith

  put_blob-Owned :
      (blob : BlobWrite) (now : ℕ) (puts : Puts) (db : Database)
      → All (Owned puts) db.ownership
      → All
          (Owned (after_put blob (put_blob runtime blob now db).0 puts))
          (put_blob runtime blob now db).1.ownership
  put_blob-Owned blob now puts db ps = elim (Bool-cases (put_blob runtime blob now db).0) [
    | inl e ↦ rw (put_blob-rows blob now db, e) (upsert-Owned blob now puts db.ownership ps)
    | inr e ↦ rw (put_blob-rows blob now db, e) ps
  ]

  sweep-Owned :
      (puts : Puts) (now ttl tomb_ttl max_mb : ℕ) (db : Database)
      → All (Owned puts) db.ownership
      → All (Owned puts) (sweep now ttl tomb_ttl max_mb db).ownership
  unfolding sweep
  sweep-Owned puts now ttl tomb_ttl max_mb db ps =
      let kept : (now : ℕ) (reason : Text) (row : OwnershipRow)
          → Owned puts row
          → Owned puts (swept now reason row) =
        λ now reason row p. refl in
      All-swept_rows (Owned puts) kept now ttl tomb_ttl max_mb db ps

  reconcile-Owned :
      (puts : Puts) (now : ℕ) (db : Database)
      → All (Owned puts) db.ownership
      → All (Owned puts) (reconcile runtime now db).1.ownership
  unfolding reconcile
  reconcile-Owned puts now db ps =
      All-reconcile_blobs (Owned puts) (λ now reason row p. refl) runtime now db.files db.blobs
        db.ownership ps

  reachable-Owned : {puts : Puts} {db : Database} → Reach puts db → All (Owned puts) db.ownership
  reachable-Owned start = tt
  reachable-Owned (put {puts} {db} blob now r) = put_blob-Owned blob now puts db (reachable-Owned r)
  reachable-Owned (sweeping {puts} {db} now ttl tomb_ttl max_mb r) =
      sweep-Owned puts now ttl tomb_ttl max_mb db (reachable-Owned r)
  reachable-Owned (reconciling {puts} {db} now r) = reconcile-Owned puts now db (reachable-Owned r)
  reachable-Owned (tamper files r) = reachable-Owned r

  pub live_blob-live :
      (k h : Text) (db : Database)
      → key_references runtime h k db ≡ true
      → (row : OwnershipRow) × (find_row k h db.ownership ≡ some row) × (is_live row.state ≡ true)
  live_blob-live k h db e = elim (Option-cases (find_row k h db.ownership)) [
    | inl f ↦ absurd (unfold key_references in ground (arith, f))
    | inr (row, f) ↦ (row, f, unfold key_references in ground (arith, f))
  ]

  -- In every state that puts, sweeps, reconciliations and changes of the files lead to, a session
  -- references a handle only where a put of that session was accepted with that handle.
  pub key_references-was_put :
      (puts : Puts) (db : Database) (k h : Text)
      → Reach puts db
      → key_references runtime h k db ≡ true
      → was_put k h puts ≡ true
  key_references-was_put puts db k h r e =
      let (row, found, lives) = live_blob-live k h db e in
      let (owned, key, handle) =
        All-find_row (Owned puts) k h db.ownership row found (reachable-Owned r) in
      rw (← key, ← handle) (ground (arith, owned, lives))
