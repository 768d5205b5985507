-- ===== src/Store/Ownership.antt =====
-- rescue_sqlite.py: `OwnershipStore`. The clock is an argument, as are the runtime's functions. Errors
-- of SQLite and of the file system are not modelled.
use tokenjuice_hermes.Common.{
  Text, codes, text_eq, grouped_text, ℕ, Bool, true, false, ◌&&◌, ◌||◌, not, Option, none, some,
  List, [], ◌∷◌, ◌++◌, Outcome, ok, raise, value_error, Dict, get, put, has_key, length, take,
  is_empty, ◌==◌, if◌then◌else◌,
}
use tokenjuice_hermes.Store.Handles.{Bytes, Runtime, safe_sid}
use tokenjuice_hermes.Store.Tables.{
  BlobRow, OwnershipRow, Database, live, is_live, find_row, is_row_of, blob_matches,
}

pub record BlobWrite : Type 0 where
  pub raw : Bytes
  pub handle : Text
  pub full_hash : Text
  pub size : ℕ
  pub session_key : Text
  pub tool_name : Text

-- `existing[0] != blob.full_hash or existing[1] != blob.size`
abbrev pub is_other_blob : BlobWrite → BlobRow → Bool
is_other_blob blob row = not (text_eq row.full_hash blob.full_hash) || not (row.size == blob.size)

-- `INSERT OR IGNORE`
unfoldable pub insert_or_ignore {ℓ} : {V : Type ℓ} → Text → V → Dict V → Dict V
unfolding has_key put
insert_or_ignore k v d = if has_key k d then d else put k v d

-- The row that is inserted, and what is left of a row in its way.
abbrev pub new_row : BlobWrite → ℕ → OwnershipRow
new_row blob now = record {
  session_key = blob.session_key;
  handle = blob.handle;
  state = live;
  tool = blob.tool_name;
  size = blob.size;
  created_at = now;
  accessed_at = some now;
  swept_at = none;
  reason = none;
}

abbrev pub updated_row : BlobWrite → ℕ → OwnershipRow → OwnershipRow
updated_row blob now row = record row {
  state = live;
  tool = blob.tool_name;
  size = blob.size;
  accessed_at = some now;
  swept_at = none;
  reason = none;
}

-- `INSERT INTO ownership … ON CONFLICT(session_key, handle) DO UPDATE …`
unfoldable pub upsert : BlobWrite → ℕ → List OwnershipRow → List OwnershipRow
unfolding is_row_of
upsert blob now [] = new_row blob now ∷ []
upsert blob now (row ∷ rows) =
    if is_row_of blob.session_key blob.handle row
    then updated_row blob now row ∷ rows
    else row ∷ upsert blob now rows

-- The three statements that write, once the file is there.
unfoldable pub insert_rows : BlobWrite → ℕ → Database → Database
unfolding insert_or_ignore upsert put
insert_rows blob now db = record db {
  blobs = elim (get blob.handle db.blobs) [
    | some row ↦ db.blobs
    | none ↦
        put blob.handle (record { full_hash = blob.full_hash; size = blob.size; created_at = now })
          db.blobs
  ];
  sessions = insert_or_ignore blob.session_key now db.sessions;
  ownership = upsert blob now db.ownership;
}

-- The row and its blob row, for a live row: `ownership JOIN blobs USING(handle)`
unfoldable pub live_blob : Text → Text → Database → Option (OwnershipRow × BlobRow)
unfolding find_row get
live_blob session_key handle db = elim (find_row session_key handle db.ownership) [
  | none ↦ none
  | some row ↦
      if is_live row.state
      then elim (get handle db.blobs) [ none ↦ none | some blob ↦ some (row, blob) ]
      else none
]

module _ (runtime : Runtime) where
  open runtime use {sha256_hex, encode}

  abbrev pub matches : BlobWrite → Database → Bool
  matches blob db = blob_matches runtime db.files blob.handle blob.full_hash blob.size

  -- `_atomic_write`
  unfoldable pub write_file : BlobWrite → Database → Database
  unfolding put
  write_file blob db = record db { files = put blob.handle blob.raw db.files }

  -- The file is written unless it is known and matches; then it has to match.
  unfoldable pub with_file : BlobWrite → Bool → ℕ → Database → Bool × Database
  unfolding blob_matches write_file insert_rows
  with_file blob known now db =
      if known && matches blob db
      then (true, insert_rows blob now db)
      else if matches blob (write_file blob db)
      then (true, insert_rows blob now (write_file blob db))
      else (false, write_file blob db)

  -- `put_blob`, one transaction
  unfoldable pub put_blob : BlobWrite → ℕ → Database → Bool × Database
  unfolding get with_file
  put_blob blob now db = elim (get blob.handle db.blobs) [
    | none ↦ with_file blob false now db
    | some row ↦ if is_other_blob blob row then (false, db) else with_file blob true now db
  ]

  -- The blob that `put` writes.
  unfoldable pub blob_write : Bytes → Text → Text → BlobWrite
  blob_write raw session_key tool_name = record {
    raw = raw;
    handle = take 12 (sha256_hex raw);
    full_hash = sha256_hex raw;
    size = length raw;
    session_key = session_key;
    tool_name = tool_name;
  }

  -- `ValueError("rescue handle collision")` when the blob is not accepted
  stored : BlobWrite → Bool × Database → Outcome Text × Database
  stored blob (true, db) = (ok blob.handle, db)
  stored blob (false, db) = (raise value_error, db)

  unfoldable pub put_content : Text → Text → Text → ℕ → Database → Outcome Text × Database
  unfolding blob_write stored
  put_content content tool_name session_id now db = elim (encode content) [
    | none ↦ (raise value_error, db)
    | some raw ↦ elim (safe_sid runtime session_id) [
      | raise e ↦ (raise e, db)
      | ok key ↦
          stored (blob_write raw key tool_name) (put_blob (blob_write raw key tool_name) now db)
    ]
  ]

  -- `session_references`, for a session key
  unfoldable pub key_references : Text → Text → Database → Bool
  unfolding live_blob blob_matches
  key_references handle session_key db = elim (live_blob session_key handle db) [
    | none ↦ false
    | some (row, blob) ↦ blob_matches runtime db.files handle blob.full_hash blob.size
  ]

-- `row[0] or "the source tool"`
abbrev source_tool : Text → Text
source_tool tool = if is_empty tool then codes "the source tool" else tool

-- The text of `tombstone_message`, with the size `COALESCE(blobs.size, ownership.size, 0)`.
unfoldable pub swept_text : Text → Text → ℕ → Text
unfolding grouped_text
swept_text handle tool size =
    codes "[Swept] Handle "
    ++ (handle
        ++ (codes " (from "
            ++ (source_tool tool
                ++ (codes ", "
                    ++ (grouped_text size
                        ++ (codes " chars) expired after the retention window. Re-run "
                            ++ (source_tool tool ++ codes " to regenerate it.")))))))

-- `tombstone_message`, for a session key
unfoldable pub tombstone_message : Text → Text → Database → Option Text
unfolding find_row get swept_text
tombstone_message handle session_key db = elim (find_row session_key handle db.ownership) [
  | none ↦ none
  | some row ↦
      if is_live row.state
      then none
      else some (
          swept_text handle row.tool
            (elim (get handle db.blobs) [ none ↦ row.size | some blob ↦ blob.size ]))
]

pub record BlobMeta : Type 0 where
  pub tool : Text
  pub size : ℕ

-- `str(row[0] or "?")`
abbrev meta_of : OwnershipRow × BlobRow → BlobMeta
meta_of (row, blob) = record {
  tool = if is_empty row.tool then codes "?" else row.tool;
  size = blob.size;
}

-- `find_meta` with a session, for its key
unfoldable pub find_meta : Text → Text → Database → BlobMeta
unfolding live_blob
find_meta handle session_key db = elim (live_blob session_key handle db) [
  | none ↦ record { tool = codes "?"; size = 0 }
  | some found ↦ meta_of found
]
