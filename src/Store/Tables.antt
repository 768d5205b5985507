-- ===== src/Store/Tables.antt =====
-- rescue_sqlite_types.py: the tables of the ownership index, with the files of the blob directory.
use tokenjuice_hermes.Common.{
  Text, text_eq, ℕ, Bool, true, false, ◌&&◌, Option, none, some, List, [], ◌∷◌, Dict, get, length,
  ◌==◌, if◌then◌else◌, any,
}
use tokenjuice_hermes.Store.Handles.{Bytes, Runtime}

pub record BlobRow : Type 0 where
  pub full_hash : Text
  pub size : ℕ
  pub created_at : ℕ

pub data RowState : Type 0 where
  live tombstone : RowState

abbrev pub is_live : RowState → Bool
is_live live = true
is_live tombstone = false

-- A row of `ownership`; `session_key` and `handle` are its key.
pub record OwnershipRow : Type 0 where
  pub session_key : Text
  pub handle : Text
  pub state : RowState
  pub tool : Text
  pub size : ℕ
  pub created_at : ℕ
  pub accessed_at : Option ℕ
  pub swept_at : Option ℕ
  pub reason : Option Text

-- The rows of `sessions` and `blobs` by their primary keys, the rows of `ownership` in order, the
-- files of the blob directory by name, and the files that were moved away from it.
pub record Database : Type 0 where
  pub sessions : Dict ℕ
  pub blobs : Dict BlobRow
  pub ownership : List OwnershipRow
  pub files : Dict Bytes
  pub orphans : Dict Bytes

abbrev pub empty : Database
empty = record { sessions = []; blobs = []; ownership = []; files = []; orphans = [] }

-- `WHERE session_key=? AND handle=?`, which is the primary key: one row at most
unfoldable pub is_row_of : Text → Text → OwnershipRow → Bool
is_row_of session_key handle row = text_eq row.session_key session_key && text_eq row.handle handle

unfoldable pub find_row : Text → Text → List OwnershipRow → Option OwnershipRow
unfolding is_row_of
find_row session_key handle [] = none
find_row session_key handle (row ∷ rows) =
    if is_row_of session_key handle row then some row else find_row session_key handle rows

-- `WHERE handle=? AND state='live'`
unfoldable pub is_live_row : Text → OwnershipRow → Bool
is_live_row handle row = text_eq row.handle handle && is_live row.state

-- `SELECT 1 FROM ownership WHERE handle=? AND state='live' LIMIT 1`, as a test
unfoldable pub has_live_row : Text → List OwnershipRow → Bool
unfolding any is_live_row
has_live_row handle rows = any (is_live_row handle) rows

module _ (runtime : Runtime) where
  open runtime use {sha256_hex}

  -- `_blob_matches`, where a file that cannot be read is one that is not there
  unfoldable pub blob_matches : Dict Bytes → Text → Text → ℕ → Bool
  unfolding get
  blob_matches files handle full_hash size = elim (get handle files) [
    | none ↦ false
    | some raw ↦ length raw == size && text_eq (sha256_hex raw) full_hash
  ]
