-- ===== src/Store/Legacy.antt =====
-- rescue_index.py and rescue_sqlite_migration.py: the legacy indexes, a JSON file for each session, and their
-- migration into the tables. An index file is its bytes; the json library and Python's conversions are
-- the fields of `LegacyRuntime`. Errors of SQLite, but for a check of the schema, and of the file system
-- are not modelled.
use tokenjuice_hermes.Common.{
  Text, codes, text_eq, starts_with, strip, ℕ, ◌-◌, Bool, true, false, ◌&&◌, not, Option, none,
  some, [], ◌∷◌, ◌++◌, Outcome, ok, raise, type_error, value_error, attribute_error, sqlite_error,
  Dict, get, put, has_key, keep, length, take, drop, is_empty, ltb, leb, ◌==◌, if◌then◌else◌, ℤ,
  pos, negsuc, clamp_zero, sort_by,
}
use tokenjuice_hermes.Json.{JsonValue, JsonObject, scalar, array, object, int, str, entries}
use tokenjuice_hermes.Store.Handles.{Bytes, Runtime}
use tokenjuice_hermes.Store.Ownership.{insert_or_ignore, put_blob}
use tokenjuice_hermes.Store.Tables.{OwnershipRow, Database, tombstone, is_row_of, blob_matches}

pub record LegacyRuntime : Type 0 where
  -- `json.loads`, where `none` stands for the `JSONDecodeError`
  pub loads : Text → Option JsonValue
  -- `int(value)`
  pub int_of : JsonValue → Outcome ℤ
  -- `float(value)`, a time in whole seconds
  pub float_of : JsonValue → Outcome ℕ
  -- `str(value)`
  pub str_of : JsonValue → Text

-- The tables with the files of the directory of legacy indexes, those that were copied to the quarantine, and whether
-- the marker of a migration is there.
pub record LegacyStore : Type 0 where
  pub db : Database
  pub meta_files : Dict Bytes
  pub quarantine : Dict Bytes
  pub migrated : Bool

-- `a <= b` for texts
abbrev text_leb : Text → Text → Bool
text_leb [] t = true
text_leb (c ∷ s) [] = false
text_leb (c ∷ s) (d ∷ t) = let rest = text_leb s t in if c == d then rest else ltb c d

abbrev is_json_name : Text → Bool
is_json_name name = leb 5 (length name) && text_eq (drop (length name - 5) name) (codes ".json")

-- `sorted(meta_dir.glob("*.json"))`
unfoldable pub index_files : Dict Bytes → Dict Bytes
unfolding keep sort_by text_eq
index_files files = sort_by (λ a b. text_leb a.0 b.0) (keep (λ file. is_json_name file.0) files)

-- `index_file.stem`, where a name that is only a suffix is its own stem
unfoldable pub stem : Text → Text
stem name = if leb (length name) 5 then name else take (length name - 5) name

-- The index, if the JSON text is an object.
abbrev index_of : Option JsonValue → JsonObject
index_of (some (object fs)) = entries fs
index_of v = []

-- `entry.get(key, default)`
unfoldable pub get_or : Text → JsonValue → JsonObject → JsonValue
unfolding get
get_or key default entry = elim (get key entry) [ none ↦ default | some v ↦ v ]

-- `is_live`
unfoldable pub is_live_entry : JsonObject → Bool
unfolding has_key
is_live_entry entry = not (has_key (codes "swept_at") entry)

abbrev pub legacy_row : Text → Text → Text → ℕ → ℕ → OwnershipRow
legacy_row session_key handle tool size now = record {
  session_key = session_key;
  handle = handle;
  state = tombstone;
  tool = tool;
  size = size;
  created_at = now;
  accessed_at = none;
  swept_at = some now;
  reason = some (codes "legacy_tombstone");
}

-- The marker is written where all files are done with.
abbrev pub after_files : Outcome Bool × LegacyStore → Outcome {0} Unit × LegacyStore
after_files (raise e, st) = (raise e, st)
after_files (ok true, st) = (ok tt, record st { migrated = true })
after_files (ok false, st) = (ok tt, st)

module _ (runtime : Runtime) (legacy : LegacyRuntime) where
  open runtime use {decode}
  open legacy use {loads, int_of, float_of, str_of}

  -- `read_idx_file`; a text that is not UTF-8 raises a `UnicodeDecodeError`, which is no `OSError`.
  unfoldable pub read_idx_file : Bytes → Outcome JsonObject
  read_idx_file raw = elim (decode raw) [
    | none ↦ raise value_error
    | some text ↦ ok (index_of (loads text))
  ]

  -- `not index_file.read_text(encoding="utf-8").strip()`
  unfoldable pub is_blank_file : Bytes → Bool
  is_blank_file raw = elim (decode raw) [ none ↦ true | some text ↦ is_empty (strip text) ]

  -- `_insert_tombstone`, where a negative size counts as 0
  unfoldable pub insert_tombstone :
      Text → Text → JsonObject → Database → Outcome {0} Unit × Database
  insert_tombstone session_key handle entry db =
      elim (float_of (get_or (codes "swept_at") (scalar (int (pos 0))) entry)) [
        | raise e ↦ (raise e, db)
        | ok now ↦ elim (int_of (get_or (codes "size") (scalar (int (pos 0))) entry)) [
          | raise e ↦ (raise e, db)
          | ok size ↦ (
            ok tt,
            record db {
              sessions = insert_or_ignore session_key now db.sessions;
              ownership =
                  keep (λ row. not (is_row_of session_key handle row)) db.ownership
                  ++ legacy_row session_key handle
                      (str_of (get_or (codes "tool") (scalar (str [])) entry)) (clamp_zero size) now
                    ∷ [];
            },
          )
        ]
      ]

  -- `store.blob_matches`, where no file has a negative size
  abbrev pub legacy_matches : Dict Bytes → Text → Text → ℤ → Bool
  legacy_matches files handle full_hash (pos n) = blob_matches runtime files handle full_hash n
  legacy_matches files handle full_hash (negsuc n) = false

  -- `put_blob` with the bytes of the file, where the schema checks the length of a handle
  unfoldable pub put_legacy :
      Text → Text → Text → ℤ → Text → ℕ → Database → Outcome {0} Unit × Database
  put_legacy session_key handle full_hash size tool now db = elim (get handle db.files) [
    | none ↦ (ok tt, db)
    | some raw ↦
        if length handle == 12
        then (
          ok tt,
          (put_blob runtime
              (record {
                raw = raw;
                handle = handle;
                full_hash = full_hash;
                size = clamp_zero size;
                session_key = session_key;
                tool_name = tool;
              })
              now db).1,
        )
        else (raise sqlite_error, db)
  ]

  -- `_migrate_entry` on a live entry
  unfoldable pub migrate_live :
      Text → Text → JsonObject → ℕ → Database → Outcome {0} Unit × Database
  migrate_live session_key handle entry now db =
      let full_hash = str_of (get_or (codes "hash") (scalar (str [])) entry) in
      elim (int_of (get_or (codes "size") (scalar (int (pos 0))) entry)) [
        | raise e ↦ (raise e, db)
        | ok size ↦
            if has_key handle db.files
              && starts_with full_hash handle
              && legacy_matches db.files handle full_hash size
            then put_legacy session_key handle full_hash size
                (str_of (get_or (codes "tool") (scalar (str [])) entry)) now db
            else (ok tt, db)
      ]

  -- `_migrate_entry`, where an entry that is no object raises when it is searched or asked for a key
  unfoldable pub migrate_entry :
      Text → Text → JsonValue → ℕ → Database → Outcome {0} Unit × Database
  migrate_entry session_key handle (object fs) now db =
      if is_live_entry (entries fs)
      then migrate_live session_key handle (entries fs) now db
      else insert_tombstone session_key handle (entries fs) db
  migrate_entry session_key handle (array vs) now db = (raise attribute_error, db)
  migrate_entry session_key handle (scalar (str s)) now db = (raise attribute_error, db)
  migrate_entry session_key handle (scalar s) now db = (raise type_error, db)

  -- The loop over the entries of an index.
  unfoldable pub migrate_entries : Text → JsonObject → ℕ → Database → Outcome {0} Unit × Database
  migrate_entries session_key [] now db = (ok tt, db)
  migrate_entries session_key ((handle, entry) ∷ blobs) now db =
      let first = migrate_entry session_key handle entry now db in
      elim first.0 [
        | raise e ↦ (raise e, first.1)
        | ok u ↦ migrate_entries session_key blobs now first.1
      ]

  -- The entries under `blobs`, which has to be an object where it is there.
  unfoldable pub migrate_index : Text → JsonObject → ℕ → Database → Outcome {0} Unit × Database
  migrate_index session_key idx now db = elim (get (codes "blobs") idx) [
    | none ↦ (ok tt, db)
    | some (object fs) ↦ migrate_entries session_key (entries fs) now db
    | some v ↦ (raise attribute_error, db)
  ]

  -- One index file: whether it is done with.
  unfoldable pub migrate_file : Text → Bytes → ℕ → LegacyStore → Outcome Bool × LegacyStore
  migrate_file name raw now st = elim (read_idx_file raw) [
    | raise e ↦ (raise e, st)
    | ok idx ↦
        if is_empty idx && not (is_blank_file raw)
        then (ok false, record st { quarantine = put name raw st.quarantine })
        else let done = migrate_index (stem name) idx now st.db in
          elim done.0 [
            | raise e ↦ (raise e, record st { db = done.1 })
            | ok u ↦ (ok true, record st { db = done.1 })
          ]
  ]

  -- The loop over the files, which are all done with or not.
  unfoldable pub migrate_files : Dict Bytes → Bool → ℕ → LegacyStore → Outcome Bool × LegacyStore
  migrate_files [] completed now st = (ok completed, st)
  migrate_files ((name, raw) ∷ files) completed now st =
      let first = migrate_file name raw now st in
      elim first.0 [
        | raise e ↦ (raise e, first.1)
        | ok done ↦ migrate_files files (completed && done) now first.1
      ]

  -- `migrate_legacy_indexes`, as the opening of the store calls it
  unfoldable pub migrate_legacy_indexes : ℕ → LegacyStore → Outcome {0} Unit × LegacyStore
  migrate_legacy_indexes now st =
      if st.migrated
      then (ok tt, st)
      else after_files (migrate_files (index_files st.meta_files) true now st)
