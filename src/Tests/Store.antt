-- ===== src/Tests/Store.antt =====
-- The theorems on the blob store applied to a store of two sessions, with a digest that is the content
-- behind twelve zeros.
use tokenjuice_hermes.Common.{
  sum_by, keep, starts_with, strip, pos, Outcome, raise, type_error, ◌||◌, all, ℤ, ℕ, clamp_zero,
  take, Text, codes, text_eq, ◌≡◌, ◌≤◌, ◌<◌, ◌-◌, ◌⊎◌, refl, ap, true, false, ◌&&◌, not, none, some,
  List, [], ◌∷◌, ◌++◌, ok, Dict, get, has_key, All, arith, sym, length, drop, ltb, if◌then◌else◌,
}
use tokenjuice_hermes.Store.LegacySweep
use tokenjuice_hermes.Store.LegacySweep.{LegacyState, sweep_by_size_all}
use tokenjuice_hermes.Store.Completed.{migrate_legacy_indexes-migrated, is_done_with}
use tokenjuice_hermes.Store.Migrated.{migrate_legacy_indexes-lists, has_live, lists}
use tokenjuice_hermes.Store.Legacy.{
  LegacyRuntime, LegacyStore, migrate_legacy_indexes, migrate_files, migrate_file, migrate_index,
  migrate_entries, migrate_entry, migrate_live, put_legacy, get_or, stem, is_live_entry,
  is_blank_file, read_idx_file, index_files,
}
use tokenjuice_hermes.Json.{entries, JsonValue, object, field, end, scalar, int, str}
use tokenjuice_hermes.Store.Authorization.{Reach, was_put, key_references-was_put}
use tokenjuice_hermes.Store.Blobs.{StoreState, default_config, put, range_lines}
use tokenjuice_hermes.Store.Fetch.{range_lines_bounds}
use tokenjuice_hermes.Store.Handles.{Bytes, Runtime, is_valid_handle}
use tokenjuice_hermes.Store.Maintenance.{sweep, sweep_by_size, stored_size}
use tokenjuice_hermes.Store.Ownership.{BlobWrite, blob_write, put_blob, key_references, new_row}
use tokenjuice_hermes.Store.Sweep.{sweep_lem, put_blob-sweep_loses, sweep_by_size_counts_missing}
use tokenjuice_hermes.Store.Tables.{
  BlobRow, OwnershipRow, Database, is_live, is_row_of, find_row, has_live_row, empty,
}

abbrev pub zeros : Text
zeros = codes "000000000000"

pub zeros_valid : (raw : Bytes) → is_valid_handle (take 12 (zeros ++ raw)) ≡ true
unfolding is_valid_handle
zeros_valid raw = refl

abbrev pub test_runtime : Runtime
test_runtime = record {
  sha256_hex = λ raw. zeros ++ raw;
  encode = λ t. some t;
  decode = λ raw. some raw;
  is_alnum = λ c. true;
  decode-encode = λ t raw e. sym e;
  sha256_hex-is_valid_handle = zeros_valid;
}

pub digest_inj : (a b : Bytes) → zeros ++ a ≡ zeros ++ b → a ≡ b
digest_inj a b e = ap (drop 12) e

abbrev pub fresh : StoreState
fresh = record { opened = true; db = empty }

abbrev pub stored : StoreState
stored = (put test_runtime default_config (codes "hello") (codes "terminal") (codes "s") 7 fresh).1

-- The row of the session `a`, the write that made it and the database with it.
abbrev first_blob : BlobWrite
first_blob = blob_write test_runtime (codes "hello") (codes "a") (codes "terminal")

abbrev after_put : Database
after_put = (put_blob test_runtime first_blob 7 empty).1

abbrev after_sweep : Database
after_sweep = sweep 10 100 1000 500 after_put

key_references-was_put_example : was_put (codes "a") zeros ((codes "a", zeros) ∷ []) ≡ true
unfolding put_blob blob_write text_eq
key_references-was_put_example =
    key_references-was_put test_runtime ((codes "a", zeros) ∷ []) after_sweep (codes "a") zeros
      (Reach.sweeping 10 100 1000 500 (Reach.put first_blob 7 Reach.start))
      (unfold key_references sweep in refl)

sweep_lem_example :
    All
      (λ row. (is_live row.state && ltb 100 (200 - row.created_at)) ≡ false)
      (sweep 200 100 1000 500 after_put).ownership
    × (get zeros (sweep 200 100 1000 500 after_put).files ≡ (
        if has_key zeros after_put.blobs
          && not (has_live_row zeros (sweep 200 100 1000 500 after_put).ownership)
        then none
        else get zeros after_put.files))
sweep_lem_example = sweep_lem 200 100 1000 500 after_put zeros

-- The content that was put at 7 is put again at 150 and lost at 151, with a time to live of 100.
put_blob-sweep_loses_example :
    key_references test_runtime zeros
      (codes "a")
      (sweep 151 100 1000 500 (put_blob test_runtime first_blob 150 after_put).1)
    ≡ false
unfolding blob_write put_blob text_eq find_row is_row_of
put_blob-sweep_loses_example =
    put_blob-sweep_loses test_runtime first_blob 150 151 100 1000 500 after_put refl
      (λ e. ground (arith, e)) (refl, tt)

abbrev old_blob : BlobRow
old_blob = record { full_hash = zeros; size = 60; created_at = 1 }

abbrev new_blob : BlobRow
new_blob = record { full_hash = zeros; size = 150; created_at = 2 }

abbrev two_blobs : List (Text × BlobRow)
two_blobs = (codes "new", new_blob) ∷ []

abbrev new_files : Dict Bytes
new_files = (codes "new", codes "x") ∷ []

abbrev new_rows : List OwnershipRow
new_rows = new_row (record first_blob { handle = codes "new" }) 2 ∷ []

-- 150 bytes are there, 100 are allowed, and nothing is given up.
sweep_by_size_counts_missing_example :
    sweep_by_size 3 100
      (stored_size new_files ((codes "old", old_blob) ∷ two_blobs))
      ((codes "old", old_blob) ∷ two_blobs)
      new_rows
    ≡ new_rows
unfolding text_eq
sweep_by_size_counts_missing_example =
    sweep_by_size_counts_missing 3 100 (codes "old") old_blob two_blobs new_rows new_files
      (unfold has_key in refl) (unfold has_live_row in refl) (unfold stored_size in omega arith)

abbrev three_lines : List Text
three_lines = codes "one" ∷ codes "two" ∷ codes "three" ∷ []

range_lines_bounds_example :
    (before : List Text) × (after : List Text) × (three_lines
      ≡ before ++ (range_lines three_lines 1 5 ++ after))
    × (0 < length (range_lines three_lines 1 5))
    × (length (range_lines three_lines 1 5) ≤ 5)
    × (((1 < 3) × (length before ≡ 1) × ((length (range_lines three_lines 1 5) ≡ 5) ⊎ (after ≡ [])))
        ⊎ ((3 ≤ 1) × (after ≡ []) × ((length (range_lines three_lines 1 5) ≡ 5) ⊎ (before ≡ []))))
range_lines_bounds_example = range_lines_bounds three_lines 1 5 (omega arith)

-- Two legacy indexes: one with a live entry for the stored content, and one that is an empty object.
abbrev live_entry : JsonValue
live_entry = object (
    field (codes "t") (scalar (int (pos 3))) (
      field (codes "hash") (scalar (str (zeros ++ codes "hello")))
        (field (codes "size") (scalar (int (pos 5))) end)))

abbrev live_index : JsonValue
live_index = object (field (codes "blobs") (object (field zeros live_entry end)) end)

abbrev int_value : JsonValue → Outcome ℤ
int_value (scalar (int i)) = ok i
int_value v = raise type_error

abbrev time_value : JsonValue → Outcome ℕ
time_value (scalar (int i)) = ok (clamp_zero i)
time_value v = raise type_error

abbrev text_value : JsonValue → Text
text_value (scalar (str s)) = s
text_value v = []

abbrev pub legacy : LegacyRuntime
legacy = record {
  loads = λ t.
      if text_eq t (codes "live")
      then some live_index
      else if text_eq t (codes "{}")
      then some (object end)
      else none;
  int_of = int_value;
  float_of = time_value;
  str_of = text_value;
}

abbrev pub with_indexes : LegacyStore
with_indexes = record {
  db = record empty { files = (zeros, codes "hello") ∷ [] };
  meta_files =
      (codes "b.json", codes "{}")
      ∷ (codes "notes", codes "x")
      ∷ (codes "a.json", codes "live")
      ∷ [];
  quarantine = [];
  migrated = false;
}

references_a :
    key_references test_runtime zeros
      (codes "a")
      (migrate_legacy_indexes test_runtime legacy 7 with_indexes).1.db
    ≡ true
unfolding migrate_legacy_indexes migrate_files migrate_file migrate_index migrate_entries
    migrate_entry migrate_live put_legacy put_blob get_or stem is_live_entry is_blank_file
    read_idx_file key_references text_eq index_files entries starts_with strip
references_a = refl

migrated_ok : (migrate_legacy_indexes test_runtime legacy 7 with_indexes).0 ≡ ok tt
unfolding migrate_legacy_indexes migrate_files migrate_file migrate_index migrate_entries
    migrate_entry migrate_live put_legacy put_blob get_or stem is_live_entry is_blank_file
    read_idx_file key_references text_eq index_files entries starts_with strip
migrated_ok = refl

migrate_legacy_indexes-lists_example :
    (has_live (codes "a") zeros []
      || lists test_runtime legacy (codes "a") zeros (index_files with_indexes.meta_files))
    ≡ true
migrate_legacy_indexes-lists_example =
    migrate_legacy_indexes-lists test_runtime legacy 7 with_indexes (codes "a") zeros references_a

migrate_legacy_indexes-migrated_example :
    (migrate_legacy_indexes test_runtime legacy 7 with_indexes).1.migrated
    ≡ all (is_done_with test_runtime legacy) (index_files with_indexes.meta_files)
migrate_legacy_indexes-migrated_example =
    migrate_legacy_indexes-migrated test_runtime legacy 7 with_indexes refl migrated_ok

-- A blob of five bytes, and a file that is no blob, in a store that may have none.
abbrev old_store : LegacyState
old_store = record {
  indexes = [];
  blobs = (zeros, (1, codes "hello")) ∷ (codes "notes", (2, codes "x")) ∷ [];
}

sweep_by_size_all_example :
    get zeros (LegacySweep.sweep_by_size 9 0 old_store).blobs
    ≡ (if is_valid_handle zeros then none else get zeros old_store.blobs)
sweep_by_size_all_example =
    sweep_by_size_all 9 0 old_store zeros (unfold sum_by keep is_valid_handle in omega arith)
