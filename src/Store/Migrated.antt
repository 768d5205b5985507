-- ===== src/Store/Migrated.antt =====
-- rescue_sqlite_migration.py: whom the migration of the legacy indexes lets redeem a handle, and when it is
-- over.
use tokenjuice_hermes.Common.{
  Text, text_eq, text_eq_iff, ℕ, ◌≡◌, refl, subst, Bool, true, false, ◌&&◌, ◌||◌, not, Option, none,
  some, List, [], ◌∷◌, Outcome, ok, raise, Outcome-cases, Dict, get, any, All, All-append, All-keep,
  is_empty, keep, length, ◌==◌, has_key, starts_with, ℤ, pos, clamp_zero, Bool-cases, Option-cases,
  inl, inr, arith, if◌then◌else◌, codes,
}
use tokenjuice_hermes.Json.{
  JsonValue, JsonObject, scalar, array, object, null, bool, int, float, str, entries,
}
use tokenjuice_hermes.Store.Authorization.{live_blob-live, put_blob-rows}
use tokenjuice_hermes.Store.Handles.{Bytes, Runtime}
use tokenjuice_hermes.Store.Legacy.{
  LegacyRuntime, LegacyStore, is_live_entry, read_idx_file, is_blank_file, insert_tombstone,
  put_legacy, migrate_live, migrate_entry, migrate_entries, migrate_index, migrate_file,
  migrate_files, migrate_legacy_indexes, index_files, stem, after_files, get_or, legacy_row,
  legacy_matches,
}
use tokenjuice_hermes.Store.Ownership.{BlobWrite, put_blob, key_references}
use tokenjuice_hermes.Store.Rows.{All-upsert, All-find_row}
use tokenjuice_hermes.Store.Tables.{OwnershipRow, Database, is_live, is_row_of}

-- The session has a live row for the handle.
unfoldable pub has_live : Text → Text → List OwnershipRow → Bool
unfolding any is_row_of
has_live session_key handle rows =
    any (λ row. is_row_of session_key handle row && is_live row.state) rows

-- A live entry of an index, and the handles for which there is one.
abbrev is_live_value : JsonValue → Bool
is_live_value (object fs) = is_live_entry (entries fs)
is_live_value v = false

unfoldable pub lists_entry : Text → JsonObject → Bool
unfolding any text_eq
lists_entry handle blobs = any (λ entry. text_eq entry.0 handle && is_live_value entry.1) blobs

abbrev lists_blobs : Text → Option JsonValue → Bool
lists_blobs handle (some (object fs)) = lists_entry handle (entries fs)
lists_blobs handle v = false

module _ (runtime : Runtime) (legacy : LegacyRuntime) where
  unfoldable pub lists_file : Text → Bytes → Bool
  unfolding get
  lists_file handle raw = elim (read_idx_file runtime legacy raw) [
    | raise e ↦ false
    | ok idx ↦ lists_blobs handle (get (codes "blobs") idx)
  ]

  -- An index file of the session has a live entry for the handle.
  unfoldable pub lists : Text → Text → Dict Bytes → Bool
  unfolding any text_eq
  lists session_key handle files =
      any (λ file. text_eq (stem file.0) session_key && lists_file handle file.1) files

  module _ (allowed : Text → Text → Bool) where
    -- A live row is one that is allowed.
    abbrev Allowed : OwnershipRow → Type 0
    Allowed row = (is_live row.state && not (allowed row.session_key row.handle)) ≡ false

    put_blob-Allowed :
        (blob : BlobWrite) (now : ℕ) (db : Database)
        → allowed blob.session_key blob.handle ≡ true
        → All Allowed db.ownership
        → All Allowed (put_blob runtime blob now db).1.ownership
    put_blob-Allowed blob now db a ps = elim (Bool-cases (put_blob runtime blob now db).0) [
      | inl e ↦
          rw (put_blob-rows runtime blob now db, e)
            (All-upsert Allowed blob now db.ownership (ground (arith, a))
              (λ row p same.
                unfold is_row_of in
                ground (
                  arith,
                  a,
                  same,
                  text_eq_iff row.session_key blob.session_key,
                  text_eq_iff row.handle blob.handle,
                ))
              ps)
      | inr e ↦ rw (put_blob-rows runtime blob now db, e) ps
    ]

    put_legacy-Allowed :
        (k h full_hash : Text) (size : ℤ) (tool : Text) (now : ℕ) (db : Database)
        → allowed k h ≡ true
        → All Allowed db.ownership
        → All Allowed (put_legacy runtime legacy k h full_hash size tool now db).1.ownership
    put_legacy-Allowed k h full_hash size tool now db a ps = elim (Option-cases (get h db.files)) [
      | inl e ↦ unfold put_legacy in rw (e, put_legacy) ps
      | inr (raw, e) ↦ elim (Bool-cases (length h == 12)) [
        | inl f ↦
            let blob : BlobWrite = record {
              raw = raw;
              handle = h;
              full_hash = full_hash;
              size = clamp_zero size;
              session_key = k;
              tool_name = tool;
            } in
            let put = put_blob-Allowed blob now db a ps in
            unfold put_legacy in rw (e, f, put_legacy) put
        | inr f ↦ unfold put_legacy in rw (e, f, put_legacy) ps
      ]
    ]

    insert_tombstone-Allowed :
        (k h : Text) (entry : JsonObject) (db : Database)
        → All Allowed db.ownership
        → All Allowed (insert_tombstone runtime legacy k h entry db).1.ownership
    insert_tombstone-Allowed k h entry db ps =
        elim (Outcome-cases
          (legacy.float_of (get_or (codes "swept_at") (scalar (int (pos 0))) entry))) [
            | inl (x, e) ↦ unfold insert_tombstone in rw (e, insert_tombstone) ps
            | inr (now, e) ↦
                elim (Outcome-cases
                  (legacy.int_of (get_or (codes "size") (scalar (int (pos 0))) entry))) [
                    | inl (x, f) ↦ unfold insert_tombstone in rw (e, f, insert_tombstone) ps
                    | inr (size, f) ↦
                        let kept =
                          All-keep Allowed (λ row. not (is_row_of k h row)) db.ownership ps in
                        let added =
                          All-append Allowed (keep (λ row. not (is_row_of k h row)) db.ownership)
                            (legacy_row k h
                                (legacy.str_of (get_or (codes "tool") (scalar (str [])) entry))
                                (clamp_zero size) now
                              ∷ [])
                            kept (refl, tt) in
                        unfold insert_tombstone in rw (e, f, insert_tombstone) added
                  ]
          ]

    migrate_live-Allowed :
        (k h : Text) (entry : JsonObject) (now : ℕ) (db : Database)
        → allowed k h ≡ true
        → All Allowed db.ownership
        → All Allowed (migrate_live runtime legacy k h entry now db).1.ownership
    migrate_live-Allowed k h entry now db a ps =
        elim (Outcome-cases (legacy.int_of (get_or (codes "size") (scalar (int (pos 0))) entry))) [
          | inl (x, e) ↦ unfold migrate_live in rw (e, migrate_live) ps
          | inr (size, e) ↦
              let full_hash = legacy.str_of (get_or (codes "hash") (scalar (str [])) entry) in
              elim (Bool-cases (
                has_key h db.files
                && starts_with full_hash h
                && legacy_matches runtime legacy db.files h full_hash size)) [
                  | inl f ↦
                      let put =
                        put_legacy-Allowed k h full_hash size
                          (legacy.str_of (get_or (codes "tool") (scalar (str [])) entry)) now db a
                          ps in
                      unfold migrate_live in rw (e, f, migrate_live) put
                  | inr f ↦ unfold migrate_live in rw (e, f, migrate_live) ps
                ]
        ]

    migrate_entry-Allowed :
        (k h : Text) (entry : JsonValue) (now : ℕ) (db : Database)
        → (is_live_value entry ≡ true → allowed k h ≡ true)
        → All Allowed db.ownership
        → All Allowed (migrate_entry runtime legacy k h entry now db).1.ownership
    migrate_entry-Allowed k h (object fs) now db a ps =
        elim (Bool-cases (is_live_entry (entries fs))) [
          | inl e ↦
              let live_one = migrate_live-Allowed k h (entries fs) now db (a e) ps in
              unfold migrate_entry in rw (e, migrate_entry) live_one
          | inr e ↦
              let swept_one = insert_tombstone-Allowed k h (entries fs) db ps in
              unfold migrate_entry in rw (e, migrate_entry) swept_one
        ]
    migrate_entry-Allowed k h (array vs) now db a ps = unfold migrate_entry in ps
    migrate_entry-Allowed k h (scalar null) now db a ps = unfold migrate_entry in ps
    migrate_entry-Allowed k h (scalar (bool b)) now db a ps = unfold migrate_entry in ps
    migrate_entry-Allowed k h (scalar (int i)) now db a ps = unfold migrate_entry in ps
    migrate_entry-Allowed k h (scalar (float x)) now db a ps = unfold migrate_entry in ps
    migrate_entry-Allowed k h (scalar (str s)) now db a ps = unfold migrate_entry in ps

    migrate_entries-Allowed :
        (k : Text) (blobs : JsonObject) (now : ℕ) (db : Database)
        → ((h : Text) → lists_entry h blobs ≡ true → allowed k h ≡ true)
        → All Allowed db.ownership
        → All Allowed (migrate_entries runtime legacy k blobs now db).1.ownership
    migrate_entries-Allowed k [] now db a ps = unfold migrate_entries in ps
    migrate_entries-Allowed k ((h, entry) ∷ blobs) now db a ps =
        let mine : is_live_value entry ≡ true → allowed k h ≡ true =
          λ l. a h (unfold lists_entry any in ground (arith, l, text_eq_iff h h)) in
        let others : (j : Text) → lists_entry j blobs ≡ true → allowed k j ≡ true =
          λ j l. a j (unfold lists_entry any in ground (arith, l)) in
        let first = migrate_entry-Allowed k h entry now db mine ps in
        elim (Outcome-cases (migrate_entry runtime legacy k h entry now db).0) [
          | inl (x, e) ↦ unfold migrate_entries in rw (e, migrate_entries) first
          | inr (u, e) ↦
              let rest =
                migrate_entries-Allowed k blobs now
                  (migrate_entry runtime legacy k h entry now db).1 others first in
              let same : migrate_entries runtime legacy k ((h, entry) ∷ blobs) now db
                  ≡ migrate_entries runtime legacy k blobs now
                      (migrate_entry runtime legacy k h entry now db).1 =
                unfold migrate_entries in rw (e, migrate_entries) refl in
              rw same rest
        ]

    -- An index whose entries are no object raises before it changes anything.
    at_blobs :
        (k : Text) (idx : JsonObject) (now : ℕ) (db : Database) (blobs : Option JsonValue)
        → get (codes "blobs") idx ≡ blobs
        → ((h : Text) → lists_blobs h blobs ≡ true → allowed k h ≡ true)
        → All Allowed db.ownership
        → All Allowed (migrate_index runtime legacy k idx now db).1.ownership
    at_blobs k idx now db none e a ps = unfold migrate_index in rw (e, migrate_index) ps
    at_blobs k idx now db (some (object fs)) e a ps =
        let migrated = migrate_entries-Allowed k (entries fs) now db a ps in
        unfold migrate_index in rw (e, migrate_index) migrated
    at_blobs k idx now db (some (array vs)) e a ps =
        unfold migrate_index in rw (e, migrate_index) ps
    at_blobs k idx now db (some (scalar v)) e a ps =
        unfold migrate_index in rw (e, migrate_index) ps

    migrate_index-Allowed :
        (k : Text) (idx : JsonObject) (now : ℕ) (db : Database)
        → ((h : Text) → lists_blobs h (get (codes "blobs") idx) ≡ true → allowed k h ≡ true)
        → All Allowed db.ownership
        → All Allowed (migrate_index runtime legacy k idx now db).1.ownership
    migrate_index-Allowed k idx now db a ps =
        at_blobs k idx now db (get (codes "blobs") idx) refl a ps

    migrate_file-Allowed :
        (name : Text) (raw : Bytes) (now : ℕ) (st : LegacyStore)
        → ((h : Text) → lists_file h raw ≡ true → allowed (stem name) h ≡ true)
        → All Allowed st.db.ownership
        → All Allowed (migrate_file runtime legacy name raw now st).1.db.ownership
    migrate_file-Allowed name raw now st a ps =
        elim (Outcome-cases (read_idx_file runtime legacy raw)) [
          | inl (x, e) ↦ unfold migrate_file in rw (e, migrate_file) ps
          | inr (idx, e) ↦
              let listed : (h : Text)
                  → lists_blobs h (get (codes "blobs") idx) ≡ true
                  → allowed (stem name) h ≡ true =
                λ h l. a h (unfold lists_file in rw (e, lists_file) l) in
              let migrated = migrate_index-Allowed (stem name) idx now st.db listed ps in
              elim (Bool-cases (is_empty idx && not (is_blank_file runtime legacy raw))) [
                | inl f ↦ unfold migrate_file in rw (e, f, migrate_file) ps
                | inr f ↦
                    elim (Outcome-cases
                      (migrate_index runtime legacy (stem name) idx now st.db).0) [
                        | inl (x, g) ↦ unfold migrate_file in rw (e, f, g, migrate_file) migrated
                        | inr (u, g) ↦ unfold migrate_file in rw (e, f, g, migrate_file) migrated
                      ]
              ]
        ]

    migrate_files-Allowed :
        (files : Dict Bytes) (completed : Bool) (now : ℕ) (st : LegacyStore)
        → ((k h : Text) → lists k h files ≡ true → allowed k h ≡ true)
        → All Allowed st.db.ownership
        → All Allowed (migrate_files runtime legacy files completed now st).1.db.ownership
    migrate_files-Allowed [] completed now st a ps = unfold migrate_files in ps
    migrate_files-Allowed ((name, raw) ∷ files) completed now st a ps =
        let mine : (h : Text) → lists_file h raw ≡ true → allowed (stem name) h ≡ true = λ h l.
          a (stem name) h
            (unfold lists any in ground (arith, l, text_eq_iff (stem name) (stem name))) in
        let others : (k h : Text) → lists k h files ≡ true → allowed k h ≡ true =
          λ k h l. a k h (unfold lists any in ground (arith, l)) in
        let first = migrate_file-Allowed name raw now st mine ps in
        elim (Outcome-cases (migrate_file runtime legacy name raw now st).0) [
          | inl (x, e) ↦ unfold migrate_files in rw (e, migrate_files) first
          | inr (done, e) ↦
              let rest =
                migrate_files-Allowed files (completed && done) now
                  (migrate_file runtime legacy name raw now st).1 others first in
              let same : migrate_files runtime legacy ((name, raw) ∷ files) completed now st
                  ≡ migrate_files runtime legacy files (completed && done) now
                      (migrate_file runtime legacy name raw now st).1 =
                unfold migrate_files in rw (e, migrate_files) refl in
              rw same rest
        ]

    after_files-Allowed :
        (r : Outcome Bool × LegacyStore)
        → All Allowed r.1.db.ownership
        → All Allowed (after_files r).1.db.ownership
    after_files-Allowed (raise e, st) ps = ps
    after_files-Allowed (ok true, st) ps = ps
    after_files-Allowed (ok false, st) ps = ps

    if-Allowed :
        (b : Bool) (x y : Outcome {0} Unit × LegacyStore)
        → All Allowed x.1.db.ownership
        → All Allowed y.1.db.ownership
        → All Allowed (if b then x else y).1.db.ownership
    if-Allowed true x y ps qs = ps
    if-Allowed false x y ps qs = qs

    migrate-Allowed :
        (now : ℕ) (st : LegacyStore)
        → ((k h : Text) → lists k h (index_files st.meta_files) ≡ true → allowed k h ≡ true)
        → All Allowed st.db.ownership
        → All Allowed (migrate_legacy_indexes runtime legacy now st).1.db.ownership
    migrate-Allowed now st a ps =
        let done = migrate_files runtime legacy (index_files st.meta_files) true now st in
        let all_files = migrate_files-Allowed (index_files st.meta_files) true now st a ps in
        unfold migrate_legacy_indexes in
        if-Allowed st.migrated (ok tt, st) (after_files done) ps
          (after_files-Allowed done all_files)

  has_live-Allowed :
      (p : Text → Text → Bool) (rows : List OwnershipRow)
      → ((k h : Text) → has_live k h rows ≡ true → p k h ≡ true)
      → All (Allowed p) rows
  has_live-Allowed p [] a = tt
  has_live-Allowed p (row ∷ rows) a =
      let others : (k h : Text) → has_live k h rows ≡ true → p k h ≡ true =
        λ k h l. a k h (unfold has_live any in ground (arith, l)) in
      let mine : is_live row.state ≡ true → p row.session_key row.handle ≡ true = λ l.
        a row.session_key row.handle (
          unfold has_live any is_row_of in
          ground (
            arith,
            l,
            text_eq_iff row.session_key row.session_key,
            text_eq_iff row.handle row.handle,
          )) in
      (ground (arith, mine), has_live-Allowed p rows others)

  -- After a migration, whether it ends well or raises, a session references a handle only where it had a
  -- live row for it before, or an index file of that session has a live entry for it.
  pub migrate_legacy_indexes-lists :
      (now : ℕ) (st : LegacyStore) (k h : Text)
      → key_references runtime h k (migrate_legacy_indexes runtime legacy now st).1.db ≡ true
      → (has_live k h st.db.ownership || lists k h (index_files st.meta_files)) ≡ true
  migrate_legacy_indexes-lists now st k h e =
      let p : Text → Text → Bool =
        λ k h. has_live k h st.db.ownership || lists k h (index_files st.meta_files) in
      let db = (migrate_legacy_indexes runtime legacy now st).1.db in
      let rows =
        migrate-Allowed p now st (λ k h l. ground (arith, l))
          (has_live-Allowed p st.db.ownership (λ k h l. ground (arith, l))) in
      let (row, found, lives) = live_blob-live runtime k h db e in
      let (allowed, key, handle) = All-find_row (Allowed p) k h db.ownership row found rows in
      let same : p row.session_key row.handle ≡ true = ground (arith, allowed, lives) in
      subst (λ j. p j h ≡ true) key (subst (λ i. p row.session_key i ≡ true) handle same)
