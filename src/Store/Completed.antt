-- ===== src/Store/Completed.antt =====
-- rescue_sqlite_migration.py: when the migration of the legacy indexes is over for good.
use tokenjuice_hermes.Common.{
  Text, ℕ, ◌≡◌, refl, ap, sym, ◌∙◌, Bool, true, false, ◌&&◌, ◌||◌, not, [], ◌∷◌, Outcome, ok, raise,
  Outcome-cases, Dict, all, is_empty, Bool-cases, inl, inr, arith,
}
use tokenjuice_hermes.Store.Handles.{Bytes, Runtime}
use tokenjuice_hermes.Store.Legacy.{
  LegacyRuntime, LegacyStore, read_idx_file, is_blank_file, migrate_index, migrate_file,
  migrate_files, migrate_legacy_indexes, index_files, stem, after_files,
}

module _ (runtime : Runtime) (legacy : LegacyRuntime) where
  -- The file is an index that is not empty, or it is blank.
  unfoldable pub is_done_with : Text × Bytes → Bool
  is_done_with file = elim (read_idx_file runtime legacy file.1) [
    | raise e ↦ false
    | ok idx ↦ not (is_empty idx) || is_blank_file runtime legacy file.1
  ]

  -- What one file tells, and that it leaves the marker alone.
  migrate_file_lem :
      (name : Text) (raw : Bytes) (now : ℕ) (st : LegacyStore) (done : Bool)
      → (migrate_file runtime legacy name raw now st).0 ≡ ok done
      → done ≡ is_done_with (name, raw)
  migrate_file_lem name raw now st done h =
      elim (Outcome-cases (read_idx_file runtime legacy raw)) [
        | inl (x, e) ↦
            let same : (migrate_file runtime legacy name raw now st).0 ≡ raise x =
              unfold migrate_file in rw (e, migrate_file) refl in
            absurd (cc (same, h))
        | inr (idx, e) ↦
            let told : is_done_with (name, raw)
                ≡ not (is_empty idx) || is_blank_file runtime legacy raw =
              unfold is_done_with in rw (e, is_done_with) refl in
            elim (Bool-cases (is_empty idx && not (is_blank_file runtime legacy raw))) [
              | inl f ↦
                  let same : (migrate_file runtime legacy name raw now st).0 ≡ ok false =
                    unfold migrate_file in rw (e, f, migrate_file) refl in
                  ground (arith, f, told, same, h)
              | inr f ↦
                  elim (Outcome-cases (migrate_index runtime legacy (stem name) idx now st.db).0) [
                    | inl (x, g) ↦
                        let same : (migrate_file runtime legacy name raw now st).0 ≡ raise x =
                          unfold migrate_file in rw (e, f, g, migrate_file) refl in
                        absurd (cc (same, h))
                    | inr (u, g) ↦
                        let same : (migrate_file runtime legacy name raw now st).0 ≡ ok true =
                          unfold migrate_file in rw (e, f, g, migrate_file) refl in
                        ground (arith, f, told, same, h)
                  ]
            ]
      ]

  migrate_file-migrated :
      (name : Text) (raw : Bytes) (now : ℕ) (st : LegacyStore)
      → (migrate_file runtime legacy name raw now st).1.migrated ≡ st.migrated
  migrate_file-migrated name raw now st = elim (Outcome-cases (read_idx_file runtime legacy raw)) [
    | inl (x, e) ↦ unfold migrate_file in rw (e, migrate_file) refl
    | inr (idx, e) ↦ elim (Bool-cases (is_empty idx && not (is_blank_file runtime legacy raw))) [
      | inl f ↦ unfold migrate_file in rw (e, f, migrate_file) refl
      | inr f ↦ elim (Outcome-cases (migrate_index runtime legacy (stem name) idx now st.db).0) [
        | inl (x, g) ↦ unfold migrate_file in rw (e, f, g, migrate_file) refl
        | inr (u, g) ↦ unfold migrate_file in rw (e, f, g, migrate_file) refl
      ]
    ]
  ]

  migrate_files_lem :
      (files : Dict Bytes) (completed : Bool) (now : ℕ) (st : LegacyStore) (done : Bool)
      → (migrate_files runtime legacy files completed now st).0 ≡ ok done
      → done ≡ (completed && all is_done_with files)
  migrate_files_lem [] completed now st done h = unfold migrate_files all in ground (arith, h)
  migrate_files_lem ((name, raw) ∷ files) completed now st done h =
      elim (Outcome-cases (migrate_file runtime legacy name raw now st).0) [
        | inl (x, e) ↦
            let same : (migrate_files runtime legacy ((name, raw) ∷ files) completed now st).0
                ≡ raise x =
              unfold migrate_files in rw (e, migrate_files) refl in
            absurd (cc (same, h))
        | inr (one, e) ↦
            let told = migrate_file_lem name raw now st one e in
            let same : migrate_files runtime legacy ((name, raw) ∷ files) completed now st
                ≡ migrate_files runtime legacy files (completed && one) now
                    (migrate_file runtime legacy name raw now st).1 =
              unfold migrate_files in rw (e, migrate_files) refl in
            let more : (completed && one && all is_done_with files)
                ≡ (completed && all is_done_with ((name, raw) ∷ files)) =
              unfold all in ground (arith, told) in
            let rest =
              migrate_files_lem files (completed && one) now
                (migrate_file runtime legacy name raw now st).1 done
                (ap (λ r. r.0) (sym same) ∙ h) in
            rest ∙ more
      ]

  migrate_files-migrated :
      (files : Dict Bytes) (completed : Bool) (now : ℕ) (st : LegacyStore)
      → (migrate_files runtime legacy files completed now st).1.migrated ≡ st.migrated
  migrate_files-migrated [] completed now st = unfold migrate_files in refl
  migrate_files-migrated ((name, raw) ∷ files) completed now st =
      let kept = migrate_file-migrated name raw now st in
      elim (Outcome-cases (migrate_file runtime legacy name raw now st).0) [
        | inl (x, e) ↦ unfold migrate_files in rw (e, migrate_files) kept
        | inr (one, e) ↦
            let same : migrate_files runtime legacy ((name, raw) ∷ files) completed now st
                ≡ migrate_files runtime legacy files (completed && one) now
                    (migrate_file runtime legacy name raw now st).1 =
              unfold migrate_files in rw (e, migrate_files) refl in
            rw same (
              migrate_files-migrated files (completed && one) now
                (migrate_file runtime legacy name raw now st).1
              ∙ kept)
      ]

  after_files_lem :
      (r : Outcome Bool × LegacyStore) (expected : Bool)
      → ((done : Bool) → r.0 ≡ ok done → done ≡ expected)
      → r.1.migrated ≡ false
      → (after_files r).0 ≡ ok tt
      → (after_files r).1.migrated ≡ expected
  after_files_lem (raise e, st) expected told kept h = absurd (cc h)
  after_files_lem (ok true, st) expected told kept h = told true refl
  after_files_lem (ok false, st) expected told kept h = kept ∙ told false refl

  -- A migration that is not done yet and ends without raising is done then if each index file is an index
  -- that is not empty, or is blank, and otherwise it is still to be done: the next opening of the store
  -- goes through all the files again.
  pub migrate_legacy_indexes-migrated :
      (now : ℕ) (st : LegacyStore)
      → st.migrated ≡ false
      → (migrate_legacy_indexes runtime legacy now st).0 ≡ ok tt
      → (migrate_legacy_indexes runtime legacy now st).1.migrated
        ≡ all is_done_with (index_files st.meta_files)
  migrate_legacy_indexes-migrated now st fresh h =
      let files = index_files st.meta_files in
      let same : migrate_legacy_indexes runtime legacy now st
          ≡ after_files (migrate_files runtime legacy files true now st) =
        unfold migrate_legacy_indexes in rw (fresh, migrate_legacy_indexes) refl in
      rw same (
        after_files_lem (migrate_files runtime legacy files true now st) (all is_done_with files)
          (migrate_files_lem files true now st) (migrate_files-migrated files true now st ∙ fresh)
          (rw same at h))
