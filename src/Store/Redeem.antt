-- ===== src/Store/Redeem.antt =====
-- rescue_sqlite.py and rescue_store.py: what was put is redeemed. The store meets the interface that
-- the structured pruning takes.
use tokenjuice_hermes.BlobStore.{BlobStore}
use tokenjuice_hermes.Common.{
  Text, text_eq, text_eq_iff, ℕ, ◌≡◌, ◌≢◌, refl, sym, ap, ◌∙◌, Bool, true, false, ◌&&◌, ◌||◌, not,
  Option, none, some, [], take, ok, get, get-put, is_empty, Bool-cases, Option-cases, Outcome-cases,
  inl, inr, arith,
}
use tokenjuice_hermes.Store.Blobs.{StoreConfig, StoreState}
use tokenjuice_hermes.Store.Blobs
use tokenjuice_hermes.Store.Handles.{Bytes, Runtime, is_valid_handle, safe_sid}
use tokenjuice_hermes.Store.Ownership.{
  BlobWrite, put_blob, with_file, insert_rows, matches, write_file, blob_write, put_content,
  key_references, is_other_blob,
}
use tokenjuice_hermes.Store.Rows.{find_row-upsert_self}
use tokenjuice_hermes.Store.Tables.{BlobRow, Database, blob_matches}

module _ (runtime : Runtime) where
  open runtime use {sha256_hex, encode, decode, decode-encode, sha256_hex-is_valid_handle}

  -- The blob row, if there is one, is that of the blob.
  abbrev IsSame : BlobWrite → Option BlobRow → Type 0
  IsSame blob none = Unit {0}
  IsSame blob (some row) = is_other_blob blob row ≡ false

  insert_rows-references :
      (blob : BlobWrite) (now : ℕ) (db : Database) (o : Option BlobRow)
      → get blob.handle db.blobs ≡ o
      → IsSame blob o
      → matches runtime blob db ≡ true
      → key_references runtime blob.handle blob.session_key (insert_rows blob now db) ≡ true
  insert_rows-references blob now db none e same m =
      let (row, found, lives) = find_row-upsert_self blob now db.ownership in
      let there =
        get-put blob.handle blob.handle
          (record { full_hash = blob.full_hash; size = blob.size; created_at = now }) db.blobs in
      unfold key_references insert_rows in
      ground (arith, e, m, found, lives, there, text_eq_iff blob.handle blob.handle)
  insert_rows-references blob now db (some b) e same m =
      let (row, found, lives) = find_row-upsert_self blob now db.ownership in
      unfold key_references insert_rows in
      ground (arith, e, same, m, found, lives, text_eq_iff b.full_hash blob.full_hash)

  with_file-references :
      (blob : BlobWrite) (known : Bool) (now : ℕ) (db : Database) (o : Option BlobRow)
      → get blob.handle db.blobs ≡ o
      → IsSame blob o
      → (with_file runtime blob known now db).0 ≡ true
      → key_references runtime blob.handle blob.session_key (with_file runtime blob known now db).1
        ≡ true
  with_file-references blob known now db o e same accepted =
      elim (Bool-cases (known && matches runtime blob db)) [
        | inl m ↦
            let m' : matches runtime blob db ≡ true = ground arith in
            let there = insert_rows-references blob now db o e same m' in
            unfold with_file in ground (arith, m, there)
        | inr m ↦ elim (Bool-cases (matches runtime blob (write_file runtime blob db))) [
          | inl w ↦
              let there =
                insert_rows-references blob now (write_file runtime blob db) o
                  (unfold write_file in e) same w in
              unfold with_file in ground (arith, m, w, there)
          | inr w ↦ absurd (unfold with_file in ground (arith, m, w))
        ]
      ]

  -- The file holds the very bytes, given that no two byte strings have one digest.
  with_file-file :
      (blob : BlobWrite) (known : Bool) (now : ℕ) (db : Database)
      → ((a b : Bytes) → sha256_hex a ≡ sha256_hex b → a ≡ b)
      → blob.full_hash ≡ sha256_hex blob.raw
      → (with_file runtime blob known now db).0 ≡ true
      → get blob.handle (with_file runtime blob known now db).1.files ≡ some blob.raw
  with_file-file blob known now db unique hash accepted =
      elim (Bool-cases (known && matches runtime blob db)) [
        | inl m ↦ elim (Option-cases (get blob.handle db.files)) [
          | inl f ↦ absurd (unfold blob_matches in ground (arith, m, f))
          | inr (raw, f) ↦
              let same : text_eq (sha256_hex raw) blob.full_hash ≡ true =
                unfold blob_matches in ground (arith, m, f) in
              let one =
                unique raw blob.raw ((text_eq_iff (sha256_hex raw) blob.full_hash).0 same ∙ hash) in
              unfold with_file insert_rows in ground (arith, m, f, one)
        ]
        | inr m ↦
            let there = get-put blob.handle blob.handle blob.raw db.files in
            elim (Bool-cases (matches runtime blob (write_file runtime blob db))) [
              | inl w ↦
                  unfold with_file write_file insert_rows in
                  ground (arith, m, w, there, text_eq_iff blob.handle blob.handle)
              | inr w ↦ absurd (unfold with_file in ground (arith, m, w))
            ]
      ]

  pub put_blob-references :
      (blob : BlobWrite) (now : ℕ) (db : Database)
      → (put_blob runtime blob now db).0 ≡ true
      → key_references runtime blob.handle blob.session_key (put_blob runtime blob now db).1 ≡ true
  put_blob-references blob now db accepted = elim (Option-cases (get blob.handle db.blobs)) [
    | inl e ↦
        let there = with_file-references blob false now db none e tt in
        unfold put_blob in ground (arith, e, there)
    | inr (row, e) ↦ elim (Bool-cases (is_other_blob blob row)) [
      | inl other ↦ absurd (unfold put_blob in ground (arith, e, other))
      | inr same ↦
          let there = with_file-references blob true now db (some row) e same in
          unfold put_blob in ground (arith, e, same, there)
    ]
  ]

  put_blob-file :
      (blob : BlobWrite) (now : ℕ) (db : Database)
      → ((a b : Bytes) → sha256_hex a ≡ sha256_hex b → a ≡ b)
      → blob.full_hash ≡ sha256_hex blob.raw
      → (put_blob runtime blob now db).0 ≡ true
      → get blob.handle (put_blob runtime blob now db).1.files ≡ some blob.raw
  put_blob-file blob now db unique hash accepted = elim (Option-cases (get blob.handle db.blobs)) [
    | inl e ↦
        let there = with_file-file blob false now db unique hash in
        unfold put_blob in ground (arith, e, there)
    | inr (row, e) ↦ elim (Bool-cases (is_other_blob blob row)) [
      | inl other ↦ absurd (unfold put_blob in ground (arith, e, other))
      | inr same ↦
          let there = with_file-file blob true now db unique hash in
          unfold put_blob in ground (arith, e, same, there)
    ]
  ]

  -- A put that gives a handle stored the encoded content under it, for the session's key.
  put_content-inv :
      (content tool session handle : Text) (now : ℕ) (db : Database)
      → (put_content runtime content tool session now db).0 ≡ ok handle
      → (raw : Bytes) × (key : Text) × (encode content ≡ some raw)
        × (safe_sid runtime session ≡ ok key)
        × (handle ≡ take 12 (sha256_hex raw))
        × ((put_blob runtime (blob_write runtime raw key tool) now db).0 ≡ true)
        × ((put_content runtime content tool session now db).1
            ≡ (put_blob runtime (blob_write runtime raw key tool) now db).1)
  put_content-inv content tool session handle now db h = elim (Option-cases (encode content)) [
    | inl e ↦ absurd (unfold put_content in ground (arith, e))
    | inr (raw, e) ↦ elim (Outcome-cases (safe_sid runtime session)) [
      | inl (error, f) ↦ absurd (unfold put_content in ground (arith, e, f))
      | inr (key, f) ↦
          let blob = blob_write runtime raw key tool in
          elim (Bool-cases (put_blob runtime blob now db).0) [
            | inr g ↦ absurd (unfold put_content in ground (arith, e, f, g))
            | inl g ↦ (
              raw,
              key,
              e,
              f,
              unfold put_content in ground (arith, e, f, g),
              g,
              unfold put_content in ground (arith, e, f, g),
            )
          ]
    ]
  ]

module _ (runtime : Runtime) (config : StoreConfig) (now : ℕ) where
  open runtime use {sha256_hex, encode, decode, decode-encode, sha256_hex-is_valid_handle}

  references_of :
      (handle key session : Text) (s : StoreState)
      → is_empty session ≡ false
      → s.opened ≡ true
      → is_valid_handle handle ≡ true
      → safe_sid runtime session ≡ ok key
      → key_references runtime handle key s.db ≡ true
      → Blobs.session_references runtime config handle session s ≡ ok true
  references_of handle key session s a b c d e = unfold Blobs.session_references in ground arith

  text_of :
      (handle : Text) (raw : Bytes) (content : Text) (s : StoreState)
      → is_valid_handle handle ≡ true
      → get handle s.db.files ≡ some raw
      → decode raw ≡ some content
      → Blobs.blob_text runtime config handle s ≡ some content
  text_of handle raw content s a b c = unfold Blobs.blob_text in ground arith

  -- A handle that `put` gives, one that is not empty, is the session's, and redeems the very content,
  -- given that no two byte strings have one digest.
  pub put_redeems :
      (content tool session handle : Text) (s s' : StoreState)
      → ((a b : Bytes) → sha256_hex a ≡ sha256_hex b → a ≡ b)
      → Blobs.put runtime config content tool session now s ≡ (ok handle, s')
      → handle ≢ []
      → (Blobs.session_references runtime config handle session s' ≡ ok true)
        × (Blobs.blob_text runtime config handle s' ≡ some content)
  put_redeems content tool session handle s s' unique h given =
      elim (Bool-cases (is_empty session || not s.opened)) [
        | inl e ↦ absurd (given (unfold Blobs.put in ground (arith, e)))
        | inr e ↦
            let made : (put_content runtime content tool session now s.db).0 ≡ ok handle =
              unfold Blobs.put in ground (arith, e) in
            let state : record s { db = (put_content runtime content tool session now s.db).1 }
                ≡ s' =
              unfold Blobs.put in ground (arith, e) in
            let (raw, key, encoded, sid, name, accepted, db) =
              put_content-inv runtime content tool session handle now s.db made in
            let blob = blob_write runtime raw key tool in
            let there = put_blob-references runtime blob now s.db accepted in
            let file =
              put_blob-file runtime blob now s.db unique (unfold blob_write in refl) accepted in
            let valid = sha256_hex-is_valid_handle raw in
            let back = decode-encode content raw encoded in
            let open_ : s'.opened ≡ true = ground (arith, e, state) in
            let db' : s'.db ≡ (put_blob runtime blob now s.db).1 =
              sym (ap (λ (x : StoreState). x.db) state) ∙ db in
            (
              references_of handle key session s' (ground (arith, e)) open_ (rw name valid) sid
                  (rw (db', name) (unfold blob_write in there)),
              text_of handle raw content s' (rw name valid)
                  (rw (db', name) (unfold blob_write in file)) back,
            )
      ]

-- The store as the interface that the structured pruning and the expansion of handles take, for a call
-- at one time.
module _ (runtime : Runtime) (config : StoreConfig) (now : ℕ)
    (unique : (a b : Bytes) → runtime.sha256_hex a ≡ runtime.sha256_hex b → a ≡ b) where
  abbrev pub sqlite_store : BlobStore
  sqlite_store = record {
    State = StoreState;
    put = λ content tool session s. Blobs.put runtime config content tool session now s;
    blob_text = Blobs.blob_text runtime config;
    has_blob = Blobs.has_blob runtime config;
    session_references = Blobs.session_references runtime config;
    put_redeems = λ content tool session handle s s' h given.
        put_redeems runtime config now content tool session handle s s' unique h given;
  }
