-- ===== src/Store/Fetch.antt =====
-- rescue_store.py: what `fetch` shows, and to whom.
use tokenjuice_hermes.Common.{
  Text, codes, text_eq, is_empty, true, some, none, refl, get, not, ◌||◌, ℕ, ◌-◌, ◌≤◌, ◌<◌, max,
  ◌+◌, ◌++◌, [], sym, ap, ◌∙◌, take, take-append-drop, drop_all, ◌≡◌, false, List, ok, Dict, ℤ,
  length, length-take, length-drop, drop, leb, Bool-cases, Option-cases, ◌⊎◌, inl, inr, arith,
}
use tokenjuice_hermes.Store.Blobs.{
  StoreConfig, StoreState, authorize, fetch, fetch_mode, fetch_full, blob_text, read_blob_text,
  session_references, range_start, range_end, range_lines,
}
use tokenjuice_hermes.Store.Handles.{Bytes, Runtime, normalize_handle, is_valid_handle}

-- A range of a text that has lines is a nonempty run of its lines, no longer than was asked for, where a
-- count of 0 asks for one line. If there are lines from the start on, the range starts there, and it is
-- as long as was asked for or goes to the end; otherwise it goes to the end, and it is as long as was
-- asked for or is all the lines.
pub range_lines_bounds :
    (lines : List Text) (start count : ℕ)
    → 0 < length lines
    → (before : List Text) × (after : List Text) × (lines
        ≡ before ++ (range_lines lines start count ++ after))
      × (0 < length (range_lines lines start count))
      × (length (range_lines lines start count) ≤ max 1 count)
      × (((start < length lines)
            × (length before ≡ start)
            × ((length (range_lines lines start count) ≡ max 1 count) ⊎ (after ≡ [])))
          ⊎ ((length lines ≤ start)
              × (after ≡ [])
              × ((length (range_lines lines start count) ≡ max 1 count) ⊎ (before ≡ []))))
unfolding range_lines range_start range_end
range_lines_bounds lines start count h =
    let first = range_start (length lines) start count in
    let n = range_end (length lines) start count - first in
    let rest = drop first lines in
    let dropped = length-drop first lines in
    let taken = length-take n rest in
    let skipped = length-take first lines in
    let split : lines ≡ take first lines ++ (take n rest ++ drop n rest) =
      sym (take-append-drop first lines)
      ∙ ap (λ r. take first lines ++ r) (sym (take-append-drop n rest)) in
    let ends = drop_all n rest in
    (
      take first lines,
      drop n rest,
      split,
      ground (arith, dropped, taken),
      ground (arith, dropped, taken),
      elim (Bool-cases (leb (length lines) start)) [
        | inr within ↦ inl (
          ground (arith, within),
          ground (arith, within, skipped),
          elim (Bool-cases (leb (start + max 1 count) (length lines))) [
            | inl e ↦ inl (ground (arith, e, within, dropped, taken))
            | inr e ↦ inr (ends (ground (arith, e, within, dropped)))
          ],
        )
        | inl past ↦ inr (
          ground (arith, past),
          ends (ground (arith, past, dropped)),
          elim (Bool-cases (leb (max 1 count) (length lines))) [
            | inl e ↦ inl (ground (arith, e, past, dropped, taken))
            | inr e ↦
                let none_before : first ≡ 0 = ground (arith, e, past) in
                inr (ap (λ k. take k lines) none_before)
          ],
        )
      ],
    )

module _ (runtime : Runtime) (config : StoreConfig) where
  -- A session learns nothing of a blob that it does not reference: with the same rows, whatever the
  -- files are, `fetch` gives the same answer.
  pub fetch_secret :
      (stored_at handle mode session : Text) (start count : ℤ) (s : StoreState) (files : Dict Bytes)
      → session_references runtime config handle session s ≡ ok false
      → session_references runtime config handle session
          (record s { db = record s.db { files = files } })
        ≡ ok false
      → fetch runtime config stored_at handle mode session start count s
        ≡ fetch runtime config stored_at handle mode session start count
            (record s { db = record s.db { files = files } })
  fetch_secret stored_at handle mode session start count s files h k =
      elim (Option-cases (normalize_handle handle)) [
        | inl e ↦ unfold fetch authorize in ground (arith, e)
        | inr (valid, e) ↦ unfold fetch authorize in ground (arith, e, h, k)
      ]

  -- What a reference says of the session and of the handle.
  session_references-inv :
      (handle session : Text) (s : StoreState)
      → session_references runtime config handle session s ≡ ok true
      → (is_empty session || not (is_valid_handle handle) || not s.opened) ≡ false
  session_references-inv handle session s h =
      elim (Bool-cases (is_empty session || not (is_valid_handle handle) || not s.opened)) [
        | inr e ↦ e
        | inl e ↦
            let same : session_references runtime config handle session s ≡ ok false =
              unfold session_references in rw e refl in
            absurd (cc (same, h))
      ]

  -- A text that is there and is valid is read.
  read_blob_text_lem :
      (handle session content : Text) (s : StoreState)
      → is_valid_handle handle ≡ true
      → blob_text runtime config handle s ≡ some content
      → read_blob_text runtime config handle session s ≡ ok content
  read_blob_text_lem handle session content s valid there =
      elim (Option-cases (get handle s.db.files)) [
        | inl e ↦
            let same : blob_text runtime config handle s ≡ none =
              unfold blob_text in rw (valid, e, blob_text) refl in
            absurd (cc (same, there))
        | inr (raw, e) ↦
            let same : blob_text runtime config handle s ≡ runtime.decode raw =
              unfold blob_text in rw (valid, e, blob_text) refl in
            let decoded : runtime.decode raw ≡ some content = cc (same, there) in
            unfold read_blob_text in rw (e, decoded, read_blob_text) refl
      ]

  -- What a session references, it fetches in full, under the limit for a full text.
  pub fetch_full_lem :
      (stored_at handle session content : Text) (start count : ℤ) (s : StoreState)
      → session_references runtime config handle session s ≡ ok true
      → blob_text runtime config handle s ≡ some content
      → fetch runtime config stored_at handle (codes "full") session start count s
        ≡ ok (fetch_full config content)
  fetch_full_lem stored_at handle session content start count s h there =
      let inv = session_references-inv handle session s h in
      let some_session : is_empty session ≡ false = ground (arith, inv) in
      let valid : is_valid_handle handle ≡ true = ground (arith, inv) in
      let normal : normalize_handle handle ≡ some handle =
        unfold normalize_handle in rw valid refl in
      let authorized : authorize runtime config handle session s ≡ ok none =
        unfold authorize in rw (normal, some_session, h, authorize) refl in
      let content_read = read_blob_text_lem handle session content s valid there in
      let read_full : fetch_mode runtime config stored_at handle (codes "full") session start count
            s
          ≡ ok (fetch_full config content) =
        unfold fetch_mode text_eq in rw (content_read, fetch_mode) refl in
      unfold fetch in rw (authorized, read_full, fetch) refl
