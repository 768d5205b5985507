-- ===== src/Store/Blobs.antt =====
-- rescue_store.py: the class `BlobStore` over the ownership index. Where the constructor had no
-- permission to open the index, `opened` is false, and only the files can be read.
use tokenjuice_hermes.Common.{
  Text, codes, number_text, grouped_text, splitlines, join, ℕ, zero, suc, ◌+◌, ◌-◌, ◌*◌, min, max,
  Bool, true, false, ◌&&◌, ◌||◌, not, Option, none, some, List, [], ◌∷◌, ◌++◌, Outcome, ok, raise,
  get, has_key, ℤ, clamp_zero, length, take, drop, is_empty, ltb, leb, text_eq, if◌then◌else◌,
}
use tokenjuice_hermes.Store.Handles.{Runtime, is_valid_handle, normalize_handle, safe_sid}
use tokenjuice_hermes.Store.Maintenance.{sweep}
use tokenjuice_hermes.Store.Ownership.{put_content, key_references, tombstone_message, find_meta}
use tokenjuice_hermes.Store.Tables.{Database}

-- `BlobStoreConfig`, with its defaults filled in
pub record StoreConfig : Type 0 where
  pub ttl_hours : ℕ
  pub tombstone_ttl_hours : ℕ
  pub max_store_mb : ℕ
  pub fetch_max_chars : ℕ
  pub full_fetch_max_chars : ℕ
  pub refuse_full_fetch : Bool

abbrev pub default_config : StoreConfig
default_config = record {
  ttl_hours = 72;
  tombstone_ttl_hours = 720;
  max_store_mb = 500;
  fetch_max_chars = 4000;
  full_fetch_max_chars = 50000;
  refuse_full_fetch = true;
}

pub record StoreState : Type 0 where
  pub opened : Bool
  pub db : Database

unfoldable pub not_found : Text → Text
not_found handle = codes "Error: handle " ++ (handle ++ codes " not found (may have been swept)")

unfoldable pub not_available : Text → Text
not_available handle = codes "Error: handle " ++ (handle ++ codes " not available in this session")

-- `_fetch_full`
unfoldable pub fetch_full : StoreConfig → Text → Text
unfolding grouped_text
fetch_full config text =
    if config.refuse_full_fetch && ltb config.full_fetch_max_chars (length text)
    then codes "Refused: blob is "
      ++ (grouped_text (length text)
          ++ (codes " chars, over the tokenjuice_rescue_full_fetch_max_chars="
              ++ (grouped_text config.full_fetch_max_chars
                  ++ codes
                      " limit (tokenjuice_rescue_refuse_full_fetch=True). Use mode='range' with start/count, e.g. start=0,count=20, or mode='grep' with a literal pattern.")))
    else text

-- `str(end - 1)`
abbrev last_text : ℕ → Text
last_text zero = codes "-1"
last_text (suc n) = number_text n

-- The first line of a range, clamped into the text, and the line after its last.
unfoldable pub range_start : ℕ → ℕ → ℕ → ℕ
range_start total start count =
    if ltb 0 total && leb total start then total - max 1 count else start

unfoldable pub range_end : ℕ → ℕ → ℕ → ℕ
unfolding range_start
range_end total start count = min total (range_start total start count + max 1 count)

-- `lines[start:end]`
unfoldable pub range_lines : List Text → ℕ → ℕ → List Text
unfolding range_start range_end
range_lines lines start count =
    let first = range_start (length lines) start count in
    take (range_end (length lines) start count - first) (drop first lines)

range_note : ℕ → ℕ → Text
unfolding number_text
range_note total start =
    if ltb 0 total && leb total start
    then codes "[start " ++ (number_text start ++ (codes " past end; clamped]" ++ 10 ∷ []))
    else []

-- `_fetch_range`
unfoldable pub fetch_range : StoreConfig → Text → ℤ → ℤ → Text
unfolding splitlines number_text range_note range_lines range_start range_end join
fetch_range config text start count =
    let lines = splitlines text in
    let total = length lines in
    let from = clamp_zero start in
    let n = clamp_zero count in
    range_note total from
    ++ (codes "[lines "
        ++ (number_text (range_start total from n)
            ++ (codes ".."
                ++ (last_text (range_end total from n)
                    ++ (codes " of "
                        ++ (number_text total
                            ++ (b']'
                                ∷ 10
                                ∷ take config.fetch_max_chars
                                    (join (10 ∷ []) (range_lines lines from n)))))))))

module _ (runtime : Runtime) (config : StoreConfig) where
  open runtime use {decode}

  unfoldable pub put : Text → Text → Text → ℕ → StoreState → Outcome Text × StoreState
  put content tool_name session_id now s =
      if is_empty session_id || not s.opened
      then (ok [], s)
      else let (result, db) = put_content runtime content tool_name session_id now s.db in
        (result, record s { db = db })

  -- The test of a session's reference, where `safe_sid` raises on a text that cannot be encoded.
  unfoldable pub session_references : Text → Text → StoreState → Outcome Bool
  session_references handle session_id s =
      if is_empty session_id || not (is_valid_handle handle) || not s.opened
      then ok false
      else elim (safe_sid runtime session_id) [
        | raise e ↦ raise e
        | ok key ↦ ok (key_references runtime handle key s.db)
      ]

  unfoldable pub has_blob : Text → StoreState → Bool
  unfolding is_valid_handle has_key
  has_blob handle s = is_valid_handle handle && has_key handle s.db.files

  unfoldable pub blob_text : Text → StoreState → Option Text
  blob_text handle s =
      if is_valid_handle handle
      then elim (get handle s.db.files) [ none ↦ none | some raw ↦ decode raw ]
      else none

  -- `lazy_sweep`
  unfoldable pub lazy_sweep : ℕ → StoreState → StoreState
  unfolding sweep
  lazy_sweep now s =
      if s.opened
      then record s {
        db =
            sweep now (config.ttl_hours * 3600) (config.tombstone_ttl_hours * 3600)
              config.max_store_mb s.db;
      }
      else s

  -- The tombstone's message, where there is one.
  swept_or : Text → Text → StoreState → Text → Outcome Text
  unfolding safe_sid tombstone_message
  swept_or handle session_id s otherwise = elim (safe_sid runtime session_id) [
    | raise e ↦ raise e
    | ok key ↦ ok (elim (tombstone_message handle key s.db) [ none ↦ otherwise | some text ↦ text ])
  ]

  -- `_authorize`: the refusal, if there is one
  unfoldable pub authorize : Text → Text → StoreState → Outcome (Option Text)
  unfolding swept_or not_available
  authorize handle session_id s = elim (normalize_handle handle) [
    | none ↦ ok (some (codes "Error: invalid handle"))
    | some h ↦
        if is_empty session_id
        then ok (some (codes "Error: session ID required to fetch a handle"))
        else elim (session_references handle session_id s) [
          | raise e ↦ raise e
          | ok true ↦ ok none
          | ok false ↦
              if s.opened
              then elim (swept_or handle session_id s (not_available handle)) [
                | raise e ↦ raise e
                | ok text ↦ ok (some text)
              ]
              else ok (some (not_available handle))
        ]
  ]

  -- `_read_blob_text`
  unfoldable pub read_blob_text : Text → Text → StoreState → Outcome Text
  unfolding get swept_or not_found number_text
  read_blob_text handle session_id s = elim (get handle s.db.files) [
    | none ↦ swept_or handle session_id s (not_found handle)
    | some raw ↦ ok (elim (decode raw) [
      | some text ↦ text
      | none ↦
          codes "Error: handle "
          ++ (handle ++ (codes " is binary (" ++ (number_text (length raw) ++ codes " bytes)")))
    ])
  ]

  -- `_fetch_stat`, where `stored_at` is the file's time as the runtime writes it
  unfoldable pub fetch_stat : Text → Text → Text → StoreState → Outcome Text
  unfolding get swept_or not_found grouped_text safe_sid find_meta
  fetch_stat stored_at handle session_id s = elim (get handle s.db.files) [
    | none ↦ swept_or handle session_id s (not_found handle)
    | some raw ↦ elim (safe_sid runtime session_id) [
      | raise e ↦ raise e
      | ok key ↦ ok (
          codes "blob: "
          ++ (handle
              ++ (10 ∷ codes "size: "
                  ++ (grouped_text (length raw)
                      ++ (codes " bytes"
                          ++ (10 ∷ codes "stored: "
                              ++ (stored_at
                                  ++ (10 ∷ codes "tool: "
                                      ++ (find_meta handle key s.db).tool))))))))
    ]
  ]

  -- What `fetch` does once the handle is authorized.
  unfoldable pub fetch_mode : Text → Text → Text → Text → ℤ → ℤ → StoreState → Outcome Text
  unfolding fetch_stat read_blob_text fetch_full fetch_range text_eq
  fetch_mode stored_at handle mode session_id start count s =
      if text_eq mode (codes "stat")
      then fetch_stat stored_at handle session_id s
      else elim (read_blob_text handle session_id s) [
        | raise e ↦ raise e
        | ok text ↦
            if text_eq mode (codes "full")
            then ok (fetch_full config text)
            else if text_eq mode (codes "range")
            then ok (fetch_range config text start count)
            else ok (codes "Error: unknown mode '" ++ (mode ++ codes "'"))
      ]

  unfoldable pub fetch : Text → Text → Text → Text → ℤ → ℤ → StoreState → Outcome Text
  unfolding authorize fetch_mode
  fetch stored_at handle mode session_id start count s = elim (authorize handle session_id s) [
    | raise e ↦ raise e
    | ok (some error) ↦ ok error
    | ok none ↦ fetch_mode stored_at handle mode session_id start count s
  ]
