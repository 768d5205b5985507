-- ===== src/Observability/Redacted.antt =====
-- observability.py: what the status tool gives away.
use tokenjuice_hermes.Common.{
  Text, codes, text_eq, mem_text, ℕ, ◌+◌, ◌≡◌, refl, Bool, true, false, ◌&&◌, ◌||◌, Option, none,
  some, List, [], ◌∷◌, Outcome-cases, Option-cases, Dict, get, put, pos, all, Bool-cases, inl, inr,
  arith,
}
use tokenjuice_hermes.Json.{
  JsonValue, JsonObject, Fields, end, field, scalar, array, object, null, bool, int, float, str,
  str?, fields_of,
}
use tokenjuice_hermes.Observability.{Counters, reset_stats, record_fetch}
use tokenjuice_hermes.Observability.Status.{
  StorePath, version, mode_fields, store_stats_fields, snapshot_of, compute_store_stats,
  status_snapshot, tokenjuice_status, count_index_entries, sum_blob_sizes,
}
use tokenjuice_hermes.Rescue.Fetch.{known_fetch_modes, record_mode, text_arg, rescuer_fetch}
use tokenjuice_hermes.Store.Blobs.{StoreState}
use tokenjuice_hermes.Store.Handles.{Runtime}
use tokenjuice_hermes.Store.Legacy.{LegacyRuntime}

-- The modes that are counted, and the names that a status has.
abbrev pub recorded_modes : List Text
recorded_modes = codes "invalid" ∷ known_fetch_modes

abbrev pub status_keys : List Text
status_keys =
    codes "version"
    ∷ codes "passref_enabled"
    ∷ codes "compaction_count"
    ∷ codes "compaction_chars_saved"
    ∷ codes "rescue_count"
    ∷ codes "rescue_chars_saved"
    ∷ codes "fetch_count"
    ∷ codes "fetch_modes"
    ∷ codes "passref_expansion_count"
    ∷ codes "passref_denied_count"
    ∷ codes "passref_truncated_count"
    ∷ codes "passref_budget_exceeded_count"
    ∷ codes "passref_chars_expanded"
    ∷ codes "structured_pruning_attempted_count"
    ∷ codes "structured_pruning_config_rejected_count"
    ∷ codes "structured_pruning_count"
    ∷ codes "structured_pruning_rescued_count"
    ∷ codes "structured_pruning_insufficient_eligible_savings"
    ∷ codes "structured_pruning_saved_tokens"
    ∷ codes "store"
    ∷ codes "live_blob_count"
    ∷ codes "tombstone_count"
    ∷ codes "total_blob_bytes"
    ∷ codes "blob_file_count"
    ∷ codes "error"
    ∷ []

-- Nothing but numbers, flags and fixed texts, under fixed names.
unfoldable mutual
  unfolding mem_text text_eq

  pub is_aggregate : JsonValue → Bool
  is_aggregate (scalar (str s)) =
      text_eq s version || text_eq s (codes "tokenjuice_status unavailable")
  is_aggregate (scalar (bool b)) = true
  is_aggregate (scalar (int i)) = true
  is_aggregate (scalar null) = false
  is_aggregate (scalar (float x)) = false
  is_aggregate (array vs) = false
  is_aggregate (object fs) = are_aggregate fs

  pub are_aggregate : Fields → Bool
  are_aggregate end = true
  are_aggregate (field key v fs) =
      (mem_text key status_keys || mem_text key recorded_modes)
      && (is_aggregate v && are_aggregate fs)

unfoldable pub are_recorded : Dict ℕ → Bool
unfolding all mem_text
are_recorded modes = all (λ mode. mem_text mode.0 recorded_modes) modes

one_more :
    (mode : Text) (d : JsonObject) (n : ℕ)
    → (mem_text mode status_keys || mem_text mode recorded_modes) ≡ true
    → are_aggregate (fields_of d) ≡ true
    → are_aggregate (fields_of ((mode, scalar (int (pos n))) ∷ d)) ≡ true
one_more mode d n key rest = unfold are_aggregate fields_of in rw (key, rest) refl

are_aggregate-mode_fields :
    (modes : Dict ℕ)
    → are_recorded modes ≡ true
    → are_aggregate (fields_of (mode_fields modes)) ≡ true
are_aggregate-mode_fields [] h = unfold are_aggregate fields_of in refl
are_aggregate-mode_fields ((mode, n) ∷ modes) h =
    let first : mem_text mode recorded_modes ≡ true =
      unfold are_recorded all in ground (arith, h) in
    let others : are_recorded modes ≡ true = unfold are_recorded all in ground (arith, h) in
    let rest = are_aggregate-mode_fields modes others in
    let key : (mem_text mode status_keys || mem_text mode recorded_modes) ≡ true =
      ground (arith, first) in
    one_more mode (mode_fields modes) n key rest

recorded_cons :
    (mode : Text) (n : ℕ) (modes : Dict ℕ)
    → mem_text mode recorded_modes ≡ true
    → are_recorded modes ≡ true
    → are_recorded ((mode, n) ∷ modes) ≡ true
recorded_cons mode n modes m h = unfold are_recorded all in ground (arith, m, h)

put-are_recorded :
    (mode : Text) (n : ℕ) (modes : Dict ℕ)
    → mem_text mode recorded_modes ≡ true
    → are_recorded modes ≡ true
    → are_recorded (put mode n modes) ≡ true
put-are_recorded mode n [] m h = unfold put are_recorded all in ground (arith, m)
put-are_recorded mode n ((j, i) ∷ modes) m h =
    let first : mem_text j recorded_modes ≡ true = unfold are_recorded all in ground (arith, h) in
    let others : are_recorded modes ≡ true = unfold are_recorded all in ground (arith, h) in
    let rest = put-are_recorded mode n modes m others in
    elim (Bool-cases (text_eq j mode)) [
      | inl e ↦
          let same : put mode n ((j, i) ∷ modes) ≡ (j, n) ∷ modes = unfold put in rw e refl in
          rw same (recorded_cons j n modes first others)
      | inr e ↦
          let same : put mode n ((j, i) ∷ modes) ≡ (j, i) ∷ put mode n modes =
            unfold put in rw e refl in
          rw same (recorded_cons j i (put mode n modes) first rest)
    ]

snapshot_of-are_aggregate :
    (k : Counters) (counts sizes : ℕ × ℕ)
    → are_recorded k.fetch_modes ≡ true
    → are_aggregate (fields_of (snapshot_of k (store_stats_fields counts sizes))) ≡ true
snapshot_of-are_aggregate k counts sizes h =
    let modes = are_aggregate-mode_fields k.fetch_modes h in
    unfold are_aggregate fields_of snapshot_of text_eq mem_text in rw modes refl

-- A mode that the tool counts is one of its own, whatever the model asks for.
record_mode-recorded : (mode : Text) → mem_text (record_mode mode) recorded_modes ≡ true
record_mode-recorded mode = elim (Bool-cases (mem_text mode known_fetch_modes)) [
  | inl e ↦ unfold record_mode in rw (e, record_mode) (unfold mem_text in ground (arith, e))
  | inr e ↦ unfold record_mode in rw (e, record_mode) (unfold mem_text text_eq in refl)
]

record_fetch-are_recorded :
    (mode : Text) (k : Counters)
    → mem_text mode recorded_modes ≡ true
    → are_recorded k.fetch_modes ≡ true
    → are_recorded (record_fetch mode k).fetch_modes ≡ true
record_fetch-are_recorded mode k m h =
    let n : ℕ = elim (get mode k.fetch_modes) [ none ↦ 1 | some n ↦ n + 1 ] in
    unfold record_fetch in put-are_recorded mode n k.fetch_modes m h

module _ (runtime : Runtime) (lower_text : Text → Text) (seconds_text : ℕ → Text)
    (is_late : ℕ → Bool) where
  -- The counters that the process comes to: calls of the fetch tool, and whatever leaves the modes alone.
  pub data Counting : Counters → Type 0 where
    start : Counting reset_stats
    fetching :
        {k : Counters} (stored_at : Text) (args : JsonObject) (session : Text) (config : JsonObject)
        (s : StoreState)
        → Counting k
        → Counting
            (rescuer_fetch runtime lower_text seconds_text is_late stored_at args session config s
              k).1
    counting : {k k' : Counters} → k'.fetch_modes ≡ k.fetch_modes → Counting k → Counting k'

  rescuer_fetch-are_recorded :
      (stored_at : Text) (args : JsonObject) (session : Text) (config : JsonObject) (s : StoreState)
      (k : Counters)
      → are_recorded k.fetch_modes ≡ true
      → are_recorded
          (rescuer_fetch runtime lower_text seconds_text is_late stored_at args session config s
            k).1.fetch_modes
        ≡ true
  rescuer_fetch-are_recorded stored_at args session config s k h =
      elim (Option-cases (str? (text_arg (codes "id") args))) [
        | inl e ↦ unfold rescuer_fetch in rw (e, rescuer_fetch) h
        | inr (handle, e) ↦ elim (Option-cases (str? (text_arg (codes "mode") args))) [
          | inl f ↦ unfold rescuer_fetch in rw (e, f, rescuer_fetch) h
          | inr (mode, f) ↦
              let counted =
                record_fetch-are_recorded (record_mode mode) k (record_mode-recorded mode) h in
              unfold rescuer_fetch in rw (e, f, rescuer_fetch) counted
        ]
      ]

  Counting-are_recorded : {k : Counters} → Counting k → are_recorded k.fetch_modes ≡ true
  Counting-are_recorded start = unfold are_recorded all in refl
  Counting-are_recorded (fetching {k} stored_at args session config s c) =
      rescuer_fetch-are_recorded stored_at args session config s k (Counting-are_recorded c)
  Counting-are_recorded (counting same c) = rw same (Counting-are_recorded c)

  module _ (legacy : LegacyRuntime) where
    -- Whatever the calls of the fetch tool were, and whatever is in the store, the status has nothing but
    -- numbers, flags and fixed texts, under fixed names.
    pub tokenjuice_status-are_aggregate :
        (k : Counters) (now : ℕ) (path : Option StorePath)
        → Counting k
        → are_aggregate (fields_of (tokenjuice_status runtime legacy k now path).0) ≡ true
    tokenjuice_status-are_aggregate k now none c =
        let known = snapshot_of-are_aggregate k (0, 0) (0, 0) (Counting-are_recorded c) in
        unfold tokenjuice_status status_snapshot in known
    tokenjuice_status-are_aggregate k now (some p) c =
        elim (Outcome-cases (count_index_entries runtime legacy now p).0) [
          | inl (x, e) ↦
              unfold tokenjuice_status status_snapshot compute_store_stats in
              rw (e, tokenjuice_status) (unfold are_aggregate fields_of in refl)
          | inr (counts, e) ↦
              let sizes =
                sum_blob_sizes (count_index_entries runtime legacy now p).1.store.db.files in
              let known = snapshot_of-are_aggregate k counts sizes (Counting-are_recorded c) in
              unfold tokenjuice_status status_snapshot compute_store_stats in
              rw (e, tokenjuice_status) known
        ]
