-- ===== src/Rescue/Fetch.antt =====
-- rescue_fetch.py: `rescuer_fetch`, the tool by which the model reads the store, over BlobStore.fetch and
-- grep_text. The state is that of the store at the path of the config, which the tool opens.
use tokenjuice_hermes.Common.{
  Text, codes, text_eq, mem_text, ℕ, Bool, true, false, none, some, List, [], ◌∷◌, Outcome, ok,
  raise, ℤ, pos, clamp_zero, get, put, has_key, is_empty, if◌then◌else◌,
}
use tokenjuice_hermes.Json.{JsonValue, JsonObject, scalar, int, str, str?, bool?, get_value}
use tokenjuice_hermes.Observability.{Counters, record_fetch}
use tokenjuice_hermes.Rescue.Excerpt.{int_or}
use tokenjuice_hermes.Rescue.Grep.{grep_text}
use tokenjuice_hermes.Store.Blobs.{
  StoreConfig, StoreState, fetch, session_references, blob_text, not_available, not_found,
}
use tokenjuice_hermes.Store.Handles.{Runtime}

abbrev config_key_map : List (Text × Text)
config_key_map =
    (codes "tokenjuice_rescue_store_path", codes "store_path")
    ∷ (codes "tokenjuice_rescue_ttl_hours", codes "ttl_hours")
    ∷ (codes "tokenjuice_rescue_tombstone_ttl_hours", codes "tombstone_ttl_hours")
    ∷ (codes "tokenjuice_rescue_max_store_mb", codes "max_store_mb")
    ∷ (codes "tokenjuice_rescue_fetch_max_chars", codes "fetch_max_chars")
    ∷ (codes "tokenjuice_rescue_full_fetch_max_chars", codes "full_fetch_max_chars")
    ∷ (codes "tokenjuice_rescue_refuse_full_fetch", codes "refuse_full_fetch")
    ∷ (codes "tokenjuice_rescue_grep_max_pattern_len", codes "grep_max_pattern_len")
    ∷ (codes "tokenjuice_rescue_grep_max_line_len", codes "grep_max_line_len")
    ∷ (codes "tokenjuice_rescue_grep_timeout_ms", codes "grep_timeout_ms")
    ∷ []

abbrev pub known_fetch_modes : List Text
known_fetch_modes = codes "stat" ∷ codes "range" ∷ codes "grep" ∷ codes "full" ∷ []

-- The loop of `_normalize_config`: a key of the store stays as it is, or takes the value of its long name.
unfoldable normalize_keys : List (Text × Text) → JsonObject → JsonObject
unfolding get has_key put
normalize_keys [] result = result
normalize_keys ((tokenjuice_key, store_key) ∷ keys) result =
    normalize_keys keys (elim (get tokenjuice_key result) [
      | none ↦ result
      | some v ↦ if has_key store_key result then result else put store_key v result
    ])

unfoldable pub normalize_config : JsonObject → JsonObject
unfolding normalize_keys
normalize_config config = normalize_keys config_key_map config

-- The settings of the store, where each has the type that `BlobStoreConfig` declares; a setting of another
-- type, of which the store would make what Python makes of it, counts as absent here.
unfoldable pub store_config : JsonObject → StoreConfig
unfolding int_or get_value
store_config config = record {
  ttl_hours = int_or (get_value (codes "ttl_hours") config) 72;
  tombstone_ttl_hours = int_or (get_value (codes "tombstone_ttl_hours") config) 720;
  max_store_mb = int_or (get_value (codes "max_store_mb") config) 500;
  fetch_max_chars = int_or (get_value (codes "fetch_max_chars") config) 4000;
  full_fetch_max_chars = int_or (get_value (codes "full_fetch_max_chars") config) 50000;
  refuse_full_fetch = elim (bool? (get_value (codes "refuse_full_fetch") config)) [
    | none ↦ true
    | some refuse ↦ refuse
  ];
}

-- `args.get(key, "")`
unfoldable pub text_arg : Text → JsonObject → JsonValue
unfolding get
text_arg key args = elim (get key args) [ none ↦ scalar (str []) | some v ↦ v ]

unfoldable pub int_arg : JsonValue → ℕ → ℤ
int_arg (scalar (int i)) default = pos (clamp_zero i)
int_arg v default = pos default

-- `mode if mode in _KNOWN_FETCH_MODES else "invalid"`
unfoldable pub record_mode : Text → Text
unfolding mem_text
record_mode mode = if mem_text mode known_fetch_modes then mode else codes "invalid"

module _ (runtime : Runtime) (lower_text : Text → Text) (seconds_text : ℕ → Text)
    (is_late : ℕ → Bool) where
  unfoldable pub run_grep : Text → JsonObject → Text → JsonObject → StoreState → Outcome Text
  run_grep handle args session_id config s = elim (str? (text_arg (codes "pattern") args)) [
    | none ↦ ok (codes "Error: pattern must be a string")
    | some pattern ↦
        if is_empty session_id
        then ok (not_available handle)
        else elim (session_references runtime (store_config config) handle session_id s) [
          | raise e ↦ raise e
          | ok false ↦ ok (not_available handle)
          | ok true ↦ ok (elim (blob_text runtime (store_config config) handle s) [
            | none ↦ not_found handle
            | some text ↦ grep_text lower_text seconds_text is_late text pattern config
          ])
        ]
  ]

  -- The choice between the search and `BlobStore.fetch`.
  unfoldable pub fetch_or_grep :
      Text → Text → Text → JsonObject → Text → JsonObject → StoreState → Outcome Text
  fetch_or_grep stored_at handle mode args session_id config s =
      if text_eq mode (codes "grep")
      then run_grep handle args session_id config s
      else fetch runtime (store_config config) stored_at handle mode session_id
          (int_arg (get_value (codes "start") args) 0) (int_arg (get_value (codes "count") args) 20)
          s

  unfoldable pub rescuer_fetch :
      Text → JsonObject → Text → JsonObject → StoreState → Counters → Outcome Text × Counters
  rescuer_fetch stored_at args session_id config s k = elim (str? (text_arg (codes "id") args)) [
    | none ↦ (ok (codes "Error: id must be a string"), k)
    | some handle ↦ elim (str? (text_arg (codes "mode") args)) [
      | none ↦ (ok (codes "Error: mode must be a string"), k)
      | some mode ↦ (
        fetch_or_grep stored_at handle mode args session_id (normalize_config config) s,
        record_fetch (record_mode mode) k,
      )
    ]
  ]
