-- ===== src/Rescue/Fetched.antt =====
-- rescue_fetch.py: what `rescuer_fetch` gives away, and to whom.
use tokenjuice_hermes.Common.{
  Text, codes, text_eq, mem_text, ℕ, ◌≡◌, ◌≢◌, leb, ltb, length, refl, Bool, true, false, some, [],
  ok, Dict, Option-cases, Bool-cases, inl, inr, arith,
}
use tokenjuice_hermes.Json.{JsonObject, str?, get_value}
use tokenjuice_hermes.Observability.{Counters, record_fetch}
use tokenjuice_hermes.Store.Blobs.{
  StoreConfig, StoreState, fetch, fetch_full, session_references, blob_text, not_available,
  not_found,
}
use tokenjuice_hermes.Store.Blobs
use tokenjuice_hermes.Store.Fetch.{fetch_secret, fetch_full_lem}
use tokenjuice_hermes.Store.Redeem.{put_redeems}
use tokenjuice_hermes.Store.Handles.{Bytes, Runtime}
use tokenjuice_hermes.Rescue.Fetch.{
  normalize_config, store_config, text_arg, int_arg, record_mode, run_grep, fetch_or_grep,
  rescuer_fetch,
}

module _ (runtime : Runtime) (lower_text : Text → Text) (seconds_text : ℕ → Text)
    (is_late : ℕ → Bool) where
  run_grep_secret :
      (handle : Text) (args : JsonObject) (session : Text) (config : JsonObject) (s s' : StoreState)
      → session_references runtime (store_config config) handle session s ≡ ok false
      → session_references runtime (store_config config) handle session s' ≡ ok false
      → run_grep runtime lower_text seconds_text is_late handle args session config s
        ≡ run_grep runtime lower_text seconds_text is_late handle args session config s'
  run_grep_secret handle args session config s s' h k =
      elim (Option-cases (str? (text_arg (codes "pattern") args))) [
        | inl e ↦ unfold run_grep in rw (e, run_grep) refl
        | inr (pattern, e) ↦ unfold run_grep in rw (e, h, k, run_grep) refl
      ]

  fetch_or_grep_secret :
      (stored_at handle mode : Text) (args : JsonObject) (session : Text) (config : JsonObject)
      (s : StoreState) (files : Dict Bytes)
      → session_references runtime (store_config config) handle session s ≡ ok false
      → session_references runtime
          (store_config config)
          handle
          session
          (record s { db = record s.db { files = files } })
        ≡ ok false
      → fetch_or_grep runtime lower_text seconds_text is_late stored_at handle mode args session
          config s
        ≡ fetch_or_grep runtime lower_text seconds_text is_late stored_at handle mode args session
            config
            (record s { db = record s.db { files = files } })
  fetch_or_grep_secret stored_at handle mode args session config s files h k =
      let s' : StoreState = record s { db = record s.db { files = files } } in
      let searched = run_grep_secret handle args session config s s' h k in
      let fetched =
        fetch_secret runtime (store_config config) stored_at handle mode session
          (int_arg (get_value (codes "start") args) 0) (int_arg (get_value (codes "count") args) 20)
          s files h k in
      elim (Bool-cases (text_eq mode (codes "grep"))) [
        | inl e ↦ unfold fetch_or_grep in rw e searched
        | inr e ↦ unfold fetch_or_grep in rw e fetched
      ]

  -- A session learns nothing of a blob that it does not reference: with the same rows, whatever the
  -- files are, the tool gives the same answer and counts the same, whatever the arguments and the config
  -- are.
  pub rescuer_fetch_secret :
      (stored_at : Text) (args : JsonObject) (session : Text) (config : JsonObject) (s : StoreState)
      (files : Dict Bytes) (k : Counters) (handle : Text)
      → str? (text_arg (codes "id") args) ≡ some handle
      → session_references runtime (store_config (normalize_config config)) handle session s
        ≡ ok false
      → session_references runtime
          (store_config (normalize_config config))
          handle
          session
          (record s { db = record s.db { files = files } })
        ≡ ok false
      → rescuer_fetch runtime lower_text seconds_text is_late stored_at args session config s k
        ≡ rescuer_fetch runtime lower_text seconds_text is_late stored_at args session config
            (record s { db = record s.db { files = files } })
            k
  rescuer_fetch_secret stored_at args session config s files k handle id h h' =
      elim (Option-cases (str? (text_arg (codes "mode") args))) [
        | inl e ↦ unfold rescuer_fetch in rw (id, e, rescuer_fetch) refl
        | inr (mode, e) ↦
            let same =
              fetch_or_grep_secret stored_at handle mode args session (normalize_config config) s
                files h h' in
            unfold rescuer_fetch in rw (id, e, same, rescuer_fetch) refl
      ]

  -- What was put for a session under a handle, the tool gives back to that session in full, if it is within the
  -- limit for a full text: the very content, and one fetch is counted. No two byte strings have one digest here.
  pub rescuer_fetch-put :
      (stored_at content tool session handle : Text) (args config : JsonObject) (now : ℕ)
      (s s' : StoreState) (k : Counters)
      → ((a b : Bytes) → runtime.sha256_hex a ≡ runtime.sha256_hex b → a ≡ b)
      → Blobs.put runtime (store_config (normalize_config config)) content tool session now s
        ≡ (ok handle, s')
      → handle ≢ []
      → str? (text_arg (codes "id") args) ≡ some handle
      → str? (text_arg (codes "mode") args) ≡ some (codes "full")
      → leb (length content) (store_config (normalize_config config)).full_fetch_max_chars ≡ true
      → rescuer_fetch runtime lower_text seconds_text is_late stored_at args session config s' k
        ≡ (ok content, record_fetch (codes "full") k)
  rescuer_fetch-put stored_at content tool session handle args config now s s' k unique h given id
        mode small =
      let settings = store_config (normalize_config config) in
      let redeemed =
        put_redeems runtime settings now content tool session handle s s' unique h given in
      let fetched =
        fetch_full_lem runtime settings stored_at handle session content
          (int_arg (get_value (codes "start") args) 0) (int_arg (get_value (codes "count") args) 20)
          s' redeemed.0 redeemed.1 in
      let within : ltb settings.full_fetch_max_chars (length content) ≡ false =
        ground (arith, small) in
      let whole : fetch_full settings content ≡ content =
        unfold fetch_full in ground (arith, within) in
      let chosen : fetch_or_grep runtime lower_text seconds_text is_late stored_at handle
            (codes "full") args session (normalize_config config) s'
          ≡ ok content =
        unfold fetch_or_grep text_eq in rw (fetched, whole) refl in
      let counted : record_mode (codes "full") ≡ codes "full" =
        unfold record_mode text_eq mem_text in refl in
      unfold rescuer_fetch in rw (id, mode, chosen, counted, rescuer_fetch) refl
