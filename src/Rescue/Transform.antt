-- ===== src/Rescue/Transform.antt =====
-- rescue_transform.py: `transform_rescue_result`. The state is that of the store at the path of the
-- options; opening the store and putting into it is one step, which may raise.
use tokenjuice_hermes.BlobStore.{BlobStore}
use tokenjuice_hermes.Common.{
  Text, codes, mem_text, lower, starts_with, ℕ, Bool, true, false, ◌&&◌, ◌||◌, not, Option, none,
  some, List, [], ◌∷◌, get, any, is_empty, leb, length, Outcome, ok, raise, Error, key_error,
  type_error, value_error, attribute_error, replacement_error, recursion_error, os_error,
  sqlite_error, if◌then◌else◌,
}
use tokenjuice_hermes.Json.{
  FlatJsonObject, JsonScalar, JsonValue, str, get_scalar, is_error_payload, flat_json_object,
}
use tokenjuice_hermes.Rescue.Options.{RescueOptions, rescue_excluded_tool_prefixes}

-- `RESCUE_STORE_PATH_DEFAULT`
abbrev rescue_store_path_default : Text
rescue_store_path_default = codes "/opt/data/tokenjuice-hermes/rescue-blobs"

unfoldable pub is_eligible_tool : Text → RescueOptions → Bool
unfolding mem_text any lower starts_with
is_eligible_tool tool_name options =
    mem_text tool_name options.tool_names
    && not (mem_text tool_name options.excluded_tools)
    && not (any (λ prefix. starts_with (lower tool_name) prefix) rescue_excluded_tool_prefixes)

-- `options.tool_min_text_chars.get(tool_name, options.min_text_chars)`
unfoldable pub threshold_for : Text → RescueOptions → ℕ
unfolding get
threshold_for tool_name options = elim (get tool_name options.tool_min_text_chars) [
  | none ↦ options.min_text_chars
  | some threshold ↦ threshold
]

-- `isinstance(value, str) and len(value) >= threshold`
unfoldable pub oversized_text : ℕ → JsonScalar → Option Text
oversized_text threshold (str s) = if leb threshold (length s) then some s else none
oversized_text threshold v = none

-- `_find_oversized_field`, with the threshold
unfoldable pub find_oversized_field : FlatJsonObject → ℕ → List Text → Option (Text × Text)
unfolding get_scalar oversized_text
find_oversized_field parsed threshold [] = none
find_oversized_field parsed threshold (field_name ∷ fields) =
    elim (oversized_text threshold (get_scalar field_name parsed)) [
      | none ↦ find_oversized_field parsed threshold fields
      | some s ↦ some (field_name, s)
    ]

unfoldable pub store_path_of : RescueOptions → Text
store_path_of options =
    if is_empty options.store_path then rescue_store_path_default else options.store_path

-- `except (OSError, RuntimeError, ValueError, sqlite3.Error)`
abbrev pub is_caught : Error → Bool
is_caught value_error = true
is_caught replacement_error = false
is_caught recursion_error = true
is_caught os_error = true
is_caught sqlite_error = true
is_caught key_error = false
is_caught type_error = false
is_caught attribute_error = false

-- What `return build_excerpt(...)` gives or raises.
abbrev pub shown_excerpt : Outcome Text → Outcome (Option Text)
shown_excerpt (raise e) = raise e
shown_excerpt (ok shown) = ok (some shown)

module _ (is_zero_float : Text → Bool) (parse_json : Text → Option JsonValue) where
  -- `parse_flat_json_object`
  unfoldable pub parse_flat_json_object : Text → Option FlatJsonObject
  unfolding flat_json_object
  parse_flat_json_object result = elim (parse_json result) [
    | none ↦ none
    | some v ↦ flat_json_object v
  ]

  unfoldable pub can_rescue : Text → Option FlatJsonObject → RescueOptions → Option FlatJsonObject
  unfolding is_error_payload is_eligible_tool
  can_rescue tool_name none options = none
  can_rescue tool_name (some parsed) options =
      if is_error_payload is_zero_float parsed
      then none
      else if is_empty options.session_id || not options.fetch_available
      then none
      else if not (is_eligible_tool tool_name options)
      then none
      else some parsed

  module _ (exists : Text → Bool) (build_excerpt : Text → Text → Outcome Text)
      (store : BlobStore) where
    open store use {State, put}

    -- From the handle on, or from what was raised. What `build_excerpt` raises is not caught.
    unfoldable pub excerpt_or_none : Text → Outcome Text × State → Outcome (Option Text) × State
    excerpt_or_none text (raise e, s) = (if is_caught e then ok none else raise e, s)
    excerpt_or_none text (ok handle, s) =
        (if is_empty handle then ok none else shown_excerpt (build_excerpt text handle), s)

    -- The text that would be stored, with its field.
    unfoldable pub rescuable : Text → Text → RescueOptions → Option (Text × Text)
    unfolding parse_flat_json_object can_rescue store_path_of find_oversized_field threshold_for
    rescuable result tool_name options =
        elim (can_rescue tool_name (parse_flat_json_object result) options) [
          | none ↦ none
          | some parsed ↦
              if not (exists (store_path_of options))
              then none
              else find_oversized_field parsed (threshold_for tool_name options) options.text_fields
        ]

    unfoldable pub transform_rescue_result :
        Text → Text → RescueOptions → State → Outcome (Option Text) × State
    unfolding rescuable excerpt_or_none
    transform_rescue_result result tool_name options s = elim (rescuable result tool_name options) [
      | none ↦ (ok none, s)
      | some (field_name, text) ↦ excerpt_or_none text (put text tool_name options.session_id s)
    ]
