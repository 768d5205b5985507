-- ===== src/Compaction/Terminal.antt =====
-- tokenjuice_hermes/compaction.py: the terminal path. A result is a flat JSON object; its long text
-- fields are cut to their first and last lines, or described in a `tokenjuice` entry.
use tokenjuice_hermes.Common.{
  Text, codes, text_eq, contains_text, splitlines, number_text, join, ℕ, ◌+◌, ◌-◌, Bool, true,
  false, ◌&&◌, ◌||◌, Option, none, some, List, [], ◌∷◌, ◌++◌, map, pos, leb, ◌==◌, if◌then◌else◌,
  is_empty, length, take, take_last, keep, not, any, put,
}
use tokenjuice_hermes.Compaction.Options.{
  CompactionMode, head_tail, metadata, off, mode_value, TokenjuiceOptions, default_text_fields,
}
use tokenjuice_hermes.Json.{
  JsonScalar, JsonValue, JsonObject, FlatJsonObject, scalar, object, bool, int, str, get_scalar,
  fields_of, is_error_payload,
}

abbrev embedded_diagnostic_markers : List Text
embedded_diagnostic_markers =
    codes "--- stderr ---" ∷ codes "Traceback (most recent call last):" ∷ []

pub record CompactText : Type 0 where
  pub text : Text
  pub omitted_lines : ℕ
  pub meta : JsonObject

abbrev number : ℕ → JsonValue
number n = scalar (int (pos n))

unfoldable pub field_meta : Text → ℕ → ℕ → JsonObject
unfolding splitlines
field_meta text omitted_lines preview_chars =
    (codes "original_chars", number (length text))
    ∷ (codes "original_lines", number (length (splitlines text)))
    ∷ (codes "omitted_lines", number omitted_lines)
    ∷ (codes "preview", scalar (str (take preview_chars text)))
    ∷ []

unfoldable pub should_transform_text : Text → TokenjuiceOptions → Bool
unfolding splitlines
should_transform_text text options =
    leb options.min_text_chars (length text)
    || leb (options.head_lines + options.tail_lines + 1) (length (splitlines text))

-- `lines[-options.tail_lines :] if options.tail_lines else []`
abbrev pub tail_of : TokenjuiceOptions → List Text → List Text
tail_of options lines = if options.tail_lines == 0 then [] else take_last options.tail_lines lines

-- `len(lines) - len(head) - len(tail)`, where a negative number counts as 0
abbrev pub omitted_of : TokenjuiceOptions → List Text → ℕ
omitted_of options lines =
    length lines - length (take options.head_lines lines) - length (tail_of options lines)

unfoldable pub marker : ℕ → Text
unfolding number_text
marker omitted =
    codes "[tokenjuice-hermes: omitted " ++ (number_text omitted ++ codes " middle lines]")

-- The lines that stay, with the marker between them.
unfoldable pub compact_lines : TokenjuiceOptions → List Text → List Text
unfolding marker
compact_lines options lines =
    take options.head_lines lines ++ marker (omitted_of options lines) ∷ tail_of options lines

unfoldable pub compact_text : Text → TokenjuiceOptions → Option CompactText
unfolding should_transform_text splitlines field_meta compact_lines join
compact_text text options =
    let lines = splitlines text in
    let omitted = omitted_of options lines in
    if not (should_transform_text text options)
    then none
    else if omitted == 0
    then some
        (record { text = text; omitted_lines = 0; meta = field_meta text 0 options.preview_chars })
    else some (record {
      text = join (10 ∷ []) (compact_lines options lines);
      omitted_lines = omitted;
      meta = field_meta text omitted options.preview_chars;
    })

has_embedded_diagnostic : JsonScalar → Bool
unfolding contains_text any
has_embedded_diagnostic (str s) = any (λ m. contains_text m s) embedded_diagnostic_markers
has_embedded_diagnostic _ = false

unfoldable pub is_embedded_diagnostic_field : Text → JsonScalar → Bool
unfolding has_embedded_diagnostic
is_embedded_diagnostic_field field value =
    text_eq field (codes "output") && has_embedded_diagnostic value

unfoldable pub sum_text_chars : FlatJsonObject → List Text → ℕ
unfolding get_scalar
sum_text_chars payload [] = 0
sum_text_chars payload (field ∷ fields) =
    elim (get_scalar field payload) [ str s ↦ length s | _ ↦ 0 ] + sum_text_chars payload fields

-- `dict(payload)`
abbrev pub copy : FlatJsonObject → JsonObject
copy payload = map (λ e. (e.0, scalar e.1)) payload

unfoldable pub tokenjuice_meta : Bool → FlatJsonObject → CompactionMode → JsonObject → JsonValue
unfolding sum_text_chars mode_value fields_of
tokenjuice_meta compacted payload mode fields = object (
    fields_of (
      (codes "compacted", scalar (bool compacted))
      ∷ (codes "original_chars", number (sum_text_chars payload default_text_fields))
      ∷ (codes "mode", scalar (str (mode_value mode)))
      ∷ (codes "fields", object (fields_of fields))
      ∷ []))

-- One round of the loop of `_compact_terminal_result`, on the next payload and the fields.
unfoldable pub compact_value :
    TokenjuiceOptions → Text → JsonScalar → JsonObject × JsonObject → JsonObject × JsonObject
unfolding compact_text put fields_of
compact_value options field (str s) (next_payload, fields) = elim (compact_text s options) [
  | none ↦ (next_payload, fields)
  | some c ↦
      (put field (scalar (str c.text)) next_payload, put field (object (fields_of c.meta)) fields)
]
compact_value options field _ acc = acc

unfoldable pub compact_fields :
    TokenjuiceOptions
    → FlatJsonObject
    → List Text
    → JsonObject × JsonObject
    → JsonObject × JsonObject
unfolding compact_value get_scalar
compact_fields options payload [] acc = acc
compact_fields options payload (field ∷ rest) acc =
    compact_fields options payload rest (compact_value options field (get_scalar field payload) acc)

-- One round of the loop of `_metadata_terminal_result`.
unfoldable pub metadata_value : TokenjuiceOptions → Text → JsonScalar → JsonObject → JsonObject
unfolding should_transform_text field_meta put fields_of
metadata_value options field (str s) fields =
    if should_transform_text s options
    then put field (object (fields_of (field_meta s 0 options.preview_chars))) fields
    else fields
metadata_value options field _ fields = fields

unfoldable pub metadata_fields :
    TokenjuiceOptions → FlatJsonObject → List Text → JsonObject → JsonObject
unfolding metadata_value get_scalar
metadata_fields options payload [] fields = fields
metadata_fields options payload (field ∷ rest) fields =
    metadata_fields options payload rest
      (metadata_value options field (get_scalar field payload) fields)

unfoldable pub metadata_terminal_result : FlatJsonObject → TokenjuiceOptions → Option JsonObject
unfolding metadata_fields put tokenjuice_meta
metadata_terminal_result payload options =
    let fields = metadata_fields options payload options.text_fields [] in
    if is_empty fields
    then none
    else some (
        put (codes "tokenjuice") (tokenjuice_meta false payload options.mode fields) (copy payload))

module _ (is_zero_float : Text → Bool) where
  -- The fields of an error that are not diagnostics, or all fields of another payload.
  unfoldable pub compactable_text_fields : FlatJsonObject → TokenjuiceOptions → List Text
  unfolding is_error_payload is_embedded_diagnostic_field get_scalar keep
  compactable_text_fields payload options =
      if is_error_payload is_zero_float payload
      then keep
          (λ field. not (
            text_eq field (codes "stderr")
            || is_embedded_diagnostic_field field (get_scalar field payload)))
          options.text_fields
      else options.text_fields

  unfoldable pub compact_terminal_result : FlatJsonObject → TokenjuiceOptions → Option JsonObject
  unfolding compact_fields compactable_text_fields put tokenjuice_meta
  compact_terminal_result payload options =
      let (next_payload, fields) =
        compact_fields options payload (compactable_text_fields payload options)
          (copy payload, []) in
      if is_empty fields
      then none
      else some
          (put (codes "tokenjuice") (tokenjuice_meta true payload options.mode fields) next_payload)

  unfoldable pub transform_terminal_result : FlatJsonObject → TokenjuiceOptions → Option JsonObject
  unfolding compact_terminal_result metadata_terminal_result
  transform_terminal_result payload options = elim options.mode [
    | head_tail ↦ compact_terminal_result payload options
    | metadata ↦ metadata_terminal_result payload options
    | off ↦ none
  ]
