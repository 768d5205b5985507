-- ===== src/Rescue/Excerpt.antt =====
-- rescue_excerpt.py: `build_excerpt`, the preview of a text. `json.loads`, `json.dumps` with an indent of
-- two, and Python's `repr` and `str` are fields of `JsonRuntime`.
use tokenjuice_hermes.Common.{
  Text, codes, text_eq, grouped_text, number_text, splitlines, join, starts_with, strip_left,
  is_space, ℕ, ◌+◌, ◌-◌, Bool, ◌&&◌, ◌||◌, Option, none, some, List, [], ◌∷◌, ◌++◌, map, any,
  length, take, take_last, drop, is_empty, ltb, leb, pos, zero, suc, ◌==◌, if◌then◌else◌,
}
use tokenjuice_hermes.Json.{
  JsonValue, JsonScalar, JsonObject, scalar, array, object, null, bool, int, float, str, entries,
  fields_of, elements, items_of, get_value,
}

pub record JsonRuntime : Type 0 where
  -- `json.loads`, where `none` stands for the `ValueError`; a text that is nested too deep is left out
  pub loads : Text → Option JsonValue
  -- `json.dumps(value, indent=2, ensure_ascii=False)`
  pub dumps : JsonValue → Text
  -- `f"{keys}"` for a list of texts
  pub repr_keys : List Text → Text
  -- `str(value)` for a scalar
  pub str_of : JsonScalar → Text

unfoldable pub int_or : JsonValue → ℕ → ℕ
int_or (scalar (int (pos n))) default = n
int_or v default = default

-- What a character is under `re.IGNORECASE`, where `İ` and `ı` match `i`, `ſ` matches `s` and the sign
-- of the kelvin matches `k`.
abbrev fold_case : ℕ → ℕ
fold_case c =
    if leb b'A' c && leb c b'Z'
    then c + 32
    else if c == 304 || c == 305
    then b'i'
    else if c == 383
    then b's'
    else if c == 8490
    then b'k'
    else c

abbrev html_tags : List Text
html_tags =
    codes "<html" ∷ codes "<body" ∷ codes "<div" ∷ codes "<table" ∷ codes "<svg" ∷ codes "<xml" ∷ []

-- `<!DOCTYPE\s+html`
unfoldable pub is_doctype : Text → Bool
unfolding starts_with is_space strip_left
is_doctype s =
    starts_with s (codes "<!doctype")
    && any is_space (take 1 (drop 9 s))
    && starts_with (strip_left (drop 9 s)) (codes "html")

-- The test of the pattern in `detect_type`, on a text without white space in front.
unfoldable pub is_html : Text → Bool
unfolding any starts_with is_doctype
is_html stripped =
    let folded = map fold_case stripped in
    is_doctype folded || any (λ tag. starts_with folded tag) html_tags

-- `type(obj).__name__`
abbrev scalar_type : JsonScalar → Text
scalar_type null = codes "NoneType"
scalar_type (bool b) = codes "bool"
scalar_type (int i) = codes "int"
scalar_type (float x) = codes "float"
scalar_type (str s) = codes "str"

unfoldable pub json_desc : JsonValue → Text
unfolding number_text elements entries
json_desc (array vs) = codes "array[" ++ (number_text (length (elements vs)) ++ codes "]")
json_desc (object fs) = codes "object, " ++ (number_text (length (entries fs)) ++ codes " keys")
json_desc (scalar v) = scalar_type v

-- `len(obj) if isinstance(obj, (list, dict)) else 0`
unfoldable pub item_count : JsonValue → ℕ
unfolding elements entries
item_count (array vs) = length (elements vs)
item_count (object fs) = length (entries fs)
item_count (scalar v) = 0

-- `xs[-n:] if n > 0 else []`
abbrev pub last_items {ℓ} : {A : Type ℓ} → ℕ → List A → List A
last_items zero xs = []
last_items (suc n) xs = take_last (suc n) xs

unfoldable pub safe_json_tail : JsonValue → ℕ → JsonValue
unfolding elements items_of entries fields_of
safe_json_tail (array vs) n = array (items_of (last_items n (elements vs)))
safe_json_tail (object fs) n = object (fields_of (last_items n (entries fs)))
safe_json_tail (scalar v) n = scalar (str [])

unfoldable pub omitted_line : ℕ → Text
unfolding number_text
omitted_line omitted =
    codes "[tokenjuice-hermes: omitted " ++ (number_text omitted ++ codes " middle lines]")

-- The lines of a preview that leaves the middle out.
unfoldable pub preview_lines : List Text → ℕ → ℕ → List Text
unfolding omitted_line
preview_lines lines head_lines tail_lines =
    let head = take head_lines lines in
    let tail = last_items tail_lines lines in
    codes "--- head ---" ∷ (head ++ omitted_line (length lines - length head - length tail) ∷ tail)

unfoldable pub text_excerpt : Text → ℕ → ℕ → ℕ → Text
unfolding splitlines preview_lines join
text_excerpt raw head_lines tail_lines max_chars =
    let lines = splitlines raw in
    if leb (length lines) (head_lines + tail_lines)
    then take max_chars raw
    else take max_chars (join (10 ∷ []) (preview_lines lines head_lines tail_lines))

abbrev notice : Text → Text
notice handle =
    codes "Preview only — this is NOT the full content. Use rescuer_fetch(id='"
    ++ (handle ++ codes "', mode='full') for the complete result.")

-- The lines before the body.
unfoldable pub excerpt_header : Text → Text → Text → Text
unfolding grouped_text splitlines
excerpt_header kind raw handle =
    codes "[tokenjuice-hermes: tool result rescued. type="
    ++ (kind
        ++ (codes "; size="
            ++ (grouped_text (length raw)
                ++ (codes " chars; lines="
                    ++ (grouped_text (length (splitlines raw))
                        ++ (b']'
                            ∷ 10
                            ∷ (notice handle ++ (10 ∷ (codes "--- preview ---" ++ 10 ∷ [])))))))))

module _ (json : JsonRuntime) where
  open json use {loads, dumps, repr_keys, str_of}

  -- `_try_json_kind`
  unfoldable pub try_json_kind : Text → Option (Text × Text)
  unfolding number_text elements entries
  try_json_kind raw = elim (loads raw) [
    | none ↦ none
    | some (array vs) ↦
        some (codes "json", codes "array[" ++ (number_text (length (elements vs)) ++ codes "]"))
    | some (object fs) ↦
        some
          (codes "json", codes "object keys: " ++ repr_keys (take 3 (map (λ e. e.0) (entries fs))))
    | some (scalar v) ↦ some (codes "json", scalar_type v)
  ]

  -- `detect_type(raw)[0]`
  unfoldable pub detect_kind : Text → Text
  unfolding strip_left try_json_kind is_html
  detect_kind raw =
      let stripped = strip_left raw in
      let plain = if is_html stripped then codes "html" else codes "text" in
      if is_empty stripped
      then codes "text"
      else if any (λ c. c == b'{' || c == b'[') (take 1 stripped)
      then elim (try_json_kind raw) [ none ↦ plain | some (kind, meta) ↦ kind ]
      else plain

  unfoldable pub safe_json_head : JsonValue → ℕ → JsonValue
  unfolding elements items_of entries fields_of
  safe_json_head (array vs) n = array (items_of (take n (elements vs)))
  safe_json_head (object fs) n = object (fields_of (take n (entries fs)))
  safe_json_head (scalar v) n = scalar (str (take 2000 (str_of v)))

  unfoldable pub json_parts : JsonValue → ℕ → ℕ → List Text
  unfolding json_desc safe_json_head safe_json_tail item_count
  json_parts obj head_items tail_items =
      (codes "[JSON excerpt: " ++ (json_desc obj ++ codes "]"))
      ∷ codes "--- head ---"
      ∷ dumps (safe_json_head obj head_items)
      ∷ (if ltb (head_items + tail_items) (item_count obj)
          then codes "--- tail ---" ∷ dumps (safe_json_tail obj tail_items) ∷ []
          else [])

  unfoldable pub json_excerpt : Text → ℕ → ℕ → ℕ → Text
  unfolding text_excerpt json_parts join
  json_excerpt raw head_items tail_items max_chars = elim (loads raw) [
    | none ↦ text_excerpt raw 40 15 max_chars
    | some obj ↦ take max_chars (join (10 ∷ []) (json_parts obj head_items tail_items))
  ]

  unfoldable pub excerpt_body : Text → Text → JsonObject → Text
  unfolding int_or get_value json_excerpt text_excerpt text_eq
  excerpt_body kind raw config =
      let max_chars = int_or (get_value (codes "excerpt_max_chars") config) 8000 in
      if text_eq kind (codes "json")
      then json_excerpt raw (int_or (get_value (codes "json_head_items") config) 5)
          (int_or (get_value (codes "json_tail_items") config) 2) max_chars
      else text_excerpt raw (int_or (get_value (codes "head_lines") config) 40)
          (int_or (get_value (codes "tail_lines") config) 15) max_chars

  -- `build_excerpt(raw, kind, cfg, handle=handle)`
  unfoldable pub build_excerpt_of : Text → Option Text → JsonObject → Text → Text
  unfolding detect_kind excerpt_header excerpt_body
  build_excerpt_of raw kind config handle =
      let detected : Text = elim kind [ none ↦ detect_kind raw | some k ↦ k ] in
      excerpt_header detected raw handle ++ excerpt_body detected raw config

  -- `build_excerpt(raw, handle=handle)`, which is how it is called
  unfoldable pub build_excerpt : Text → Text → Text
  unfolding build_excerpt_of
  build_excerpt raw handle = build_excerpt_of raw none [] handle
