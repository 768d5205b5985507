-- ===== src/Passref/Expand.antt =====
-- passref.py: handles in a value, their replacement by one text, and their expansion from a store
-- under a budget.
use tokenjuice_hermes.BlobStore.{BlobStore}
use tokenjuice_hermes.Common.{
  Text, codes, contains_text, grouped_text, ℕ, ◌+◌, ◌-◌, min, Bool, true, false, ◌&&◌, ◌||◌, none,
  some, ◌∷◌, ◌++◌, Outcome, ok, raise, length, take, ltb, leb, if◌then◌else◌,
}
use tokenjuice_hermes.Json.{
  JsonValue, Items, Fields, nil, cons, end, field, scalar, array, object, str,
}
use tokenjuice_hermes.Passref.Config.{PassrefConfig}
use tokenjuice_hermes.Passref.Pattern.{has_reference, scan, fill, sub}

-- `"tla:" in value and _HANDLE_RE.search(value) is not None`
unfoldable pub text_has_handle : Text → Bool
unfolding contains_text has_reference
text_has_handle s = contains_text (codes "tla:") s && has_reference s

-- `_has_handle`
unfoldable mutual
  unfolding text_has_handle

  pub has_handle : JsonValue → Bool
  has_handle (scalar (str s)) = text_has_handle s
  has_handle (scalar s) = false
  has_handle (array vs) = has_handle_items vs
  has_handle (object fs) = has_handle_fields fs

  pub has_handle_items : Items → Bool
  has_handle_items nil = false
  has_handle_items (cons v vs) = has_handle v || has_handle_items vs

  pub has_handle_fields : Fields → Bool
  has_handle_fields end = false
  has_handle_fields (field k v fs) = has_handle v || has_handle_fields fs

-- `_HANDLE_RE.sub(lambda _m: replacement, value)`
unfoldable pub replace_text : Text → Text → Text
unfolding scan fill
replace_text replacement s = fill replacement (scan 0 s)

-- `_replace_handles`
unfoldable mutual
  unfolding replace_text

  pub replace_handles : Text → JsonValue → JsonValue
  replace_handles r (scalar (str s)) = scalar (str (replace_text r s))
  replace_handles r (scalar s) = scalar s
  replace_handles r (array vs) = array (replace_items r vs)
  replace_handles r (object fs) = object (replace_fields r fs)

  pub replace_items : Text → Items → Items
  replace_items r nil = nil
  replace_items r (cons v vs) = cons (replace_handles r v) (replace_items r vs)

  pub replace_fields : Text → Fields → Fields
  replace_fields r end = end
  replace_fields r (field k v fs) = field k (replace_handles r v) (replace_fields r fs)

unfoldable pub missing_marker : Text → Text
missing_marker blob_id =
    codes "[tokenjuice-hermes: blob " ++ (blob_id ++ codes " unavailable; re-run the source tool]")

unfoldable pub session_marker : Text → Text
session_marker blob_id =
    codes "[tokenjuice-hermes: blob " ++ (blob_id ++ codes " not available in this session]")

unfoldable pub budget_marker : ℕ → Text
unfolding grouped_text
budget_marker total_max_chars =
    codes "[tokenjuice-hermes: total expansion budget "
    ++ (grouped_text total_max_chars ++ codes " chars exceeded]")

unfoldable pub truncation_marker : ℕ → ℕ → Text
unfolding grouped_text
truncation_marker original cap =
    10 ∷ codes "[tokenjuice-hermes: truncated, blob is "
    ++ (grouped_text original
        ++ (codes " chars > passref_max_chars " ++ (grouped_text cap ++ codes "]")))

pub record Budget : Type 0 where
  pub total : ℕ
  pub changed : Bool
  pub truncated : Bool
  pub budget_exceeded : Bool

-- `_Budget()`
abbrev pub new_budget : Budget
new_budget = record { total = 0; changed = false; truncated = false; budget_exceeded = false }

-- The content under the caps, and what it costs.
unfoldable pub charge : PassrefConfig → Text → Budget → Text × Budget
unfolding truncation_marker
charge cfg content b =
    let cap = min cfg.max_chars (cfg.total_max_chars - b.total) in
    let cut = take cap content ++ truncation_marker (length content) cap in
    if ltb cap (length content)
    then (cut, record b { total = b.total + length cut; truncated = true })
    else (content, record b { total = b.total + length content })

module _ (store : BlobStore) where
  open store use {State, blob_text, has_blob, session_references}

  -- `_replace` of `_expand_string`
  unfoldable pub redeem : PassrefConfig → Text → State → Text → Budget → Outcome (Text × Budget)
  unfolding budget_marker missing_marker session_marker charge
  redeem cfg session_id s blob_id b =
      if leb cfg.total_max_chars b.total
      then ok (budget_marker cfg.total_max_chars, record b { budget_exceeded = true })
      else elim (session_references blob_id session_id s) [
        | raise e ↦ raise e
        | ok false ↦
            ok (if has_blob blob_id s then session_marker blob_id else missing_marker blob_id, b)
        | ok true ↦ elim (blob_text blob_id s) [
          | none ↦ ok (missing_marker blob_id, b)
          | some content ↦ ok (charge cfg content b)
        ]
      ]

  unfoldable pub expand_string :
      PassrefConfig → Text → State → Text → Budget → Outcome (Text × Budget)
  unfolding text_has_handle scan sub redeem
  expand_string cfg session_id s text b =
      if text_has_handle text
      then sub (redeem cfg session_id s) (scan 0 text) (record b { changed = true })
      else ok (text, b)

  -- `_expand_value`
  unfoldable mutual
    unfolding expand_string

    pub expand_value :
        PassrefConfig → Text → State → JsonValue → Budget → Outcome (JsonValue × Budget)
    expand_value cfg session_id s (scalar (str t)) b = elim (expand_string cfg session_id s t b) [
      | raise e ↦ raise e
      | ok (t', b') ↦ ok (scalar (str t'), b')
    ]
    expand_value cfg session_id s (scalar v) b = ok (scalar v, b)
    expand_value cfg session_id s (array vs) b = elim (expand_items cfg session_id s vs b) [
      | raise e ↦ raise e
      | ok (vs', b') ↦ ok (array vs', b')
    ]
    expand_value cfg session_id s (object fs) b = elim (expand_fields cfg session_id s fs b) [
      | raise e ↦ raise e
      | ok (fs', b') ↦ ok (object fs', b')
    ]

    pub expand_items : PassrefConfig → Text → State → Items → Budget → Outcome (Items × Budget)
    expand_items cfg session_id s nil b = ok (nil, b)
    expand_items cfg session_id s (cons v vs) b = elim (expand_value cfg session_id s v b) [
      | raise e ↦ raise e
      | ok (v', b') ↦ elim (expand_items cfg session_id s vs b') [
        | raise e ↦ raise e
        | ok (vs', b'') ↦ ok (cons v' vs', b'')
      ]
    ]

    pub expand_fields : PassrefConfig → Text → State → Fields → Budget → Outcome (Fields × Budget)
    expand_fields cfg session_id s end b = ok (end, b)
    expand_fields cfg session_id s (field k v fs) b = elim (expand_value cfg session_id s v b) [
      | raise e ↦ raise e
      | ok (v', b') ↦ elim (expand_fields cfg session_id s fs b') [
        | raise e ↦ raise e
        | ok (fs', b'') ↦ ok (field k v' fs', b'')
      ]
    ]
