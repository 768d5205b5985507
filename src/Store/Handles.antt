-- ===== src/Store/Handles.antt =====
-- rescue_handles.py and `safe_sid` of rescue_index.py, with the functions of Python's runtime that the
-- store calls: SHA-256, the UTF-8 codec and `str.isalnum`.
use tokenjuice_hermes.Common.{
  Text, text_eq, ℕ, ◌≡◌, Bool, true, ◌&&◌, ◌||◌, Option, none, some, List, [], ◌∷◌, ◌++◌, map,
  Outcome, ok, raise, value_error, leb, ◌==◌, if◌then◌else◌, length, take, drop, all, is_empty,
}

abbrev pub Bytes : Type 0
Bytes = List ℕ

abbrev pub is_hex : ℕ → Bool
is_hex c = leb b'0' c && leb c b'9' || leb b'a' c && leb c b'f'

-- `bool(re.match(r"^[0-9a-f]{12}$", handle))`: `$` also stands before a line feed at the very end.
unfoldable pub is_valid_handle : Text → Bool
unfolding all text_eq
is_valid_handle handle =
    let rest = drop 12 handle in
    length (take 12 handle) == 12
    && all is_hex (take 12 handle)
    && (is_empty rest || text_eq rest (10 ∷ []))

unfoldable pub normalize_handle : Text → Option Text
unfolding is_valid_handle
normalize_handle handle = if is_valid_handle handle then some handle else none

-- What the store calls of Python's runtime. `none` is a text that cannot be encoded (a surrogate), or
-- bytes that cannot be decoded.
pub record Runtime : Type 0 where
  pub sha256_hex : Bytes → Text
  pub encode : Text → Option Bytes
  pub decode : Bytes → Option Text
  pub is_alnum : ℕ → Bool
  -- what was encoded is decoded
  pub decode-encode : (t : Text) (raw : Bytes) → encode t ≡ some raw → decode raw ≡ some t
  -- a digest starts with twelve lowercase hexadecimal digits
  pub sha256_hex-is_valid_handle : (raw : Bytes) → is_valid_handle (take 12 (sha256_hex raw)) ≡ true

module _ (runtime : Runtime) where
  open runtime use {sha256_hex, encode, is_alnum}

  -- `c if c.isalnum() or c in "-_" else "_"`
  abbrev slug_char : ℕ → ℕ
  slug_char c = if is_alnum c || (c == b'-' || c == b'_') then c else b'_'

  unfoldable pub safe_sid : Text → Outcome Text
  safe_sid session_id = elim (encode session_id) [
    | none ↦ raise value_error
    | some raw ↦ ok (take 32 (map slug_char session_id) ++ b'-' ∷ take 12 (sha256_hex raw))
  ]
