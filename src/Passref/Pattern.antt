-- ===== src/Passref/Pattern.antt =====
-- passref.py: the pattern `tla:([0-9a-f]{12})`, its search and its substitution.
use tokenjuice_hermes.Common.{
  Text, ℕ, Bool, true, false, ◌&&◌, ◌||◌, List, [], ◌∷◌, ◌++◌, Outcome, ok, raise, take, drop, ◌==◌,
  suc, zero,
}
use tokenjuice_hermes.Store.Handles.{is_hex}

-- What each of the sixteen characters of a reference has to be.
abbrev pub pattern : List (ℕ → Bool)
pattern =
    (λ c. c == b't')
    ∷ (λ c. c == b'l')
    ∷ (λ c. c == b'a')
    ∷ (λ c. c == b':')
    ∷ is_hex
    ∷ is_hex
    ∷ is_hex
    ∷ is_hex
    ∷ is_hex
    ∷ is_hex
    ∷ is_hex
    ∷ is_hex
    ∷ is_hex
    ∷ is_hex
    ∷ is_hex
    ∷ is_hex
    ∷ []

unfoldable pub matches : List (ℕ → Bool) → Text → Bool
matches [] s = true
matches (p ∷ ps) [] = false
matches (p ∷ ps) (c ∷ s) = p c && matches ps s

-- `_HANDLE_RE.search(text) is not None`
unfoldable pub has_reference : Text → Bool
unfolding matches
has_reference [] = false
has_reference (c ∷ s) = matches pattern (c ∷ s) || has_reference s

-- `match.group(1)`, at the start of a text
abbrev pub group_one : Text → Text
group_one s = take 12 (drop 4 s)

-- A text as its references, with the characters between them.
pub data Piece : Type 0 where
  char : ℕ → Piece
  reference : Text → Piece

-- The matches from left to right, none overlapping another: `skip` characters belong to the last one.
unfoldable pub scan : ℕ → Text → List Piece
unfolding matches
scan skip [] = []
scan (suc skip) (c ∷ s) = scan skip s
scan zero (c ∷ s) = elim (matches pattern (c ∷ s)) [
  | true ↦ reference (group_one (c ∷ s)) ∷ scan 15 s
  | false ↦ char c ∷ scan 0 s
]

-- `_HANDLE_RE.sub(lambda _m: replacement, …)`, on the pieces
unfoldable pub fill : Text → List Piece → Text
fill replacement [] = []
fill replacement (char c ∷ ps) = c ∷ fill replacement ps
fill replacement (reference h ∷ ps) = replacement ++ fill replacement ps

-- `_HANDLE_RE.sub(_replace, …)`, on the pieces, where `_replace` changes a state and may raise
unfoldable pub sub {ℓ} :
    {S : Type ℓ} → (Text → S → Outcome (Text × S)) → List Piece → S → Outcome (Text × S)
sub f [] b = ok ([], b)
sub f (char c ∷ ps) b = elim (sub f ps b) [ raise e ↦ raise e | ok (t, b') ↦ ok (c ∷ t, b') ]
sub f (reference h ∷ ps) b = elim (f h b) [
  | raise e ↦ raise e
  | ok (r, b') ↦ elim (sub f ps b') [ raise e ↦ raise e | ok (t, b'') ↦ ok (r ++ t, b'') ]
]
