-- ===== src/Common/Decimals.antt =====
-- `int(text)` on decimal text. The digits are those of ASCII; Python also takes the decimal digits of
-- other scripts, which are not modelled.
use Prim.Native.Nat.{ℕ, zero, suc, ◌+◌, ◌-◌, ◌*◌}
use mathlib.Core.Bool.{Bool, true, false, not, ◌&&◌}
use mathlib.Core.List.{[], ◌∷◌}
use mathlib.Core.Option.{Option, none, some}
use tokenjuice_hermes.Common.Integers.{ℤ, pos, negsuc}
use tokenjuice_hermes.Common.Lists.{length, keep}
use tokenjuice_hermes.Common.Tests.{leb, ◌==◌, if◌then◌else◌}
use tokenjuice_hermes.Common.Texts.{Text, strip}

abbrev pub is_digit : ℕ → Bool
is_digit c = leb b'0' c && leb c b'9'

-- The most digits that `int` reads.
abbrev pub max_str_digits : ℕ
max_str_digits = 4300

-- The number that digits write, after the number `n` that was read before them.
unfoldable pub decimal : ℕ → Text → ℕ
decimal n [] = n
decimal n (c ∷ s) = decimal (n * 10 + (c - b'0')) s

-- Digits with at most one underscore between two of them; `true` asks for a digit.
unfoldable pub digits_ok : Bool → Text → Bool
digits_ok true [] = false
digits_ok false [] = true
digits_ok expected (c ∷ s) =
    if is_digit c then digits_ok false s else c == b'_' && not expected && digits_ok true s

abbrev pub negate : ℕ → ℤ
negate zero = pos 0
negate (suc n) = negsuc n

unfoldable pub unsigned : Text → Option ℕ
unfolding digits_ok keep decimal
unsigned s =
    let digits = keep is_digit s in
    if digits_ok true s && leb (length digits) max_str_digits then some (decimal 0 digits) else none

-- After white space and a sign.
unfoldable pub signed : Text → Option ℤ
unfolding unsigned
signed [] = none
signed (c ∷ s) =
    if c == b'-'
    then elim (unsigned s) [ none ↦ none | some n ↦ some (negate n) ]
    else if c == b'+'
    then elim (unsigned s) [ none ↦ none | some n ↦ some (pos n) ]
    else elim (unsigned (c ∷ s)) [ none ↦ none | some n ↦ some (pos n) ]

-- `int(text)`; `none` where it raises `ValueError`
unfoldable pub int_of_text : Text → Option ℤ
unfolding signed strip
int_of_text s = signed (strip s)
