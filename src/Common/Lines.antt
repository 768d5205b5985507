-- ===== src/Common/Lines.antt =====
-- `str.splitlines()` and `str(n)`.
use Prim.Native.Nat.{ℕ, zero, suc, ◌+◌, ◌-◌, ◌*◌, ◌/◌, ◌%◌, ◌<◌}
use mathlib.Core.Bool.{Bool, false, ◌&&◌, ◌||◌}
use mathlib.Core.List.{List, [], ◌∷◌, ◌++◌}
use mathlib.Core.Path.{◌≡◌, refl}
use mathlib.Core.Logic.{inl, inr}
use native.Mathlib.Omega.{arith}
use tokenjuice_hermes.Common.Decimals.{decimal}
use tokenjuice_hermes.Common.Lists.{is_empty}
use tokenjuice_hermes.Common.Tests.{leb, ltb, ◌==◌, if◌then◌else◌, Bool-cases}
use tokenjuice_hermes.Common.Texts.{Text}

-- A character that ends a line.
unfoldable pub is_line_break : ℕ → Bool
is_line_break c = leb 10 c && leb c 13 || leb 28 c && leb c 30 || c == 133 || c == 8232 || c == 8233

-- The text with `\r` for `\r\n`; the Boolean says that a `\r` came just before.
unfoldable pub join_breaks : Bool → Text → Text
join_breaks after_cr [] = []
join_breaks after_cr (c ∷ s) =
    let rest = join_breaks (c == 13) s in if after_cr && c == 10 then rest else c ∷ rest

-- The text before the first break, and the texts after each break.
unfoldable pub break_parts : Text → Text × List Text
unfolding is_line_break
break_parts [] = ([], [])
break_parts (c ∷ s) =
    let (first, rest) = break_parts s in
    if is_line_break c then ([], first ∷ rest) else (c ∷ first, rest)

-- A break at the end starts no further line.
unfoldable pub drop_last_empty : List Text → List Text
drop_last_empty [] = []
drop_last_empty (p ∷ []) = if is_empty p then [] else p ∷ []
drop_last_empty (p ∷ q ∷ ps) = p ∷ drop_last_empty (q ∷ ps)

-- `s.splitlines()`
unfoldable pub splitlines : Text → List Text
unfolding join_breaks break_parts drop_last_empty
splitlines s =
    let (first, rest) = break_parts (join_breaks false s) in drop_last_empty (first ∷ rest)

-- The digits of a number, at most so many as the fuel.
unfoldable pub digits_text : ℕ → ℕ → Text
digits_text zero n = []
digits_text (suc fuel) n =
    let rest = digits_text fuel (n / 10) in
    if ltb n 10 then (b'0' + n) ∷ [] else rest ++ (b'0' + n % 10) ∷ []

-- `str(n)`
unfoldable pub number_text : ℕ → Text
unfolding digits_text
number_text n = digits_text (suc n) n

decimal-snoc : (k : ℕ) (s : Text) (c : ℕ) → decimal k (s ++ c ∷ []) ≡ decimal k s * 10 + (c - b'0')
unfolding decimal
decimal-snoc k [] c = refl
decimal-snoc k (d ∷ s) c = decimal-snoc (k * 10 + (d - b'0')) s c

decimal-digits_text : (fuel n : ℕ) → n < fuel → decimal 0 (digits_text fuel n) ≡ n
unfolding digits_text decimal
decimal-digits_text zero n h = absurd (omega arith)
decimal-digits_text (suc fuel) n h = elim (Bool-cases (ltb n 10)) [
  | inl e ↦ rw e (omega arith)
  | inr e ↦
      let smaller : n / 10 < fuel = ground arith in
      rw (e, decimal-snoc, decimal-digits_text fuel (n / 10) smaller) (omega arith)
]

-- The fuel suffices: the digits of a number read as that number.
pub decimal-number_text : (n : ℕ) → decimal 0 (number_text n) ≡ n
unfolding number_text
decimal-number_text n = decimal-digits_text (suc n) n (omega arith)
