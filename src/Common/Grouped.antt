-- ===== src/Common/Grouped.antt =====
-- `f"{n:,}"`: the digits of a number in groups of three.
use Prim.Native.Nat.{ℕ}
use mathlib.Core.List.{[], ◌∷◌, reverse}
use mathlib.Core.Path.{◌≡◌, refl}
use tokenjuice_hermes.Common.Lines.{number_text}
use tokenjuice_hermes.Common.Texts.{Text}

-- On the digits from the last one on.
group_digits : Text → Text
group_digits (a ∷ b ∷ c ∷ d ∷ s) = a ∷ b ∷ c ∷ b',' ∷ group_digits (d ∷ s)
group_digits s = s

unfoldable pub grouped_text : ℕ → Text
unfolding number_text group_digits
grouped_text n = reverse (group_digits (reverse (number_text n)))

grouped_million : grouped_text 1234567 ≡ 49 ∷ 44 ∷ 50 ∷ 51 ∷ 52 ∷ 44 ∷ 53 ∷ 54 ∷ 55 ∷ []
unfolding grouped_text
grouped_million = refl
