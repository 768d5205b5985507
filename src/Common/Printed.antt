-- ===== src/Common/Printed.antt =====
-- `int(str(i))`: what `str` writes of an integer, `int` reads.
use Prim.Native.Nat.{ℕ, zero, suc, ◌+◌, ◌/◌, ◌%◌, ◌<◌}
use mathlib.Core.Bool.{Bool, true, false, not, ◌&&◌}
use mathlib.Core.List.{List, [], ◌∷◌, ◌++◌, reverse, reverse-append, reverse-reverse}
use mathlib.Core.Logic.{inl, inr}
use mathlib.Core.Option.{some}
use mathlib.Core.Path.{◌≡◌, refl, ap, ◌∙◌}
use native.Mathlib.Omega.{arith}
use tokenjuice_hermes.Common.Decimals.{
  is_digit, max_str_digits, digits_ok, unsigned, signed, int_of_text,
}
use tokenjuice_hermes.Common.Integers.{ℤ, pos, negsuc}
use tokenjuice_hermes.Common.Lines.{digits_text, number_text, decimal-number_text}
use tokenjuice_hermes.Common.Lists.{all, keep, length, is_empty}
use tokenjuice_hermes.Common.Tests.{leb, ltb, ◌==◌, Bool-cases}
use tokenjuice_hermes.Common.Texts.{Text, is_space, strip_left, strip}

-- `str(i)`
abbrev pub int_text : ℤ → Text
int_text (pos n) = number_text n
int_text (negsuc n) = b'-' ∷ number_text (suc n)

module _ {ℓ} {A : Type ℓ} (p : A → Bool) where
  pub all-append : (xs ys : List A) → all p (xs ++ ys) ≡ (all p xs && all p ys)
  unfolding all
  all-append [] ys = refl
  all-append (x ∷ xs) ys = ground (arith, all-append xs ys)

  all-reverse : (xs : List A) → all p xs ≡ true → all p (reverse xs) ≡ true
  unfolding all
  all-reverse [] h = refl
  all-reverse (x ∷ xs) h =
      let rest = all-reverse xs (ground (arith, h)) in
      ap (all p) (reverse-append (x ∷ []) xs)
      ∙ (all-append (reverse xs) (x ∷ []) ∙ ground (arith, h, rest))

  keep-all : (xs : List A) → all p xs ≡ true → keep p xs ≡ xs
  unfolding all keep
  keep-all [] h = refl
  keep-all (x ∷ xs) h =
      let e : p x ≡ true = ground (arith, h) in
      let rest = keep-all xs (ground (arith, h)) in ground (arith, e, rest)

all-digits_text : (fuel n : ℕ) → n < fuel → all is_digit (digits_text fuel n) ≡ true
unfolding digits_text all
all-digits_text zero n h = absurd (omega arith)
all-digits_text (suc fuel) n h = elim (Bool-cases (ltb n 10)) [
  | inl e ↦ rw e (ground (arith, e))
  | inr e ↦
      let smaller : n / 10 < fuel = ground arith in
      let rest = all-digits_text fuel (n / 10) smaller in
      let last : is_digit (b'0' + n % 10) ≡ true = ground arith in
      rw (e, all-append is_digit (digits_text fuel (n / 10)) ((b'0' + n % 10) ∷ []))
        (ground (arith, rest, last))
]

pub all-number_text : (n : ℕ) → all is_digit (number_text n) ≡ true
unfolding number_text
all-number_text n = all-digits_text (suc n) n (omega arith)

is_empty-append : (s : Text) (c : ℕ) → is_empty (s ++ c ∷ []) ≡ false
is_empty-append [] c = refl
is_empty-append (d ∷ s) c = refl

pub is_empty-number_text : (n : ℕ) → is_empty (number_text n) ≡ false
unfolding number_text digits_text
is_empty-number_text n = elim (Bool-cases (ltb n 10)) [
  | inl e ↦ rw e refl
  | inr e ↦ rw (e, is_empty-append (digits_text n (n / 10)) (b'0' + n % 10)) refl
]

-- No white space in it.
abbrev is_solid : ℕ → Bool
is_solid c = not (is_space c)

strip_left-solid : (s : Text) → all is_solid s ≡ true → strip_left s ≡ s
unfolding all strip_left
strip_left-solid [] h = refl
strip_left-solid (c ∷ s) h = let e : is_space c ≡ false = ground (arith, h) in ground (arith, e)

strip-solid : (s : Text) → all is_solid s ≡ true → strip s ≡ s
unfolding strip
strip-solid s h =
    rw
      (
        strip_left-solid s h,
        strip_left-solid (reverse s) (all-reverse is_solid s h),
        reverse-reverse s,
      )
      refl

-- Digits are solid, and `int` takes them as they are.
all-solid : (s : Text) → all is_digit s ≡ true → all is_solid s ≡ true
unfolding all
all-solid [] h = refl
all-solid (c ∷ s) h =
    let e : is_digit c ≡ true = ground (arith, h) in
    let solid : is_space c ≡ false = unfold is_space in ground (arith, e) in
    let rest = all-solid s (ground (arith, h)) in ground (arith, solid, rest)

digits_ok-all : (s : Text) → all is_digit s ≡ true → digits_ok false s ≡ true
unfolding digits_ok all
digits_ok-all [] h = refl
digits_ok-all (c ∷ s) h =
    let e : is_digit c ≡ true = ground (arith, h) in
    let rest = digits_ok-all s (ground (arith, h)) in ground (arith, e, rest)

digits_ok-nonempty :
    (s : Text) → all is_digit s ≡ true → is_empty s ≡ false → digits_ok true s ≡ true
unfolding digits_ok all
digits_ok-nonempty [] h k = absurd (ground (arith, k))
digits_ok-nonempty (c ∷ s) h k =
    let e : is_digit c ≡ true = ground (arith, h) in
    let rest = digits_ok-all s (ground (arith, h)) in ground (arith, e, rest)

unsigned-number_text :
    (n : ℕ) → leb (length (number_text n)) max_str_digits ≡ true → unsigned (number_text n) ≡ some n
unfolding unsigned
unsigned-number_text n short =
    let digits = all-number_text n in
    rw
      (
        keep-all is_digit (number_text n) digits,
        digits_ok-nonempty (number_text n) digits (is_empty-number_text n),
        short,
        decimal-number_text n,
      )
      refl

-- Digits are no sign.
signed-digits :
    (s : Text) (n : ℕ)
    → all is_digit s ≡ true
    → is_empty s ≡ false
    → unsigned s ≡ some n
    → signed s ≡ some (pos n)
signed-digits [] n h k e = absurd (ground (arith, k))
signed-digits (c ∷ s) n h k e =
    let d : is_digit c ≡ true = unfold all in ground (arith, h) in
    let minus : (c == b'-') ≡ false = ground (arith, d) in
    let plus : (c == b'+') ≡ false = ground (arith, d) in unfold signed in rw (minus, plus, e) refl

-- The digits that `str` writes of an integer.
abbrev pub digit_count : ℤ → ℕ
digit_count (pos n) = length (number_text n)
digit_count (negsuc n) = length (number_text (suc n))

-- What `str` writes of an integer of 4300 digits at most, `int` reads as that integer.
pub int_of_text-int_text :
    (i : ℤ) → leb (digit_count i) max_str_digits ≡ true → int_of_text (int_text i) ≡ some i
int_of_text-int_text (pos n) short =
    let digits = all-number_text n in
    unfold int_of_text in
    rw (strip-solid (number_text n) (all-solid (number_text n) digits)) (
      signed-digits (number_text n) n digits (is_empty-number_text n)
        (unsigned-number_text n short))
int_of_text-int_text (negsuc n) short =
    let digits = all-number_text (suc n) in
    let solid : all is_solid (b'-' ∷ number_text (suc n)) ≡ true =
      unfold all is_space in ground (arith, all-solid (number_text (suc n)) digits) in
    let minus : signed (b'-' ∷ number_text (suc n)) ≡ some (negsuc n) =
      unfold signed in rw (unsigned-number_text (suc n) short) refl in
    unfold int_of_text in rw (strip-solid (b'-' ∷ number_text (suc n)) solid) minus
