-- ===== src/Json/Numbers.antt =====
-- json_types.py: `_number` and the texts that follow a number, and the numbers that `str` writes.
use mathlib.Core.List.{append-nil}
use tokenjuice_hermes.Common
use tokenjuice_hermes.Common.{
  Text, int_text, number_text, int_of_text-int_text, all-number_text, is_empty-number_text, ℕ, suc,
  ◌≡◌, refl, ◌∙◌, Bool, true, false, ◌&&◌, ◌||◌, not, none, some, [], ◌∷◌, ◌++◌, pos, negsuc, all,
  is_empty, ltb, leb, ◌==◌, arith, Bool-cases, Option-cases, inl, inr, digit_count, max_str_digits,
  ℤ,
}
use tokenjuice_hermes.Json.{JsonValue, scalar, int}
use tokenjuice_hermes.Json.Parser.{
  NumberRuntime, Reading, read, refused, out_of_fuel, sign_span, digits_span, fraction_span,
  exponent_span, number_value, number,
}

-- The texts that end a number: the empty one, and those that begin with a comma or a closing bracket.
abbrev pub stops : Text → Bool
stops [] = true
stops (c ∷ s) = c == b',' || c == b']' || c == b'}'

-- The reading with a text behind the one that is left.
abbrev pub follow {ℓ} : {A : Type ℓ} → Text → Reading A → Reading A
follow rest (read a s) = read a (s ++ rest)
follow rest refused = refused
follow rest out_of_fuel = out_of_fuel

module _ (runtime : NumberRuntime) where
  open runtime use {is_digit, int_of, is_digit-ascii, int_of-ascii}

  is_digit-stop : (c : ℕ) (s : Text) → stops (c ∷ s) ≡ true → is_digit c ≡ false
  is_digit-stop c s h =
      let small : ltb c 128 ≡ true = ground (arith, h) in is_digit-ascii c small ∙ ground (arith, h)

  digits_span-append :
      (s rest : Text)
      → stops rest ≡ true
      → digits_span runtime (s ++ rest)
        ≡ ((digits_span runtime s).0, (digits_span runtime s).1 ++ rest)
  unfolding digits_span
  digits_span-append [] [] h = refl
  digits_span-append [] (c ∷ rest) h = rw (is_digit-stop c rest h) refl
  digits_span-append (c ∷ s) rest h = elim (Bool-cases (is_digit c)) [
    | inl e ↦ rw (e, digits_span-append s rest h) refl
    | inr e ↦ rw e refl
  ]

  fraction_span-append :
      (s rest : Text)
      → stops rest ≡ true
      → fraction_span runtime (s ++ rest)
        ≡ ((fraction_span runtime s).0, (fraction_span runtime s).1 ++ rest)
  unfolding fraction_span
  fraction_span-append [] [] h = refl
  fraction_span-append [] (c ∷ rest) h =
      let e : (c == b'.') ≡ false = ground (arith, h) in rw e refl
  fraction_span-append (c ∷ s) rest h = elim (Bool-cases (c == b'.')) [
    | inl e ↦ rw (e, digits_span-append s rest h) refl
    | inr e ↦ rw e refl
  ]

  sign_span-append :
      (is_sign : ℕ → Bool) (s rest : Text)
      → ((c : ℕ) → is_sign c ≡ true → (c == b'+' || c == b'-') ≡ true)
      → stops rest ≡ true
      → sign_span is_sign (s ++ rest) ≡ ((sign_span is_sign s).0, (sign_span is_sign s).1 ++ rest)
  sign_span-append is_sign [] [] signs h = refl
  sign_span-append is_sign [] (c ∷ rest) signs h = elim (Bool-cases (is_sign c)) [
    | inl e ↦ absurd (ground (arith, h, signs c e))
    | inr e ↦ rw e refl
  ]
  sign_span-append is_sign (c ∷ s) rest signs h = elim (Bool-cases (is_sign c)) [
    | inl e ↦ rw e refl
    | inr e ↦ rw e refl
  ]

  exponent_span-append :
      (s rest : Text)
      → stops rest ≡ true
      → exponent_span runtime (s ++ rest)
        ≡ ((exponent_span runtime s).0, (exponent_span runtime s).1 ++ rest)
  unfolding exponent_span
  exponent_span-append [] [] h = refl
  exponent_span-append [] (c ∷ rest) h =
      let e : (c == b'e' || c == b'E') ≡ false = ground (arith, h) in rw e refl
  exponent_span-append (c ∷ s) rest h = elim (Bool-cases (c == b'e' || c == b'E')) [
    | inl e ↦
        rw
          (
            e,
            sign_span-append (λ d. d == b'+' || d == b'-') s rest (λ d k. k) h,
            digits_span-append (sign_span (λ d. d == b'+' || d == b'-') s).1 rest h,
          )
          refl
    | inr e ↦ rw e refl
  ]

  number_value-append :
      (is_float : Bool) (raw s rest : Text)
      → number_value runtime is_float raw (s ++ rest)
        ≡ follow rest (number_value runtime is_float raw s)
  unfolding number_value
  number_value-append true raw s rest = elim (Bool-cases (runtime.has_float raw)) [
    | inl e ↦ rw e refl
    | inr e ↦ rw e refl
  ]
  number_value-append false raw s rest = elim (Option-cases (int_of raw)) [
    | inl e ↦ rw (e, number_value) refl
    | inr (i, e) ↦ rw (e, number_value) refl
  ]

  -- What follows a number is left as it is.
  pub number-append :
      (s rest : Text)
      → stops rest ≡ true
      → number runtime (s ++ rest) ≡ follow rest (number runtime s)
  unfolding number
  number-append s rest h =
      let s1 = (sign_span (λ d. d == b'-') s).1 in
      let whole = digits_span runtime s1 in
      let fraction = fraction_span runtime whole.1 in
      let exponent = exponent_span runtime fraction.1 in
      elim (Bool-cases (is_empty whole.0)) [
        | inl e ↦
            rw
              (
                sign_span-append (λ d. d == b'-') s rest (λ c k. ground (arith, k)) h,
                digits_span-append s1 rest h,
                e,
              )
              refl
        | inr e ↦
            rw
              (
                sign_span-append (λ d. d == b'-') s rest (λ c k. ground (arith, k)) h,
                digits_span-append s1 rest h,
                fraction_span-append whole.1 rest h,
                exponent_span-append fraction.1 rest h,
                e,
              )
              (number_value-append (not (is_empty fraction.0) || not (is_empty exponent.0))
                ((sign_span (λ d. d == b'-') s).0 ++ (whole.0 ++ (fraction.0 ++ exponent.0)))
                exponent.1 rest)
      ]

  -- A number begins with a minus sign or a digit.
  pub number-first :
      (c : ℕ) (s rest : Text) (v : JsonValue)
      → number runtime (c ∷ s) ≡ read v rest
      → (c == b'-' || is_digit c) ≡ true
  number-first c s rest v h = elim (Bool-cases (c == b'-')) [
    | inl e ↦ rw e refl
    | inr e ↦ elim (Bool-cases (is_digit c)) [
      | inl g ↦ rw (e, g) refl
      | inr g ↦
          let same : number runtime (c ∷ s) ≡ refused =
            unfold number digits_span in rw (e, g) refl in
          absurd (cc (h, same))
    ]
  ]

  -- What is neither a sign nor a digit begins no number.
  pub number-other :
      (c d : ℕ)
      → (c == b'-' || is_digit c) ≡ true
      → ltb d 128 ≡ true
      → Common.is_digit d ≡ false
      → (d == b'-') ≡ false
      → (c == d) ≡ false
  number-other c d h small digit minus = elim (Bool-cases (c == d)) [
    | inr e ↦ e
    | inl e ↦
        let same : c ≡ d = ground (arith, e) in
        let no : is_digit c ≡ false = rw same (is_digit-ascii d small ∙ digit) in
        absurd (ground (arith, h, no, minus, same))
  ]

  digits_span-all : (s : Text) → all Common.is_digit s ≡ true → digits_span runtime s ≡ (s, [])
  unfolding digits_span all
  digits_span-all [] h = refl
  digits_span-all (c ∷ s) h =
      let digit : Common.is_digit c ≡ true = ground (arith, h) in
      let small : ltb c 128 ≡ true = ground (arith, digit) in
      let e : is_digit c ≡ true = is_digit-ascii c small ∙ digit in
      rw (e, digits_span-all s (ground (arith, h))) refl

  all-ascii : (s : Text) → all Common.is_digit s ≡ true → all (λ c. ltb c 128) s ≡ true
  unfolding all
  all-ascii [] h = refl
  all-ascii (c ∷ s) h =
      let digit : Common.is_digit c ≡ true = ground (arith, h) in
      let rest = all-ascii s (ground (arith, h)) in ground (arith, digit, rest)

  number-digits :
      (s : Text) (i : ℤ)
      → all Common.is_digit s ≡ true
      → is_empty s ≡ false
      → int_of s ≡ some i
      → number runtime s ≡ read (scalar (int i)) []
  number-digits [] i h k e = absurd (ground (arith, k))
  number-digits (c ∷ s) i h k e =
      let minus : (c == b'-') ≡ false = unfold all in ground (arith, h) in
      unfold number fraction_span exponent_span number_value in
      rw (minus, digits_span-all (c ∷ s) h, append-nil s, e, number_value) refl

  number-minus :
      (s : Text) (i : ℤ)
      → all Common.is_digit s ≡ true
      → is_empty s ≡ false
      → int_of (b'-' ∷ s) ≡ some i
      → number runtime (b'-' ∷ s) ≡ read (scalar (int i)) []
  number-minus s i h k e =
      unfold number fraction_span exponent_span number_value in
      rw (digits_span-all s h, k, append-nil s, e, number_value) refl

  -- What `str` writes of an integer of 4300 digits at most is read as that integer.
  pub number-int_text :
      (i : ℤ)
      → leb (digit_count i) max_str_digits ≡ true
      → number runtime (int_text i) ≡ read (scalar (int i)) []
  number-int_text (pos n) short =
      let digits = all-number_text n in
      number-digits (number_text n) (pos n) digits (is_empty-number_text n) (
        int_of-ascii (number_text n) (all-ascii (number_text n) digits)
        ∙ int_of_text-int_text (pos n) short)
  number-int_text (negsuc n) short =
      let digits = all-number_text (suc n) in
      let ascii : all (λ c. ltb c 128) (b'-' ∷ number_text (suc n)) ≡ true =
        unfold all in all-ascii (number_text (suc n)) digits in
      number-minus (number_text (suc n)) (negsuc n) digits (is_empty-number_text (suc n))
        (int_of-ascii (b'-' ∷ number_text (suc n)) ascii ∙ int_of_text-int_text (negsuc n) short)
