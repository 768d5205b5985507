-- ===== src/Json/Ends.antt =====
-- json_types.py: the parser of JSON comes to an end, and takes a character of the text at least for each
-- value.
use tokenjuice_hermes.Common.{
  Text, codes, starts_with, ℕ, zero, suc, ◌+◌, ◌*◌, ◌≤◌, ◌<◌, ◌≡◌, refl, ap, Bool, true, false,
  ◌||◌, not, some, [], ◌∷◌, ◌++◌, length, length-drop, drop, is_empty, ◌==◌, arith, Bool-cases,
  Option-cases, ◌⊎◌, inl, inr, put,
}
use tokenjuice_hermes.Json.{JsonValue, JsonObject, Items}
use tokenjuice_hermes.Json.Parser.{
  NumberRuntime, Reading, read, refused, out_of_fuel, skip, at, escape, string_chars, sign_span,
  digits_span, fraction_span, exponent_span, number_value, number, word_or_number, string_value,
  array_of, cons_item, parse_value, parse_members, parse_items,
}

-- The parser came to an end, and where it read something the text that is left is shorter.
abbrev pub Ends {ℓ} : {A : Type ℓ} → Text → Reading A → Type 0
Ends s (read a rest) = length rest < length s
Ends s refused = Unit
Ends s out_of_fuel = ⊥

pub length-skip : (s : Text) → length (skip s) ≤ length s
unfolding skip
length-skip [] = omega arith
length-skip (c ∷ s) = ground (arith, length-skip s)

length-string_chars :
    (skipped : ℕ) (s t rest : Text)
    → string_chars skipped s ≡ some (t, rest)
    → length rest < length s
unfolding string_chars
length-string_chars skipped [] t rest h = absurd (ground (arith, h))
length-string_chars (suc skipped) (c ∷ s) t rest h =
    omega (arith, length-string_chars skipped s t rest h)
length-string_chars zero (c ∷ s) t rest h = elim (Bool-cases (c == b'"')) [
  | inl e ↦ let same : s ≡ rest = ground (arith, e, h) in omega (arith, ap length same)
  | inr e ↦ elim (Bool-cases (c == b'\\')) [
    | inl f ↦ elim (Option-cases (escape s)) [
      | inl g ↦ absurd (ground (arith, e, f, g, h))
      | inr ((v, n), g) ↦ elim (Option-cases (string_chars n s)) [
        | inl k ↦ absurd (ground (arith, e, f, g, k, h))
        | inr ((t', rest'), k) ↦
            let same : rest' ≡ rest = ground (arith, e, f, g, k, h) in
            omega (arith, ap length same, length-string_chars n s t' rest' k)
      ]
    ]
    | inr f ↦ elim (Option-cases (string_chars 0 s)) [
      | inl k ↦ absurd (ground (arith, e, f, k, h))
      | inr ((t', rest'), k) ↦
          let same : rest' ≡ rest = ground (arith, e, f, k, h) in
          omega (arith, ap length same, length-string_chars 0 s t' rest' k)
    ]
  ]
]

-- Every text that is read ends.
pub Reading-cases {ℓ} :
    {A : Type ℓ} (r : Reading A)
    → ((a : A) × (rest : Text) × (r ≡ read a rest)) ⊎ (r ≡ refused) ⊎ (r ≡ out_of_fuel)
Reading-cases (read a rest) = inl (a, rest, refl)
Reading-cases refused = inr (inl refl)
Reading-cases out_of_fuel = inr (inr refl)

length-sign_span : (is_sign : ℕ → Bool) (s : Text) → length (sign_span is_sign s).1 ≤ length s
length-sign_span is_sign [] = omega arith
length-sign_span is_sign (c ∷ s) = ground arith

length-after : (s : Text) → length (drop 1 (skip s)) ≤ length s
length-after s = omega (arith, length-skip s, length-drop 1 (skip s))

length-next : (s : Text) → length (skip (drop 1 (skip s))) ≤ length s
length-next s = omega (arith, length-skip (drop 1 (skip s)), length-after s)

Ends-weaken {ℓ} :
    {A : Type ℓ} (s t : Text) (r : Reading A) → length s ≤ length t → Ends s r → Ends t r
Ends-weaken s t (read a rest) h e = omega (arith, h, e)
Ends-weaken s t refused h e = tt
Ends-weaken s t out_of_fuel h e = e

array_of-Ends : (s : Text) (r : Reading Items) → Ends s r → Ends s (array_of r)
array_of-Ends s (read vs rest) e = e
array_of-Ends s refused e = tt
array_of-Ends s out_of_fuel e = e

cons_item-Ends : (v : JsonValue) (s : Text) (r : Reading Items) → Ends s r → Ends s (cons_item v r)
cons_item-Ends v s (read vs rest) e = e
cons_item-Ends v s refused e = tt
cons_item-Ends v s out_of_fuel e = e

string_value-Ends : (c : ℕ) (s : Text) → Ends (c ∷ s) (string_value (string_chars 0 s))
string_value-Ends c s = elim (Option-cases (string_chars 0 s)) [
  | inl e ↦ rw e tt
  | inr ((t, rest), e) ↦ rw e (omega (arith, length-string_chars 0 s t rest e))
]

module _ (runtime : NumberRuntime) where
  length-digits_span :
      (s : Text) → length (digits_span runtime s).0 + length (digits_span runtime s).1 ≡ length s
  unfolding digits_span
  length-digits_span [] = omega arith
  length-digits_span (c ∷ s) = ground (arith, length-digits_span s)

  length-fraction_span : (s : Text) → length (fraction_span runtime s).1 ≤ length s
  length-fraction_span [] = unfold fraction_span in omega arith
  length-fraction_span (c ∷ s) =
      let ds = length-digits_span s in unfold fraction_span in ground (arith, ds)

  length-exponent_span : (s : Text) → length (exponent_span runtime s).1 ≤ length s
  length-exponent_span [] = unfold exponent_span in omega arith
  length-exponent_span (c ∷ s) =
      let sign = length-sign_span (λ d. d == b'+' || d == b'-') s in
      let ds = length-digits_span (sign_span (λ d. d == b'+' || d == b'-') s).1 in
      unfold exponent_span in ground (arith, sign, ds)

  number_value-Ends :
      (is_float : Bool) (raw rest s : Text)
      → length rest < length s
      → Ends s (number_value runtime is_float raw rest)
  unfolding number_value
  number_value-Ends true raw rest s h = elim (Bool-cases (runtime.has_float raw)) [
    | inl e ↦ rw e h
    | inr e ↦ rw e tt
  ]
  number_value-Ends false raw rest s h = elim (Option-cases (runtime.int_of raw)) [
    | inl e ↦ rw (e, Ends) tt
    | inr (i, e) ↦ rw (e, Ends) h
  ]

  number-Ends : (s : Text) → Ends s (number runtime s)
  unfolding number
  number-Ends s =
      let s1 = (sign_span (λ d. d == b'-') s).1 in
      let whole = digits_span runtime s1 in
      let fraction = fraction_span runtime whole.1 in
      let exponent = exponent_span runtime fraction.1 in
      let l1 = length-sign_span (λ d. d == b'-') s in
      let l2 = length-digits_span s1 in
      let l3 = length-fraction_span whole.1 in
      let l4 = length-exponent_span fraction.1 in
      elim (Bool-cases (is_empty whole.0)) [
        | inl e ↦ rw e tt
        | inr e ↦
            let some_digits : 0 < length whole.0 = ground (arith, e) in
            rw e (
              number_value-Ends (not (is_empty fraction.0) || not (is_empty exponent.0))
                ((sign_span (λ d. d == b'-') s).0 ++ (whole.0 ++ (fraction.0 ++ exponent.0)))
                exponent.1 s (omega (arith, l1, l2, l3, l4, some_digits)))
      ]

  word_or_number-Ends : (s : Text) → Ends s (word_or_number runtime s)
  unfolding word_or_number
  word_or_number-Ends [] = tt
  word_or_number-Ends (c ∷ s) =
      let three = length-drop 3 s in
      let four = length-drop 4 s in
      elim (Bool-cases (starts_with (c ∷ s) (codes "true"))) [
        | inl e ↦ rw e (omega (arith, three))
        | inr e ↦ elim (Bool-cases (starts_with (c ∷ s) (codes "false"))) [
          | inl f ↦ rw (e, f) (omega (arith, four))
          | inr f ↦ elim (Bool-cases (starts_with (c ∷ s) (codes "null"))) [
            | inl g ↦ rw (e, f, g) (omega (arith, three))
            | inr g ↦ elim (Bool-cases (c == b'-' || runtime.is_digit c)) [
              | inl k ↦ rw (e, f, g, k) (number-Ends (c ∷ s))
              | inr k ↦ rw (e, f, g, k) tt
            ]
          ]
        ]
      ]

  mutual
    unfolding parse_value

    value-Ends : (f : ℕ) (s : Text) → 2 * length s < f → Ends s (parse_value runtime f s)
    value-Ends zero s h = absurd (omega (arith, h))
    value-Ends (suc f) [] h = tt
    value-Ends (suc f) (c ∷ s) h =
        let after = length-after s in
        let blank = length-skip s in
        elim (Bool-cases (c == b'"')) [
          | inl e ↦ rw (e, Ends) (string_value-Ends c s)
          | inr e ↦ elim (Bool-cases (c == b'{')) [
            | inl g ↦ elim (Bool-cases (at b'}' (skip s))) [
              | inl k ↦ rw (e, g, k, Ends) (omega (arith, after))
              | inr k ↦
                  rw (e, g, k, Ends)
                    (Ends-weaken (skip s) (c ∷ s) (parse_members runtime f [] (skip s))
                      (omega (arith, blank)) (members-Ends f [] (skip s) (omega (arith, h, blank))))
            ]
            | inr g ↦ elim (Bool-cases (c == b'[')) [
              | inl k ↦ elim (Bool-cases (at b']' (skip s))) [
                | inl l ↦ rw (e, g, k, l, Ends) (omega (arith, after))
                | inr l ↦
                    rw (e, g, k, l, Ends)
                      (array_of-Ends (c ∷ s) (parse_items runtime f (skip s)) (
                        Ends-weaken (skip s) (c ∷ s) (parse_items runtime f (skip s))
                          (omega (arith, blank)) (items-Ends f (skip s) (omega (arith, h, blank)))))
              ]
              | inr k ↦ rw (e, g, k, Ends) (word_or_number-Ends (c ∷ s))
            ]
          ]
        ]

    members-Ends :
        (f : ℕ) (d : JsonObject) (s : Text)
        → 2 * length s + 1 < f
        → Ends s (parse_members runtime f d s)
    members-Ends zero d s h = absurd (omega (arith, h))
    members-Ends (suc f) d [] h = tt
    members-Ends (suc f) d (c ∷ s) h = elim (Option-cases (string_chars 0 s)) [
      | inl e ↦ rw (e, Ends) tt
      | inr ((key, s1), e) ↦ elim (Bool-cases (at b':' (skip s1))) [
        | inr g ↦ rw (e, g, Ends) tt
        | inl g ↦
            let u = skip (drop 1 (skip s1)) in
            let l1 = length-string_chars 0 s key s1 e in
            let l2 = length-next s1 in
            let ends = value-Ends f u (omega (arith, h, l1, l2)) in
            elim (Reading-cases (parse_value runtime f u)) [
              | inl (value, s2, k) ↦
                  let l3 : length s2 < length u = rw k at ends in
                  let l4 = length-after s2 in
                  let l5 = length-next s2 in
                  elim (Bool-cases (at b'}' (skip s2))) [
                    | inl m ↦ rw (e, g, k, m, Ends) (omega (arith, l1, l2, l3, l4))
                    | inr m ↦ elim (Bool-cases (at b',' (skip s2))) [
                      | inr n ↦ rw (e, g, k, m, n, Ends) tt
                      | inl n ↦
                          let w = skip (drop 1 (skip s2)) in
                          rw (e, g, k, m, n, Ends)
                            (Ends-weaken w (c ∷ s) (parse_members runtime f (put key value d) w)
                              (omega (arith, l1, l2, l3, l5))
                              (members-Ends f (put key value d) w
                                (omega (arith, h, l1, l2, l3, l5))))
                    ]
                  ]
              | inr (inl k) ↦ rw (e, g, k, Ends) tt
              | inr (inr k) ↦ absurd (rw k at ends)
            ]
      ]
    ]

    items-Ends : (f : ℕ) (s : Text) → 2 * length s + 1 < f → Ends s (parse_items runtime f s)
    items-Ends zero s h = absurd (omega (arith, h))
    items-Ends (suc f) [] h = tt
    items-Ends (suc f) (c ∷ s) h =
        let ends = value-Ends f (c ∷ s) (omega (arith, h)) in
        elim (Reading-cases (parse_value runtime f (c ∷ s))) [
          | inl (value, s1, e) ↦
              let l1 : length s1 < suc (length s) = rw e at ends in
              let l2 = length-after s1 in
              let l3 = length-next s1 in
              elim (Bool-cases (at b']' (skip s1))) [
                | inl g ↦ rw (e, g, Ends) (omega (arith, l1, l2))
                | inr g ↦ elim (Bool-cases (at b',' (skip s1))) [
                  | inr k ↦ rw (e, g, k, Ends) tt
                  | inl k ↦
                      let w = skip (drop 1 (skip s1)) in
                      rw (e, g, k, Ends)
                        (cons_item-Ends value (c ∷ s) (parse_items runtime f w) (
                          Ends-weaken w (c ∷ s) (parse_items runtime f w) (omega (arith, l1, l3))
                            (items-Ends f w (omega (arith, h, l1, l3)))))
                ]
              ]
          | inr (inl e) ↦ rw (e, Ends) tt
          | inr (inr e) ↦ absurd (rw e at ends)
        ]

  -- With more than twice as much fuel as the text has characters, the parser does not run out of it: it
  -- refuses the text, or reads a value and leaves a shorter text.
  pub parse_value-Ends : (f : ℕ) (s : Text) → 2 * length s < f → Ends s (parse_value runtime f s)
  parse_value-Ends f s h = value-Ends f s h
