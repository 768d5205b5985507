-- ===== src/Json/Steps.antt =====
-- json_types.py: single steps of `JsonParser` on what the writer of Printer writes.
use tokenjuice_hermes.Common
use tokenjuice_hermes.Common.{
  Text, codes, int_text, ℕ, zero, suc, ◌≡◌, ◌<◌, ◌+◌, ◌*◌, refl, sym, ap, ◌∙◌, Bool, true, false,
  ◌&&◌, ◌||◌, not, Option, none, some, [], ◌∷◌, ◌++◌, length, put, put_fresh, has_key, ltb, leb,
  ◌==◌, arith, Bool-cases, Option-cases, inl, inr,
}
use tokenjuice_hermes.Json.{
  JsonValue, JsonScalar, JsonObject, Items, nil, cons, end, field, scalar, array, object, null,
  bool, int, float, str, fields_of,
}
use tokenjuice_hermes.Json.Numbers.{
  stops, follow, number-append, number-first, number-other, number-int_text,
}
use tokenjuice_hermes.Json.Parser.{
  NumberRuntime, read, refused, is_blank, skip, at, escape, string_chars, cons_char, array_of,
  number, word_or_number, parse_value, parse_members, parse_items, whole,
}
use tokenjuice_hermes.Json.Printer.{print_chars, print, IsPrintable, IsPrintableScalar}

string_chars_escaped :
    (c : ℕ) (s : Text)
    → (c == b'"' || c == b'\\') ≡ true
    → string_chars 0 (b'\\' ∷ c ∷ s) ≡ cons_char c (string_chars 0 s)
string_chars_escaped c s h =
    let same : escape (c ∷ s) ≡ some (c, 1) = unfold escape in ground (arith, h) in
    unfold string_chars in rw (same, string_chars) refl

string_chars_plain :
    (c : ℕ) (s : Text)
    → (c == b'"' || c == b'\\') ≡ false
    → string_chars 0 (c ∷ s) ≡ cons_char c (string_chars 0 s)
string_chars_plain c s h =
    let quote : (c == b'"') ≡ false = ground (arith, h) in
    let backslash : (c == b'\\') ≡ false = ground (arith, h) in
    unfold string_chars in rw (quote, backslash, string_chars) refl

-- A string is read back, up to the quotation mark that closes it.
string_chars-print_chars : (s rest : Text) → string_chars 0 (print_chars s rest) ≡ some (s, rest)
string_chars-print_chars [] rest = unfold string_chars print_chars in refl
string_chars-print_chars (c ∷ s) rest =
    let back = string_chars-print_chars s rest in
    elim (Bool-cases (c == b'"' || c == b'\\')) [
      | inl e ↦
          let written : print_chars (c ∷ s) rest ≡ b'\\' ∷ c ∷ print_chars s rest =
            unfold print_chars in rw e refl in
          rw (written, string_chars_escaped c (print_chars s rest) e, back) refl
      | inr e ↦
          let written : print_chars (c ∷ s) rest ≡ c ∷ print_chars s rest =
            unfold print_chars in rw e refl in
          rw (written, string_chars_plain c (print_chars s rest) e, back) refl
    ]

-- The text begins a value: with no white space and no closing bracket.
abbrev pub Opens : Text → Type 0
Opens [] = ⊥
Opens (c ∷ s) = (is_blank c || c == b']' || c == b'}') ≡ false

pub skip-Opens : (s : Text) → Opens s → skip s ≡ s
unfolding skip
skip-Opens [] h = absurd h
skip-Opens (c ∷ s) h = let e : is_blank c ≡ false = ground (arith, h) in rw e refl

at-Opens : (s : Text) → Opens s → at b']' s ≡ false
at-Opens [] h = absurd h
at-Opens (c ∷ s) h = ground (arith, h)

pub length-print_chars : (s rest : Text) → length rest < length (print_chars s rest)
unfolding print_chars
length-print_chars [] rest = omega arith
length-print_chars (c ∷ s) rest = ground (arith, length-print_chars s rest)

module _ (runtime : NumberRuntime) where
  open runtime use {is_digit}

  number_empty : (v : JsonValue) → number runtime [] ≡ read v [] → ⊥
  number_empty v h = let same : number runtime [] ≡ refused = unfold number in refl in cc (h, same)

  -- A number in front of a text, read as a value.
  number-Opens : (x rest : Text) (v : JsonValue) → number runtime x ≡ read v [] → Opens (x ++ rest)
  number-Opens [] rest v h = absurd (number_empty v h)
  number-Opens (c ∷ x) rest v h =
      let first = number-first runtime c x [] v h in
      let other : (d : ℕ)
          → ltb d 128 ≡ true
          → Common.is_digit d ≡ false
          → (d == b'-') ≡ false
          → (c == d) ≡ false =
        λ d. number-other runtime c d first in
      let a = other 32 refl refl refl in
      let b = other 10 refl refl refl in
      let e = other 13 refl refl refl in
      let f = other 9 refl refl refl in
      let g = other b']' refl refl refl in
      let k = other b'}' refl refl refl in ground (arith, a, b, e, f, g, k)

  word_or_number-number :
      (c : ℕ) (s : Text)
      → (c == b't' || c == b'f' || c == b'n') ≡ false
      → (c == b'-' || is_digit c) ≡ true
      → word_or_number runtime (c ∷ s) ≡ number runtime (c ∷ s)
  word_or_number-number c s h k =
      let t : (c == b't') ≡ false = ground (arith, h) in
      let f : (c == b'f') ≡ false = ground (arith, h) in
      let n : (c == b'n') ≡ false = ground (arith, h) in
      unfold word_or_number in rw (t, f, n, k) refl

  number_back :
      (f : ℕ) (x rest : Text) (v : JsonValue)
      → number runtime x ≡ read v []
      → stops rest ≡ true
      → parse_value runtime (suc f) (x ++ rest) ≡ read v rest
  number_back f [] rest v h k = absurd (number_empty v h)
  number_back f (c ∷ x) rest v h k =
      let first = number-first runtime c x [] v h in
      let other : (d : ℕ)
          → ltb d 128 ≡ true
          → Common.is_digit d ≡ false
          → (d == b'-') ≡ false
          → (c == d) ≡ false =
        λ d. number-other runtime c d first in
      let quote = other b'"' refl refl refl in
      let brace = other b'{' refl refl refl in
      let bracket = other b'[' refl refl refl in
      let t = other b't' refl refl refl in
      let u = other b'f' refl refl refl in
      let n = other b'n' refl refl refl in
      let same = word_or_number-number c (x ++ rest) (ground (arith, t, u, n)) first in
      let whole_text : number runtime (c ∷ (x ++ rest)) ≡ read v rest =
        number-append runtime (c ∷ x) rest k ∙ ap (follow rest) h in
      unfold parse_value in rw (quote, brace, bracket, same, parse_value) whole_text

  pub print-Opens : (v : JsonValue) (rest : Text) → IsPrintable runtime v → Opens (print v rest)
  unfolding print IsPrintable
  print-Opens (scalar null) rest h = refl
  print-Opens (scalar (bool true)) rest h = refl
  print-Opens (scalar (bool false)) rest h = refl
  print-Opens (scalar (int i)) rest h =
      number-Opens (int_text i) rest (scalar (int i)) (number-int_text runtime i h)
  print-Opens (scalar (float x)) rest h = number-Opens x rest (scalar (float x)) h
  print-Opens (scalar (str s)) rest h = refl
  print-Opens (array nil) rest h = refl
  print-Opens (array (cons v vs)) rest h = refl
  print-Opens (object end) rest h = refl
  print-Opens (object (field k v fs)) rest h = refl

  pub scalar_back :
      (f : ℕ) (s : JsonScalar) (rest : Text)
      → IsPrintableScalar runtime s
      → stops rest ≡ true
      → parse_value runtime (suc f) (print (scalar s) rest) ≡ read (scalar s) rest
  unfolding print
  scalar_back f null rest h k = unfold parse_value word_or_number in refl
  scalar_back f (bool true) rest h k = unfold parse_value word_or_number in refl
  scalar_back f (bool false) rest h k = unfold parse_value word_or_number in refl
  scalar_back f (int i) rest h k =
      number_back f (int_text i) rest (scalar (int i)) (number-int_text runtime i h) k
  scalar_back f (float x) rest h k = number_back f x rest (scalar (float x)) h k
  scalar_back f (str s) rest h k =
      unfold parse_value in rw (string_chars-print_chars s rest, parse_value) refl

  -- One item, with the bracket or the comma behind it.
  pub last_item :
      (f : ℕ) (s rest : Text) (v : JsonValue)
      → Opens s
      → parse_value runtime f s ≡ read v (b']' ∷ rest)
      → parse_items runtime (suc f) s ≡ read (cons v nil) rest
  last_item f [] rest v h e = absurd h
  last_item f (c ∷ s) rest v h e = unfold parse_items skip in rw (e, parse_items) refl

  pub first_item :
      (f : ℕ) (s t rest : Text) (v : JsonValue) (vs : Items)
      → Opens s
      → Opens t
      → parse_value runtime f s ≡ read v (b',' ∷ 32 ∷ t)
      → parse_items runtime f t ≡ read vs rest
      → parse_items runtime (suc f) s ≡ read (cons v vs) rest
  first_item f [] t rest v vs h k e g = absurd h
  first_item f (c ∷ s) t rest v vs h k e g =
      let blank = skip-Opens t k in
      unfold parse_items skip in rw (e, parse_items) (rw (blank, g) refl)

  pub empty_array :
      (f : ℕ) (rest : Text)
      → parse_value runtime (suc f) (b'[' ∷ b']' ∷ rest) ≡ read (array nil) rest
  empty_array f rest = unfold parse_value skip in refl

  pub empty_object :
      (f : ℕ) (rest : Text)
      → parse_value runtime (suc f) (b'{' ∷ b'}' ∷ rest) ≡ read (object end) rest
  empty_object f rest = unfold parse_value skip in refl

  pub nonempty_array :
      (f : ℕ) (s rest : Text) (vs : Items)
      → Opens s
      → parse_items runtime f s ≡ read vs rest
      → parse_value runtime (suc f) (b'[' ∷ s) ≡ read (array vs) rest
  nonempty_array f s rest vs h e =
      let blank = skip-Opens s h in
      let open_ : at b']' (skip s) ≡ false = rw blank (at-Opens s h) in
      let opened : parse_value runtime (suc f) (b'[' ∷ s)
          ≡ array_of (parse_items runtime f (skip s)) =
        unfold parse_value in rw (open_, parse_value) refl in
      rw (opened, blank, e) refl

  pub nonempty_object :
      (f : ℕ) (s rest : Text) (v : JsonValue)
      → parse_members runtime f [] (b'"' ∷ s) ≡ read v rest
      → parse_value runtime (suc f) (b'{' ∷ b'"' ∷ s) ≡ read v rest
  nonempty_object f s rest v e =
      let opened : parse_value runtime (suc f) (b'{' ∷ b'"' ∷ s)
          ≡ parse_members runtime f [] (b'"' ∷ s) =
        unfold parse_value skip in refl in
      opened ∙ e

  -- One member, from the quotation mark of its key on.
  pub last_member :
      (f : ℕ) (before : JsonObject) (k s rest : Text) (v : JsonValue)
      → Opens s
      → has_key k before ≡ false
      → parse_value runtime f s ≡ read v (b'}' ∷ rest)
      → parse_members runtime (suc f) before (b'"' ∷ print_chars k (b':' ∷ 32 ∷ s))
        ≡ read (object (fields_of (before ++ (k, v) ∷ []))) rest
  last_member f before k s rest v h fresh e =
      let blank = skip-Opens s h in
      let key = string_chars-print_chars k (b':' ∷ 32 ∷ s) in
      let new = put_fresh k v before fresh in
      unfold parse_members skip in
      rw (key, parse_members) (rw (blank, e, parse_members) (rw new refl))

  pub first_member :
      (f : ℕ) (before : JsonObject) (k s t rest : Text) (v whole : JsonValue)
      → Opens s
      → has_key k before ≡ false
      → parse_value runtime f s ≡ read v (b',' ∷ 32 ∷ b'"' ∷ t)
      → parse_members runtime f (before ++ (k, v) ∷ []) (b'"' ∷ t) ≡ read whole rest
      → parse_members runtime (suc f) before (b'"' ∷ print_chars k (b':' ∷ 32 ∷ s))
        ≡ read whole rest
  first_member f before k s t rest v whole h fresh e g =
      let blank = skip-Opens s h in
      let key = string_chars-print_chars k (b':' ∷ 32 ∷ s) in
      let new = put_fresh k v before fresh in
      unfold parse_members skip in
      rw (key, parse_members) (rw (blank, e, parse_members) (rw (new, g) refl))
