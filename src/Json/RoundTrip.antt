-- ===== src/Json/RoundTrip.antt =====
-- json_types.py: `JsonParser` reads what the writer of Printer writes.
use mathlib.Core.List.{append_assoc}
use tokenjuice_hermes.Common.{
  Text, ℕ, zero, suc, ◌≡◌, ◌<◌, ◌+◌, ◌*◌, refl, ap, ◌∙◌, true, false, some, [], ◌∷◌, ◌++◌, length,
  has_key, arith,
}
use tokenjuice_hermes.Json.{
  JsonValue, JsonObject, Items, Fields, nil, cons, end, field, scalar, array, object, entries,
  fields_of, fields_of-entries,
}
use tokenjuice_hermes.Json.Ends.{parse_value-Ends}
use tokenjuice_hermes.Json.Numbers.{stops}
use tokenjuice_hermes.Json.Parser.{
  NumberRuntime, read, parse_value, parse_members, parse_items, parse_json, whole,
}
use tokenjuice_hermes.Json.Printer.{
  print_chars, print, print_items, print_fields, IsPrintable, IsPrintableItems, IsPrintableFields,
}
use tokenjuice_hermes.Json.Steps.{
  length-print_chars, print-Opens, scalar_back, last_item, first_item, nonempty_array, empty_array,
  empty_object, nonempty_object, last_member, first_member, skip-Opens,
}

module _ (runtime : NumberRuntime) where
  -- What is left behind a value that was read is shorter.
  length_read :
      (f : ℕ) (s rest : Text) (v : JsonValue)
      → 2 * length s < f
      → parse_value runtime f s ≡ read v rest
      → length rest < length s
  length_read f s rest v h e = rw e at (parse_value-Ends runtime f s h)

  mutual
    unfolding print IsPrintable entries fields_of

    value_back :
        (f : ℕ) (v : JsonValue) (rest : Text)
        → IsPrintable runtime v
        → stops rest ≡ true
        → 2 * length (print v rest) < f
        → parse_value runtime f (print v rest) ≡ read v rest
    value_back zero v rest h k l = absurd (omega (arith, l))
    value_back (suc f) (scalar s) rest h k l = scalar_back runtime f s rest h k
    value_back (suc f) (array nil) rest h k l = empty_array runtime f rest
    value_back (suc f) (array (cons v vs)) rest h k l =
        nonempty_array runtime f (print v (print_items vs rest)) rest (cons v vs)
          (print-Opens runtime v (print_items vs rest) h.0)
          (items_back f v vs rest h.0 h.1 (omega (arith, l)))
    value_back (suc f) (object end) rest h k l = empty_object runtime f rest
    value_back (suc f) (object (field j v fs)) rest h k l =
        nonempty_object runtime f (print_chars j (b':' ∷ 32 ∷ print v (print_fields fs rest))) rest
          (object (field j v fs))
          (fields_back f [] j v fs rest h.0 h.1 h.2 (omega (arith, l))
            ∙ ap (λ fs'. read (object (field j v fs')) rest) (fields_of-entries fs))

    items_back :
        (f : ℕ) (v : JsonValue) (vs : Items) (rest : Text)
        → IsPrintable runtime v
        → IsPrintableItems runtime vs
        → 2 * length (print v (print_items vs rest)) + 1 < f
        → parse_items runtime f (print v (print_items vs rest)) ≡ read (cons v vs) rest
    items_back zero v vs rest h k l = absurd (omega (arith, l))
    items_back (suc f) v nil rest h k l =
        last_item runtime f (print v (b']' ∷ rest)) rest v (print-Opens runtime v (b']' ∷ rest) h)
          (value_back f v (b']' ∷ rest) h refl (omega (arith, l)))
    items_back (suc f) v (cons w vs) rest h k l =
        let t = print w (print_items vs rest) in
        let e = value_back f v (b',' ∷ 32 ∷ t) h refl (omega (arith, l)) in
        let shorter =
          length_read f (print v (b',' ∷ 32 ∷ t)) (b',' ∷ 32 ∷ t) v (omega (arith, l)) e in
        first_item runtime f (print v (b',' ∷ 32 ∷ t)) t rest v (cons w vs)
          (print-Opens runtime v (b',' ∷ 32 ∷ t) h)
          (print-Opens runtime w (print_items vs rest) k.0) e
          (items_back f w vs rest k.0 k.1 (omega (arith, l, shorter)))

    fields_back :
        (f : ℕ) (before : JsonObject) (j : Text) (v : JsonValue) (fs : Fields) (rest : Text)
        → has_key j before ≡ false
        → IsPrintable runtime v
        → IsPrintableFields runtime (before ++ (j, v) ∷ []) fs
        → 2 * length (b'"' ∷ print_chars j (b':' ∷ 32 ∷ print v (print_fields fs rest))) + 1 < f
        → parse_members runtime f before
            (b'"' ∷ print_chars j (b':' ∷ 32 ∷ print v (print_fields fs rest)))
          ≡ read (object (fields_of (before ++ (j, v) ∷ entries fs))) rest
    fields_back zero before j v fs rest fresh h k l = absurd (omega (arith, l))
    fields_back (suc f) before j v end rest fresh h k l =
        let shorter = length-print_chars j (b':' ∷ 32 ∷ print v (b'}' ∷ rest)) in
        last_member runtime f before j (print v (b'}' ∷ rest)) rest v
          (print-Opens runtime v (b'}' ∷ rest) h) fresh
          (value_back f v (b'}' ∷ rest) h refl (omega (arith, l, shorter)))
    fields_back (suc f) before j v (field i w fs) rest fresh h k l =
        let t = print_chars i (b':' ∷ 32 ∷ print w (print_fields fs rest)) in
        let next = b',' ∷ 32 ∷ b'"' ∷ t in
        let key = length-print_chars j (b':' ∷ 32 ∷ print v next) in
        let e = value_back f v next h refl (omega (arith, l, key)) in
        let shorter = length_read f (print v next) next v (omega (arith, l, key)) e in
        first_member runtime f before j (print v next) t rest v
          (object (fields_of (before ++ (j, v) ∷ entries (field i w fs))))
          (print-Opens runtime v next h) fresh e
          (fields_back f (before ++ (j, v) ∷ []) i w fs rest k.0 k.1 k.2
              (omega (arith, l, key, shorter))
            ∙ ap (λ d. read (object (fields_of d)) rest)
                (append_assoc before ((j, v) ∷ []) ((i, w) ∷ entries fs)))

  -- What the writer writes of a value that can be written, the parser reads as that value.
  pub parse_json-print :
      (v : JsonValue) → IsPrintable runtime v → parse_json runtime (print v []) ≡ some v
  parse_json-print v h =
      let s = print v [] in
      let blank = skip-Opens s (print-Opens runtime v [] h) in
      let back = value_back (2 * length s + 1) v [] h refl (omega arith) in
      unfold parse_json in rw (blank, back, whole) refl
