-- ===== src/Compaction/Fields.antt =====
-- tokenjuice_hermes/compaction.py: which fields of a terminal result the compaction may change.
use tokenjuice_hermes.Common.{
  Text, codes, text_eq, text_eq_iff, mem_text, ◌≡◌, refl, sym, subst, ◌∙◌, Bool, true, false, ◌||◌,
  not, some, List, [], ◌∷◌, get, put, get-put, keep, Bool-cases, Option-cases, inl, inr, arith,
  is_empty,
}
use tokenjuice_hermes.Compaction.Options.{TokenjuiceOptions}
use tokenjuice_hermes.Compaction.Terminal.{
  compact_text, compact_value, compact_fields, compactable_text_fields, compact_terminal_result,
  copy, is_embedded_diagnostic_field, tokenjuice_meta,
}
use tokenjuice_hermes.Json.{
  JsonScalar, JsonObject, FlatJsonObject, scalar, null, bool, int, float, str, get_scalar,
  is_error_payload,
}

-- A round changes no other field.
compact_value-get :
    (options : TokenjuiceOptions) (field k : Text) (value : JsonScalar)
    (acc : JsonObject × JsonObject)
    → text_eq field k ≡ false
    → get k (compact_value options field value acc).0 ≡ get k acc.0
compact_value-get options field k (str s) acc h = elim (Option-cases (compact_text s options)) [
  | inl e ↦ unfold compact_value in ground (arith, e)
  | inr (c, e) ↦
      let other = get-put field k (scalar (str c.text)) acc.0 in
      unfold compact_value in ground (arith, e, other)
]
compact_value-get options field k null acc h = unfold compact_value in refl
compact_value-get options field k (bool b) acc h = unfold compact_value in refl
compact_value-get options field k (int i) acc h = unfold compact_value in refl
compact_value-get options field k (float x) acc h = unfold compact_value in refl

compact_fields-get :
    (options : TokenjuiceOptions) (payload : FlatJsonObject) (fields : List Text) (k : Text)
    (acc : JsonObject × JsonObject)
    → mem_text k fields ≡ false
    → get k (compact_fields options payload fields acc).0 ≡ get k acc.0
unfolding compact_fields mem_text
compact_fields-get options payload [] k acc h = refl
compact_fields-get options payload (field ∷ rest) k acc h =
    let next = compact_value options field (get_scalar field payload) acc in
    let apart : text_eq field k ≡ false =
      ground (arith, text_eq_iff field k, text_eq_iff k field) in
    compact_fields-get options payload rest k next (ground arith)
    ∙ compact_value-get options field k (get_scalar field payload) acc apart

not_mem-keep :
    (p : Text → Bool) (k : Text) (xs : List Text) → p k ≡ false → mem_text k (keep p xs) ≡ false
unfolding keep mem_text
not_mem-keep p k [] h = refl
not_mem-keep p k (x ∷ xs) h = ground (arith, text_eq_iff k x, not_mem-keep p k xs h)

same_apart :
    (k field other : Text)
    → text_eq k field ≡ true
    → text_eq other field ≡ false
    → text_eq other k ≡ false
same_apart k field other h apart =
    subst (λ f. text_eq other f ≡ false) (sym ((text_eq_iff k field).0 h)) apart

-- The diagnostics of a failed command are no `tokenjuice` entry.
diagnostic_apart :
    (k : Text) (value : JsonScalar)
    → (text_eq k (codes "stderr") || is_embedded_diagnostic_field k value) ≡ true
    → text_eq (codes "tokenjuice") k ≡ false
diagnostic_apart k value h = elim (Bool-cases (text_eq k (codes "stderr"))) [
  | inl e ↦ same_apart k (codes "stderr") (codes "tokenjuice") e (unfold text_eq in refl)
  | inr e ↦
      let embedded : is_embedded_diagnostic_field k value ≡ true = ground arith in
      let output : text_eq k (codes "output") ≡ true =
        unfold is_embedded_diagnostic_field in ground arith in
      same_apart k (codes "output") (codes "tokenjuice") output (unfold text_eq in refl)
]

-- A field of an error payload that the compaction leaves alone.
is_left : FlatJsonObject → Text → Bool
is_left payload field =
    text_eq field (codes "stderr") || is_embedded_diagnostic_field field (get_scalar field payload)

module _ (is_zero_float : Text → Bool) where
  error_fields :
      (payload : FlatJsonObject) (options : TokenjuiceOptions)
      → is_error_payload is_zero_float payload ≡ true
      → compactable_text_fields is_zero_float payload options
        ≡ keep (λ field. not (is_left payload field)) options.text_fields
  unfolding compactable_text_fields is_left
  error_fields payload options h = rw h refl

  compact_terminal_result-get :
      (payload : FlatJsonObject) (options : TokenjuiceOptions) (r : JsonObject) (k : Text)
      → compact_terminal_result is_zero_float payload options ≡ some r
      → text_eq (codes "tokenjuice") k ≡ false
      → mem_text k (compactable_text_fields is_zero_float payload options) ≡ false
      → get k r ≡ get k (copy payload)
  compact_terminal_result-get payload options r k h other outside =
      let fields = compactable_text_fields is_zero_float payload options in
      let out = compact_fields options payload fields (copy payload, []) in
      let meta = tokenjuice_meta true payload options.mode out.1 in
      let kept = compact_fields-get options payload fields k (copy payload, []) outside in
      let placed = get-put (codes "tokenjuice") k meta out.0 in
      elim (Bool-cases (is_empty out.1)) [
        | inl e ↦ absurd (unfold compact_terminal_result in ground arith)
        | inr e ↦
            let made : put (codes "tokenjuice") meta out.0 ≡ r =
              unfold compact_terminal_result in ground arith in
            ground (arith, made, placed, kept)
      ]

  -- In what the compaction returns for an error payload, `stderr`, and `output` with a diagnostic
  -- embedded in it, are what they were.
  pub compact_terminal_result_exact :
      (payload : FlatJsonObject) (options : TokenjuiceOptions) (r : JsonObject) (k : Text)
      → compact_terminal_result is_zero_float payload options ≡ some r
      → is_error_payload is_zero_float payload ≡ true
      → (text_eq k (codes "stderr") || is_embedded_diagnostic_field k (get_scalar k payload)) ≡ true
      → get k r ≡ get k (copy payload)
  compact_terminal_result_exact payload options r k h failed diagnostic =
      compact_terminal_result-get payload options r k h
        (diagnostic_apart k (get_scalar k payload) diagnostic)
        (rw (error_fields payload options failed) (
          not_mem-keep (λ field. not (is_left payload field)) k options.text_fields
            (unfold is_left in ground (arith, diagnostic))))
