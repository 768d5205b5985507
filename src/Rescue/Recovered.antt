-- ===== src/Rescue/Recovered.antt =====
-- rescue_transform.py: what a rescued result left behind in the store.
use tokenjuice_hermes.BlobStore.{BlobStore}
use tokenjuice_hermes.Common.{
  Text, mem_text, text_eq_refl, ℕ, ◌≤◌, ◌≡◌, ◌≢◌, refl, ap, Bool, true, false, Option, none, some,
  List, [], ◌∷◌, length, Outcome, ok, raise, Outcome-cases, Bool-cases, Option-cases, inl, inr,
  arith,
}
use tokenjuice_hermes.Json.{
  FlatJsonObject, JsonScalar, JsonValue, null, bool, int, float, str, get_scalar, is_error_payload,
}
use tokenjuice_hermes.Rescue.Options.{RescueOptions}
use tokenjuice_hermes.Rescue.Transform.{
  is_eligible_tool, threshold_for, oversized_text, find_oversized_field, parse_flat_json_object,
  can_rescue, excerpt_or_none, rescuable, transform_rescue_result,
}

oversized_text-inv :
    (threshold : ℕ) (v : JsonScalar) (text : Text)
    → oversized_text threshold v ≡ some text
    → (v ≡ str text) × (threshold ≤ length text)
unfolding oversized_text
oversized_text-inv threshold (str s) text h = (ground (arith, h), ground (arith, h))
oversized_text-inv threshold null text h = absurd (ground (arith, h))
oversized_text-inv threshold (bool b) text h = absurd (ground (arith, h))
oversized_text-inv threshold (int i) text h = absurd (ground (arith, h))
oversized_text-inv threshold (float x) text h = absurd (ground (arith, h))

find_oversized_field-inv :
    (parsed : FlatJsonObject) (threshold : ℕ) (fields : List Text) (field_name text : Text)
    → find_oversized_field parsed threshold fields ≡ some (field_name, text)
    → (mem_text field_name fields ≡ true)
      × (get_scalar field_name parsed ≡ str text)
      × (threshold ≤ length text)
unfolding find_oversized_field mem_text
find_oversized_field-inv parsed threshold [] field_name text h = absurd (ground (arith, h))
find_oversized_field-inv parsed threshold (f ∷ fields) field_name text h =
    elim (Option-cases (oversized_text threshold (get_scalar f parsed))) [
      | inl e ↦
          let h' : find_oversized_field parsed threshold fields ≡ some (field_name, text) =
            cc (e, h) in
          let (there, value, long) =
            find_oversized_field-inv parsed threshold fields field_name text h' in
          (ground (arith, there), value, long)
      | inr (s, e) ↦
          let (value, long) = oversized_text-inv threshold (get_scalar f parsed) s e in
          let name : f ≡ field_name = cc (e, h) in
          let same : s ≡ text = cc (e, h) in
          (ground (arith, name, text_eq_refl f), cc (value, name, same), ground (arith, long, same))
    ]

module _ (is_zero_float : Text → Bool) (parse_json : Text → Option JsonValue) where
  can_rescue-inv :
      (tool_name : Text) (o : Option FlatJsonObject) (options : RescueOptions)
      (parsed : FlatJsonObject)
      → can_rescue is_zero_float parse_json tool_name o options ≡ some parsed
      → (o ≡ some parsed)
        × (is_error_payload is_zero_float parsed ≡ false)
        × (is_eligible_tool tool_name options ≡ true)
  unfolding can_rescue
  can_rescue-inv tool_name none options parsed h = absurd (ground (arith, h))
  can_rescue-inv tool_name (some p) options parsed h =
      elim (Bool-cases (is_error_payload is_zero_float p)) [
        | inl e ↦ absurd (ground (arith, e, h))
        | inr e ↦ elim (Bool-cases (is_eligible_tool tool_name options)) [
          | inr f ↦ absurd (ground (arith, e, f, h))
          | inl f ↦
              let same : p ≡ parsed = ground (arith, e, f, h) in (ap some same, cc (e, same), f)
        ]
      ]

  module _ (exists : Text → Bool) (build_excerpt : Text → Text → Outcome Text)
      (store : BlobStore) where
    open store use {State, put, session_references, blob_text}

    rescuable-inv :
        (result tool_name field_name text : Text) (options : RescueOptions)
        → rescuable is_zero_float parse_json exists build_excerpt store result tool_name options
          ≡ some (field_name, text)
        → (parsed : FlatJsonObject) × (parse_flat_json_object is_zero_float parse_json result
            ≡ some parsed)
          × (is_error_payload is_zero_float parsed ≡ false)
          × (is_eligible_tool tool_name options ≡ true)
          × (mem_text field_name options.text_fields ≡ true)
          × (get_scalar field_name parsed ≡ str text)
          × (threshold_for tool_name options ≤ length text)
    rescuable-inv result tool_name field_name text options h =
        let o = parse_flat_json_object is_zero_float parse_json result in
        elim (Option-cases (can_rescue is_zero_float parse_json tool_name o options)) [
          | inl e ↦ absurd (unfold rescuable in ground (arith, e, h))
          | inr (parsed, e) ↦
              let (found, fine, eligible) = can_rescue-inv tool_name o options parsed e in
              let field_found : find_oversized_field parsed (threshold_for tool_name options)
                    options.text_fields
                  ≡ some (field_name, text) =
                unfold rescuable in ground (arith, e, h) in
              let (there, value, long) =
                find_oversized_field-inv parsed (threshold_for tool_name options)
                  options.text_fields field_name text field_found in
              (parsed, found, fine, eligible, there, value, long)
        ]

    excerpt_or_none-inv :
        (text rescued : Text) (o : Outcome Text) (s s' : State)
        → excerpt_or_none is_zero_float parse_json exists build_excerpt store text (o, s)
          ≡ (ok (some rescued), s')
        → (handle : Text) × (o ≡ ok handle)
          × (handle ≢ [])
          × (s ≡ s')
          × (build_excerpt text handle ≡ ok rescued)
    unfolding excerpt_or_none
    excerpt_or_none-inv text rescued (raise e) s s' h = absurd (ground (arith, h))
    excerpt_or_none-inv text rescued (ok []) s s' h = absurd (ground (arith, h))
    excerpt_or_none-inv text rescued (ok (c ∷ t)) s s' h =
        elim (Outcome-cases (build_excerpt text (c ∷ t))) [
          | inl (e, g) ↦ absurd (ground (arith, g, h))
          | inr (shown, g) ↦
              (c ∷ t, refl, λ e. ground (arith, e), ground (arith, g, h), ground (arith, g, h))
        ]

    -- When a result is rescued, it was a flat object and no error, of an eligible tool, with a text in one
    -- of the fields that is as long as the tool's threshold; what takes its place is the excerpt of that
    -- text with a handle that is the session's by then and redeems the very text.
    pub transform_rescue_result-redeems :
        (result tool_name rescued : Text) (options : RescueOptions) (s s' : State)
        → transform_rescue_result is_zero_float parse_json exists build_excerpt store result
            tool_name options s
          ≡ (ok (some rescued), s')
        → (parsed : FlatJsonObject) × (field_name : Text) × (text : Text) × (handle : Text)
          × (parse_flat_json_object is_zero_float parse_json result ≡ some parsed)
          × (is_error_payload is_zero_float parsed ≡ false)
          × (is_eligible_tool tool_name options ≡ true)
          × (mem_text field_name options.text_fields ≡ true)
          × (get_scalar field_name parsed ≡ str text)
          × (threshold_for tool_name options ≤ length text)
          × (build_excerpt text handle ≡ ok rescued)
          × (session_references handle options.session_id s' ≡ ok true)
          × (blob_text handle s' ≡ some text)
    transform_rescue_result-redeems result tool_name rescued options s s' h =
        elim (Option-cases (
          rescuable is_zero_float parse_json exists build_excerpt store result tool_name options)) [
            | inl e ↦ absurd (unfold transform_rescue_result in ground (arith, e, h))
            | inr ((field_name, text), e) ↦
                let (parsed, found, fine, eligible, there, value, long) =
                  rescuable-inv result tool_name field_name text options e in
                let p = put text tool_name options.session_id s in
                let made : excerpt_or_none is_zero_float parse_json exists build_excerpt store text
                      (p.0, p.1)
                    ≡ (ok (some rescued), s') =
                  unfold transform_rescue_result in cc (e, h) in
                let (handle, given, nonempty, state, shown) =
                  excerpt_or_none-inv text rescued p.0 p.1 s' made in
                let (owned, held) =
                  store.put_redeems text tool_name options.session_id handle s s'
                    (cc (given, state)) nonempty in
                (
                  parsed, field_name, text, handle, found, fine, eligible, there, value, long,
                  shown, owned, held,
                )
          ]
