-- ===== src/Compaction/Stored.antt =====
-- compaction.py over rescue_transform.py: the hook on results with the parts that it calls.
use tokenjuice_hermes.BlobStore.{BlobStore}
use tokenjuice_hermes.Common.{
  Text, codes, mem_text, ◌≡◌, refl, ap, ◌∙◌, Bool, false, Option, none, some, [], Outcome, ok,
  raise, Option-cases, Bool-cases, inl, inr, arith,
}
use tokenjuice_hermes.Compaction.Options.{
  TokenjuiceOptions, parse_options, protected_tool_names, supported_tool_names,
}
use tokenjuice_hermes.Compaction.Transform.{
  transform_tool_result, with_options, after_rescue, rescue_first, counted_rescue,
  counted_compaction, transform_terminal_path,
}
use tokenjuice_hermes.Json.{JsonValue, JsonObject, FlatJsonObject, null, get_scalar}
use tokenjuice_hermes.Observability.{Counters}
use tokenjuice_hermes.Rescue.Options.{
  RescueOptions, parse_rescue_options, nonnegative_int_arg, str_list_arg, tool_threshold_map_arg,
  min_text_chars_default, rescue_tool_names, rescue_text_fields,
}
use tokenjuice_hermes.Rescue.Transform.{
  can_rescue, rescuable, parse_flat_json_object, transform_rescue_result,
}

-- The result of a rescue that raises nothing, as none does over the store of rescue_store.py where
-- `build_excerpt` raises nothing.
abbrev pub rescue_or_none {ℓ} : {S : Type ℓ} → Outcome (Option Text) × S → Option Text × S
rescue_or_none (ok shown, s) = (shown, s)
rescue_or_none (raise e, s) = (none, s)

-- Without the flag, the options say that there is no fetch tool.
parse_rescue_options-unavailable :
    (kwargs : FlatJsonObject) (options : RescueOptions)
    → get_scalar (codes "tokenjuice_rescue_fetch_available") kwargs ≡ null
    → parse_rescue_options kwargs ≡ some options
    → options.fetch_available ≡ false
unfolding parse_rescue_options
parse_rescue_options-unavailable kwargs options h e =
    let a =
      nonnegative_int_arg (get_scalar (codes "tokenjuice_rescue_min_text_chars") kwargs)
        min_text_chars_default in
    let b =
      tool_threshold_map_arg (get_scalar (codes "tokenjuice_rescue_tool_min_text_chars") kwargs)
        [] in
    let c =
      str_list_arg (get_scalar (codes "tokenjuice_rescue_tool_names") kwargs) rescue_tool_names in
    let d = str_list_arg (get_scalar (codes "tokenjuice_rescue_excluded_tools") kwargs) [] in
    let f =
      str_list_arg (get_scalar (codes "tokenjuice_rescue_text_fields") kwargs) rescue_text_fields in
    elim (Option-cases a) [
      | inl g ↦ absurd (ground (arith, h, e, g))
      | inr (a', g) ↦ elim (Option-cases b) [
        | inl g' ↦ absurd (ground (arith, h, e, g, g'))
        | inr (b', g') ↦ elim (Option-cases c) [
          | inl i ↦ absurd (ground (arith, h, e, g, g', i))
          | inr (c', i) ↦ elim (Option-cases d) [
            | inl i' ↦ absurd (ground (arith, h, e, g, g', i, i'))
            | inr (d', i') ↦ elim (Option-cases f) [
              | inl j ↦ absurd (ground (arith, h, e, g, g', i, i', j))
              | inr (f', j) ↦ ground (arith, h, e, g, g', i, i', j)
            ]
          ]
        ]
      ]
    ]

module _ (is_zero_float : Text → Bool) (parse_json : Text → Option JsonValue) (exists : Text → Bool)
    (build_excerpt : Text → Text → Text) (store : BlobStore)
    (dump_json_object : JsonObject → Text) where
  open store use {State}

  -- The excerpt of a text that `json.loads` ends on.
  abbrev pub excerpt : Text → Text → Outcome Text
  excerpt text handle = ok (build_excerpt text handle)

  abbrev pub rescue : Text → Text → RescueOptions → State → Option Text × State
  rescue result tool_name options s = rescue_or_none (
      transform_rescue_result is_zero_float parse_json exists excerpt store result tool_name options
        s)

  -- `transform_tool_result` with the rescue of a result.
  unfoldable pub stored_transform :
      Text → Text → FlatJsonObject → Counters → State → (Option Text × Counters) × State
  stored_transform result tool_name kwargs k s =
      transform_tool_result is_zero_float parse_json dump_json_object parse_rescue_options rescue
        result tool_name kwargs k s

  rescuable-unavailable :
      (result tool_name : Text) (options : RescueOptions)
      → options.fetch_available ≡ false
      → rescuable is_zero_float parse_json exists excerpt store result tool_name options ≡ none
  unfolding rescuable can_rescue
  rescuable-unavailable result tool_name options h =
      elim (Option-cases (parse_flat_json_object is_zero_float parse_json result)) [
        | inl e ↦ ground (arith, e)
        | inr (parsed, e) ↦ ground (arith, e, h)
      ]

  -- A call that neither changes the store nor counts a rescue.
  abbrev Idle : Counters → State → (Option Text × Counters) × State → Type 0
  Idle k s r = (r.1 ≡ s) × (r.0.1.rescue_count ≡ k.rescue_count)

  rescue-unavailable :
      (result tool_name : Text) (options : RescueOptions) (s : State)
      → options.fetch_available ≡ false
      → rescue result tool_name options s ≡ (none, s)
  rescue-unavailable result tool_name options s h =
      let none_there = rescuable-unavailable result tool_name options h in
      let same : transform_rescue_result is_zero_float parse_json exists excerpt store result
            tool_name options s
          ≡ (ok none, s) =
        unfold transform_rescue_result in rw (none_there, transform_rescue_result) refl in
      ap rescue_or_none same

  compaction_idle :
      (options : TokenjuiceOptions) (result : Text) (o : Option Text) (k : Counters)
      → (counted_compaction options result o k).rescue_count ≡ k.rescue_count
  unfolding counted_compaction
  compaction_idle options result none k = refl
  compaction_idle options result (some t) k = ground arith

  rescue_first-unavailable :
      (result tool_name : Text) (options : TokenjuiceOptions) (o : Option RescueOptions) (s : State)
      → ((r : RescueOptions) → o ≡ some r → r.fetch_available ≡ false)
      → rescue_first is_zero_float parse_json dump_json_object parse_rescue_options rescue result
          tool_name options o s
        ≡ (none, s)
  rescue_first-unavailable result tool_name options none s h = unfold rescue_first in refl
  rescue_first-unavailable result tool_name options (some r) s h =
      let idle = rescue-unavailable result tool_name r s (h r refl) in
      elim (Bool-cases (mem_text tool_name (supported_tool_names options))) [
        | inl e ↦ unfold rescue_first in rw (e, rescue_first) idle
        | inr e ↦ unfold rescue_first in rw (e, rescue_first) refl
      ]

  after_rescue-unavailable :
      (result tool_name : Text) (options : TokenjuiceOptions) (o : Option RescueOptions)
      (k : Counters) (s : State)
      → ((r : RescueOptions) → o ≡ some r → r.fetch_available ≡ false)
      → Idle k s (
          after_rescue is_zero_float parse_json dump_json_object parse_rescue_options rescue result
            tool_name options o k s)
  after_rescue-unavailable result tool_name options o k s h =
      elim (Bool-cases (mem_text tool_name (supported_tool_names options))) [
        | inl e ↦
            let counted =
              compaction_idle options result
                (transform_terminal_path is_zero_float parse_json dump_json_object
                  parse_rescue_options rescue result options)
                k in
            unfold after_rescue in rw (e, after_rescue) (refl, counted)
        | inr e ↦ elim (Option-cases o) [
          | inl f ↦ unfold after_rescue in rw (e, f, after_rescue) (refl, refl)
          | inr (r, f) ↦
              let idle = rescue-unavailable result tool_name r s (h r f) in
              unfold after_rescue counted_rescue in rw (e, f, after_rescue) (rw idle (refl, refl))
        ]
      ]

  with_options-unavailable :
      (result tool_name : Text) (options : TokenjuiceOptions) (o : Option RescueOptions)
      (k : Counters) (s : State)
      → ((r : RescueOptions) → o ≡ some r → r.fetch_available ≡ false)
      → Idle k s (
          with_options is_zero_float parse_json dump_json_object parse_rescue_options rescue result
            tool_name options o k s)
  with_options-unavailable result tool_name options o k s h =
      let first = rescue_first-unavailable result tool_name options o s h in
      let s' =
        (rescue_first is_zero_float parse_json dump_json_object parse_rescue_options rescue result
          tool_name options o s).1 in
      let nothing : (rescue_first is_zero_float parse_json dump_json_object parse_rescue_options
            rescue result tool_name options o s).0
          ≡ none =
        ap (λ p. p.0) first in
      let same : s' ≡ s = ap (λ p. p.1) first in
      let rest = after_rescue-unavailable result tool_name options o k s' h in
      unfold with_options in rw (nothing, with_options) (rest.0 ∙ same, rest.1)

  -- Where the arguments of a call say nothing of a fetch tool, the hook leaves the store as it is and counts
  -- no rescue, whatever the result and the other arguments are.
  pub stored_transform-unavailable :
      (result tool_name : Text) (kwargs : FlatJsonObject) (k : Counters) (s : State)
      → get_scalar (codes "tokenjuice_rescue_fetch_available") kwargs ≡ null
      → ((stored_transform result tool_name kwargs k s).1 ≡ s)
        × ((stored_transform result tool_name kwargs k s).0.1.rescue_count ≡ k.rescue_count)
  stored_transform-unavailable result tool_name kwargs k s h =
      elim (Bool-cases (mem_text tool_name protected_tool_names)) [
        | inl e ↦
            unfold stored_transform transform_tool_result in
            rw (e, transform_tool_result) (refl, refl)
        | inr e ↦ elim (Option-cases (parse_options kwargs)) [
          | inl f ↦
              unfold stored_transform transform_tool_result in
              rw (e, f, transform_tool_result) (refl, refl)
          | inr (options, f) ↦
              let idle =
                with_options-unavailable result tool_name options (parse_rescue_options kwargs) k s
                  (λ r g. parse_rescue_options-unavailable kwargs r h g) in
              unfold stored_transform transform_tool_result in rw (e, f, transform_tool_result) idle
        ]
      ]
