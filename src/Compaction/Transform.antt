-- ===== src/Compaction/Transform.antt =====
-- tokenjuice_hermes/compaction.py: `transform_tool_result`, the hook on the result of a tool. The
-- rescue of a result (rescue_transform.py) is a parameter with a state of its own.
use tokenjuice_hermes.Common.{
  Text, mem_text, ℕ, ◌+◌, ◌-◌, ◌≤◌, Bool, true, false, Option, none, some, if◌then◌else◌, length,
  Option-cases, inl, inr, Bool-cases, arith,
}
use tokenjuice_hermes.Compaction.Options.{
  CompactionMode, head_tail, metadata, off, TokenjuiceOptions, protected_tool_names, parse_options,
  supported_tool_names,
}
use tokenjuice_hermes.Compaction.Terminal.{transform_terminal_result}
use tokenjuice_hermes.Json.{JsonValue, JsonObject, FlatJsonObject, flat_json_object}
use tokenjuice_hermes.Observability.{Counters, record_compaction, record_rescue}

-- `options.mode == CompactionMode.HEAD_TAIL`
abbrev is_head_tail : CompactionMode → Bool
is_head_tail head_tail = true
is_head_tail metadata = false
is_head_tail off = false

-- A rescued text is counted.
unfoldable pub counted_rescue : Text → Option Text → Counters → Counters
unfolding record_rescue
counted_rescue result none k = k
counted_rescue result (some rescued) k = record_rescue (length result - length rescued) k

unfoldable pub counted_compaction : TokenjuiceOptions → Text → Option Text → Counters → Counters
unfolding record_compaction
counted_compaction options result none k = k
counted_compaction options result (some compacted) k =
    if is_head_tail options.mode then record_compaction (length result - length compacted) k else k

-- Compactions and rescues together, and the number of texts returned.
abbrev pub events : Counters → ℕ
events k = k.compaction_count + k.rescue_count

abbrev pub rewritten : Option Text → ℕ
rewritten none = 0
rewritten (some text) = 1

compaction_counted :
    (options : TokenjuiceOptions) (result : Text) (o : Option Text) (k : Counters)
    → (events k ≤ events (counted_compaction options result o k))
      × (events (counted_compaction options result o k) ≤ events k + rewritten o)
unfolding counted_compaction
compaction_counted options result none k = ground arith
compaction_counted options result (some t) k = ground arith

rescue_counted :
    (result : Text) (o : Option Text) (k : Counters)
    → (events k ≤ events (counted_rescue result o k))
      × (events (counted_rescue result o k) ≤ events k + rewritten o)
unfolding counted_rescue
rescue_counted result none k = ground arith
rescue_counted result (some t) k = ground arith

module _ (is_zero_float : Text → Bool) (parse_json : Text → Option JsonValue)
    (dump_json_object : JsonObject → Text) {R S : Type 0}
    (parse_rescue_options : FlatJsonObject → Option R)
    (transform_rescue_result : Text → Text → R → S → Option Text × S) where
  flat_payload : Text → Option FlatJsonObject
  unfolding flat_json_object
  flat_payload result = elim (parse_json result) [ none ↦ none | some v ↦ flat_json_object v ]

  unfoldable pub transform_terminal_path : Text → TokenjuiceOptions → Option Text
  unfolding flat_payload transform_terminal_result
  transform_terminal_path result options = elim (flat_payload result) [
    | none ↦ none
    | some parsed ↦ elim (transform_terminal_result is_zero_float parsed options) [
      | none ↦ none
      | some compacted ↦ some (dump_json_object compacted)
    ]
  ]

  -- The end of the hook: the terminal path, or the rescue of the result of another tool.
  unfoldable pub after_rescue :
      Text → Text → TokenjuiceOptions → Option R → Counters → S → (Option Text × Counters) × S
  unfolding supported_tool_names transform_terminal_path counted_compaction counted_rescue
  after_rescue result tool_name options rescue_options k s =
      if mem_text tool_name (supported_tool_names options)
      then (
        (
          transform_terminal_path result options,
          counted_compaction options result (transform_terminal_path result options) k,
        ),
        s,
      )
      else elim rescue_options [
        | none ↦ ((none, k), s)
        | some r ↦
            let (rescued, s') = transform_rescue_result result tool_name r s in
            ((rescued, counted_rescue result rescued k), s')
      ]

  -- The first attempt: the result of a terminal tool is rescued.
  unfoldable pub rescue_first : Text → Text → TokenjuiceOptions → Option R → S → Option Text × S
  unfolding supported_tool_names
  rescue_first result tool_name options none s = (none, s)
  rescue_first result tool_name options (some r) s =
      if mem_text tool_name (supported_tool_names options)
      then transform_rescue_result result tool_name r s
      else (none, s)

  unfoldable pub with_options :
      Text → Text → TokenjuiceOptions → Option R → Counters → S → (Option Text × Counters) × S
  unfolding rescue_first after_rescue counted_rescue
  with_options result tool_name options rescue_options k s =
      let (first, s') = rescue_first result tool_name options rescue_options s in
      elim first [
        | some rescued ↦ ((some rescued, counted_rescue result (some rescued) k), s')
        | none ↦ after_rescue result tool_name options rescue_options k s'
      ]

  unfoldable pub transform_tool_result :
      Text → Text → FlatJsonObject → Counters → S → (Option Text × Counters) × S
  unfolding mem_text parse_options with_options
  transform_tool_result result tool_name kwargs k s =
      if mem_text tool_name protected_tool_names
      then ((none, k), s)
      else elim (parse_options kwargs) [
        | none ↦ ((none, k), s)
        | some options ↦ with_options result tool_name options (parse_rescue_options kwargs) k s
      ]

  -- The counts of a call: those before it, and one more at most when a text is returned.
  IsCounted : Counters → Option Text × Counters → Type 0
  IsCounted k (o, k') = (events k ≤ events k') × (events k' ≤ events k + rewritten o)

  after_rescue-IsCounted :
      (result tool_name : Text) (options : TokenjuiceOptions) (rescue_options : Option R)
      (k : Counters) (s : S)
      → IsCounted k (after_rescue result tool_name options rescue_options k s).0
  unfolding after_rescue IsCounted
  after_rescue-IsCounted result tool_name options none k s =
      ground (arith, compaction_counted options result)
  after_rescue-IsCounted result tool_name options (some r) k s =
      ground (arith, compaction_counted options result, rescue_counted result)

  with_options-IsCounted :
      (result tool_name : Text) (options : TokenjuiceOptions) (rescue_options : Option R)
      (k : Counters) (s : S)
      → IsCounted k (with_options result tool_name options rescue_options k s).0
  with_options-IsCounted result tool_name options rescue_options k s =
      let first = rescue_first result tool_name options rescue_options s in
      elim (Option-cases first.0) [
        | inl e ↦
            let rest = after_rescue-IsCounted result tool_name options rescue_options k first.1 in
            unfold with_options IsCounted in ground (arith, e, rest)
        | inr (t, e) ↦
            let counted = rescue_counted result (some t) k in
            unfold with_options IsCounted in ground (arith, e, counted)
      ]

  -- Whatever the parameters do, a call counts no event when it leaves the result as it is, and at most
  -- one compaction or rescue, never both, when it returns a text.
  pub transform_tool_result-IsCounted :
      (result tool_name : Text) (kwargs : FlatJsonObject) (k : Counters) (s : S)
      → (events k ≤ events (transform_tool_result result tool_name kwargs k s).0.1)
        × (events (transform_tool_result result tool_name kwargs k s).0.1
            ≤ events k + rewritten (transform_tool_result result tool_name kwargs k s).0.0)
  unfolding IsCounted
  transform_tool_result-IsCounted result tool_name kwargs k s =
      elim (Bool-cases (mem_text tool_name protected_tool_names)) [
        | inl e ↦ unfold transform_tool_result in ground (arith, e)
        | inr e ↦ elim (Option-cases (parse_options kwargs)) [
          | inl f ↦ unfold transform_tool_result in ground (arith, e, f)
          | inr (options, f) ↦
              let counted =
                with_options-IsCounted result tool_name options (parse_rescue_options kwargs) k s in
              unfold transform_tool_result in ground (arith, e, f, counted)
        ]
      ]
