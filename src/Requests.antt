-- ===== src/Requests.antt =====
-- request_pruning.py: old tool results of a request are cut when the request is near its limit. The JSON
-- parser, the zero test of a float literal and the length of Python's `str(request)` are parameters.
pub mod Cuts
pub mod Messages
use tokenjuice_hermes.Common.{
  numbered, Text, codes, text_eq, mem_text, contains_text, number_text, ℕ, zero, suc, ◌+◌, ◌-◌, ◌*◌,
  ◌/◌, Bool, true, false, ◌&&◌, ◌||◌, not, Option, none, some, List, [], ◌∷◌, ◌++◌, reverse, any,
  get, put, length, take, drop, take_last, is_empty, ltb, leb, ◌==◌, ℤ, pos, negsuc, if◌then◌else◌,
}
use tokenjuice_hermes.Json.{
  JsonValue, JsonScalar, JsonObject, Items, Fields, end, field, scalar, array, object, null, bool,
  int, float, str, entries, fields_of, elements, items_of, get_value, str?, is_error_payload,
  flat_json_object,
}

abbrev protected_tool_names : List Text
protected_tool_names = codes "read_file" ∷ []

abbrev prunable_tool_names : List Text
prunable_tool_names = codes "terminal" ∷ codes "execute_code" ∷ []

abbrev diagnostic_markers : List Text
diagnostic_markers = codes "--- stderr ---" ∷ codes "Traceback (most recent call last):" ∷ []

-- `STRUCTURED_PRUNING_MARKER`
abbrev structured_pruning_marker : Text
structured_pruning_marker = codes "[tokenjuice-hermes: structured context pruning"

-- `head.rfind("\n")`, where it is found
unfoldable pub rfind : ℕ → Text → Option ℕ
rfind c [] = none
rfind c (d ∷ s) = elim (rfind c s) [
  | some i ↦ some (suc i)
  | none ↦ if d == c then some 0 else none
]

-- `tail.find("\n")`, where it is found
unfoldable pub find : ℕ → Text → Option ℕ
find c [] = none
find c (d ∷ s) =
    let rest = find c s in
    if d == c then some 0 else elim rest [ none ↦ none | some i ↦ some (suc i) ]

unfoldable pub cut_head : Text → ℕ → Text
unfolding rfind
cut_head text max_chars =
    let head = take max_chars text in
    elim (rfind 10 head) [
      | none ↦ head
      | some newline ↦ if ltb (max_chars / 2) newline then take newline head else head
    ]

unfoldable pub cut_tail : Text → ℕ → Text
unfolding find
cut_tail text max_chars =
    let tail = take_last max_chars text in
    elim (find 10 tail) [
      | none ↦ tail
      | some newline ↦ if ltb newline (max_chars / 2) then drop (newline + 1) tail else tail
    ]

unfoldable pub omission : ℕ → Text
unfolding number_text
omission omitted =
    10 ∷ codes "[tokenjuice-hermes: omitted "
    ++ (number_text omitted ++ (codes " chars from old tool result]" ++ 10 ∷ []))

-- `_compact_text`
unfoldable pub compact_text : Text → Text
unfolding cut_head cut_tail omission
compact_text text =
    let head = cut_head text 1500 in
    let tail = cut_tail text 1500 in
    if leb (length text) 3000
    then text
    else head ++ (omission (length text - length head - length tail) ++ tail)

abbrev pub is_role_tool : JsonValue → Bool
unfolding text_eq
is_role_tool (scalar (str s)) = text_eq s (codes "tool")
is_role_tool v = false

-- `isinstance(message, dict) and message.get("role") == "tool"`
unfoldable pub is_tool_message : JsonValue → Bool
unfolding entries get_value
is_tool_message (object fs) = is_role_tool (get_value (codes "role") (entries fs))
is_tool_message v = false

-- The loop of `_protected_tail_tool_indexes`, for so many more indexes.
unfoldable pub tail_indexes : ℕ → List (ℕ × JsonValue) → List ℕ
unfolding is_tool_message
tail_indexes zero ms = []
tail_indexes (suc left) [] = []
tail_indexes (suc left) ((index, message) ∷ ms) = elim (is_tool_message message) [
  | true ↦ index ∷ tail_indexes left ms
  | false ↦ tail_indexes (suc left) ms
]

unfoldable pub protected_tail_tool_indexes : List JsonValue → List ℕ
unfolding tail_indexes numbered
protected_tail_tool_indexes messages = tail_indexes 2 (reverse (numbered 0 messages))

-- `isinstance(value, int)`, where a Boolean is an integer
abbrev int_of_value : JsonValue → Option ℤ
int_of_value (scalar (int i)) = some i
int_of_value (scalar (bool true)) = some (pos 1)
int_of_value (scalar (bool false)) = some (pos 0)
int_of_value v = none

abbrev is_false : JsonValue → Bool
is_false (scalar (bool b)) = not b
is_false v = false

-- `pressure >= int(threshold * 0.80)`
abbrev is_pressed : ℤ → ℕ → Bool
is_pressed (pos pressure) threshold = leb (threshold * 4 / 5) pressure
is_pressed (negsuc n) threshold = false

-- `threshold_tokens > 0`, with both numbers there
abbrev pressure_of : Option ℤ → Option ℤ → Option (ℤ × ℕ)
pressure_of (some pressure) (some (pos (suc threshold))) = some (pressure, suc threshold)
pressure_of pressure threshold = none

abbrev is_list : JsonValue → Bool
is_list (array vs) = true
is_list v = false

unfoldable pub request_messages_key : JsonObject → Option Text
unfolding get_value
request_messages_key request =
    if is_list (get_value (codes "messages") request)
    then some (codes "messages")
    else if is_list (get_value (codes "input") request)
    then some (codes "input")
    else none

module _ (str_length : JsonObject → ℕ) where
  unfoldable pub should_prune_request : JsonObject → JsonObject → Bool
  unfolding get_value
  should_prune_request request kwargs =
      if is_false (get_value (codes "compression_enabled") kwargs)
      then false
      else elim (pressure_of (int_of_value (get_value (codes "request_pressure_tokens") kwargs))
          (int_of_value (get_value (codes "threshold_tokens") kwargs))) [
            | some (pressure, threshold) ↦ is_pressed pressure threshold
            | none ↦ leb 4000 (str_length request)
          ]

module _ (is_zero_float : Text → Bool) (parse_json : Text → Option JsonValue) where
  unfoldable pub is_diagnostic_payload : Text → Bool
  unfolding flat_json_object is_error_payload any contains_text
  is_diagnostic_payload text =
      elim (parse_json text) [
        | none ↦ false
        | some v ↦ elim (flat_json_object v) [
          | none ↦ false
          | some parsed ↦ is_error_payload is_zero_float parsed
        ]
      ]
      || any (λ marker. contains_text marker text) diagnostic_markers

  -- The content of an eligible message: `_is_eligible_tool_message`, with the tests of `_prune_message`.
  unfoldable pub eligible_content : JsonObject → List ℕ → ℕ → Option Text
  unfolding get_value mem_text contains_text is_diagnostic_payload any
  eligible_content message protected_tool_indexes index =
      if any (λ i. i == index) protected_tool_indexes
        || not (is_role_tool (get_value (codes "role") message))
      then none
      else elim (str? (get_value (codes "name") message)) [
        | none ↦ none
        | some name ↦ elim (str? (get_value (codes "content") message)) [
          | none ↦ none
          | some content ↦
              if mem_text name protected_tool_names || not (mem_text name prunable_tool_names)
              then none
              else if not (contains_text structured_pruning_marker content)
                  && not (is_diagnostic_payload content)
              then some content
              else none
        ]
      ]

  unfoldable pub prune_message : JsonObject → List ℕ → ℕ → JsonObject × Bool
  prune_message message protected_tool_indexes index =
      elim (eligible_content message protected_tool_indexes index) [
        | none ↦ (message, false)
        | some content ↦
            if text_eq (compact_text content) content
            then (message, false)
            else (put (codes "content") (scalar (str (compact_text content))) message, true)
      ]

  -- The loop of `_prune_messages`: the messages and whether one changed.
  unfoldable pub prune_from : List ℕ → ℕ → List JsonValue → Option (List JsonValue × Bool)
  prune_from protected_tool_indexes index [] = some ([], false)
  prune_from protected_tool_indexes index (object fs ∷ messages) =
      let (message, pruned) = prune_message (entries fs) protected_tool_indexes index in
      elim (prune_from protected_tool_indexes (suc index) messages) [
        | none ↦ none
        | some (rest, changed) ↦ some (object (fields_of message) ∷ rest, pruned || changed)
      ]
  prune_from protected_tool_indexes index (message ∷ messages) = none

  unfoldable pub prune_messages : List JsonValue → Option (List JsonValue)
  prune_messages messages = elim (prune_from (protected_tail_tool_indexes messages) 0 messages) [
    | none ↦ none
    | some (next_messages, changed) ↦ if changed then some next_messages else none
  ]

  -- What the request becomes, with its messages under the key.
  unfoldable pub pruned_request : JsonObject → Text → List JsonValue → JsonObject
  unfolding put items_of
  pruned_request request key messages =
      (codes "request", object (fields_of (put key (array (items_of messages)) request)))
      ∷ (codes "source", scalar (str (codes "tokenjuice-hermes")))
      ∷ (codes "reason", scalar (str (codes "context-pressure-tool-pruning")))
      ∷ []

  module _ (str_length : JsonObject → ℕ) where
    -- `prune_llm_request`
    unfoldable pub prune_llm_request : Option JsonObject → JsonObject → Option JsonObject
    unfolding should_prune_request request_messages_key prune_messages pruned_request get_value
        elements
    prune_llm_request none kwargs = none
    prune_llm_request (some request) kwargs =
        if not (should_prune_request str_length request kwargs)
        then none
        else elim (request_messages_key request) [
          | none ↦ none
          | some key ↦ elim (get_value key request) [
            | array vs ↦ elim (prune_messages (elements vs)) [
              | none ↦ none
              | some next_messages ↦ some (pruned_request request key next_messages)
            ]
            | _ ↦ none
          ]
        ]
