-- ===== src/Pruning/Provider.antt =====
-- structured_pruning_provider.py: the provider-shaped messages and tools of what is retained.
use tokenjuice_hermes.Common.{
  Text, codes, text_eq, Bool, Option, none, some, List, [], ◌∷◌, ◌++◌, Outcome, ok, raise,
  type_error, ◌>>=◌, join, if◌then◌else◌, is_empty,
}
use tokenjuice_hermes.Json.{JsonValue, JsonObject, scalar, str, str?, object?, get_value, truthy}
use tokenjuice_hermes.Pruning.Parse.{item}
use tokenjuice_hermes.Pruning.Rescue.{tool_name_for_class}
use tokenjuice_hermes.Pruning.Types.{ContributionInternal}

-- `isinstance(contribution.original.get(key), dict)`, with the dictionary
abbrev object_at : Text → ContributionInternal → Option JsonObject
object_at key c = object? (get_value key c.original)

module _ (is_zero_float : Text → Bool) where
  -- `part for part in system_parts if part`, where `join` raises on a part that is no `str`
  unfoldable pub system_texts : List JsonValue → Outcome (List Text)
  unfolding truthy
  system_texts [] = ok []
  system_texts (part ∷ parts) =
      let rest = system_texts parts in
      if truthy is_zero_float part
      then elim (str? part) [ none ↦ raise type_error | some s ↦ rest >>= λ texts. ok (s ∷ texts) ]
      else rest

  -- `_provider_message_from_contribution`, once the content is read
  message_of : ContributionInternal → JsonValue → JsonObject
  unfolding truthy tool_name_for_class
  message_of c content =
      if text_eq c.class_ (codes "user_message")
      then (codes "role", scalar (str (codes "user"))) ∷ (codes "content", content) ∷ []
      else if text_eq c.class_ (codes "assistant_message")
      then (codes "role", scalar (str (codes "assistant")))
        ∷ (codes "content", content)
        ∷ (if truthy is_zero_float (get_value (codes "tool_calls") c.original)
            then (codes "tool_calls", get_value (codes "tool_calls") c.original) ∷ []
            else [])
      else (codes "role", scalar (str (codes "tool")))
        ∷ (codes "content", content)
        ∷ (codes "name", scalar (str (tool_name_for_class c.class_)))
        ∷ (codes "tool_call_id", scalar (str (elim c.atomic_group_id [ none ↦ [] | some id ↦ id ])))
        ∷ []

  unfoldable pub provider_message_from_contribution : ContributionInternal → Outcome JsonObject
  unfolding item message_of
  provider_message_from_contribution c = do
    content ← item (codes "content") c.original
    ok (message_of c content)

  -- The system parts and the messages that the loop collects.
  unfoldable pub collect : List ContributionInternal → Outcome (List JsonValue × List JsonObject)
  unfolding item provider_message_from_contribution
  collect [] = ok ([], [])
  collect (c ∷ cs) =
      let rest = collect cs in
      if text_eq c.kind (codes "system_part")
      then (do
        content ← item (codes "content") c.original
        (parts, messages) ← rest
        ok (content ∷ parts, messages))
      else if text_eq c.kind (codes "tool_schema")
      then rest
      else elim (object_at (codes "provider_message") c) [
        | some message ↦ do (parts, messages) ← rest; ok (parts, message ∷ messages)
        | none ↦ do
          message ← provider_message_from_contribution c
          (parts, messages) ← rest
          ok (parts, message ∷ messages)
      ]

  abbrev system_message : Text → List JsonObject
  system_message content =
      if is_empty content
      then []
      else ((codes "role", scalar (str (codes "system")))
          ∷ (codes "content", scalar (str content))
          ∷ [])
        ∷ []

  unfoldable pub provider_messages_from_contributions :
      List ContributionInternal → Outcome (List JsonObject)
  unfolding collect system_texts
  provider_messages_from_contributions retained = do
    (system_parts, messages) ← collect retained
    texts ← system_texts system_parts
    ok (system_message (join (10 ∷ 10 ∷ []) texts) ++ messages)

module _ (parse_json : Text → Option JsonValue) where
  -- `parse_json(content)` where it is a dictionary; a content that is no `str` makes it raise, which
  -- is caught.
  abbrev parsed_object : JsonValue → Option JsonObject
  parsed_object content = elim (str? content) [
    | none ↦ none
    | some s ↦ elim (parse_json s) [ none ↦ none | some v ↦ object? v ]
  ]

  -- The tools that the loop collects; what is no JSON object is passed over.
  unfoldable pub collect_tools : List ContributionInternal → Outcome (List JsonObject)
  unfolding item
  collect_tools [] = ok []
  collect_tools (c ∷ cs) =
      let rest = collect_tools cs in
      if text_eq c.kind (codes "tool_schema")
      then elim (object_at (codes "provider_tool") c) [
        | some tool ↦ do tools ← rest; ok (tool ∷ tools)
        | none ↦ do
          content ← item (codes "content") c.original
          tools ← rest
          ok (elim (parsed_object content) [ none ↦ tools | some tool ↦ tool ∷ tools ])
      ]
      else rest

  unfoldable pub provider_tools_from_contributions :
      List ContributionInternal → Outcome (Option (List JsonObject))
  unfolding collect_tools
  provider_tools_from_contributions retained = do
    tools ← collect_tools retained
    ok (if is_empty tools then none else some tools)
