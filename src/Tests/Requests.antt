-- ===== src/Tests/Requests.antt =====
-- The theorems on request pruning applied to a request of three tool messages.
use tokenjuice_hermes.Common.{
  Text, codes, text_eq, ℕ, zero, suc, ◌≡◌, refl, true, false, none, some, List, [], ◌∷◌, put, any,
  length, get_elem?, ◌==◌, ◌⊎◌,
}
use tokenjuice_hermes.Json.{
  JsonValue, Fields, end, field, scalar, object, str, str?, entries, fields_of, get_value,
}
use tokenjuice_hermes.Requests.Messages.{prune_messages_keeps}
use tokenjuice_hermes.Requests.{
  compact_text, prune_messages, protected_tail_tool_indexes, is_role_tool, is_diagnostic_payload,
  prune_from, prune_message, eligible_content,
}

abbrev repeated : ℕ → Text
repeated zero = []
repeated (suc n) = b'x' ∷ repeated n

-- 3001 characters without a line feed.
abbrev long_text : Text
long_text = repeated 3001

abbrev message_of : Text → JsonValue
message_of content = object (
    field (codes "role") (scalar (str (codes "tool"))) (
      field (codes "name") (scalar (str (codes "terminal")))
        (field (codes "content") (scalar (str content)) end)))

abbrev three_messages : List JsonValue
three_messages = message_of long_text ∷ message_of (codes "a") ∷ message_of (codes "b") ∷ []

abbrev cut_messages : List JsonValue
cut_messages =
    message_of (compact_text long_text) ∷ message_of (codes "a") ∷ message_of (codes "b") ∷ []

prune_messages_keeps_example :
    (length cut_messages ≡ 3)
    × (shown : JsonValue) × (get_elem? cut_messages 0 ≡ some shown)
    × ((shown ≡ message_of long_text)
        ⊎ ((fs : Fields) × (content : Text) × (message_of long_text ≡ object fs)
            × (any (λ n. n == 0) (protected_tail_tool_indexes three_messages) ≡ false)
            × (is_role_tool (get_value (codes "role") (entries fs)) ≡ true)
            × (str? (get_value (codes "content") (entries fs)) ≡ some content)
            × (is_diagnostic_payload (λ x. true) (λ t. none) content ≡ false)
            × (shown
                ≡ object (
                    fields_of
                      (put (codes "content") (scalar (str (compact_text content))) (entries fs))))))
unfolding prune_messages prune_from prune_message eligible_content text_eq
    protected_tail_tool_indexes put entries fields_of compact_text
prune_messages_keeps_example =
    prune_messages_keeps (λ x. true) (λ t. none) three_messages cut_messages 0
      (message_of long_text) refl refl
