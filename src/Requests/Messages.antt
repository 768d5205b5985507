-- ===== src/Requests/Messages.antt =====
-- request_pruning.py: which messages `_prune_messages` changes, and how.
use tokenjuice_hermes.Common.{
  Text, codes, ℕ, zero, suc, ◌+◌, ◌≡◌, refl, sym, ap, subst, ◌∙◌, Bool, true, false, Option, some,
  List, [], ◌∷◌, put, any, ◌==◌, text_eq, length, get_elem?, Bool-cases, Option-cases, ◌⊎◌, inl,
  inr, arith,
}
use tokenjuice_hermes.Json.{
  fields_of-entries, JsonValue, JsonObject, Fields, scalar, array, object, str, entries, fields_of,
  str?, get_value,
}
use tokenjuice_hermes.Requests.{
  compact_text, protected_tail_tool_indexes, eligible_content, prune_message, prune_from,
  prune_messages, is_diagnostic_payload, is_role_tool,
}

module _ (is_zero_float : Text → Bool) (parse_json : Text → Option JsonValue) where
  -- The message stays, or it is eligible and its content is cut.
  abbrev IsPruned : List ℕ → ℕ → JsonValue → JsonValue → Type 0
  IsPruned tail index message next =
      (next ≡ message)
      ⊎ ((fs : Fields) × (content : Text) × (message ≡ object fs)
          × (eligible_content is_zero_float parse_json (entries fs) tail index ≡ some content)
          × (next
              ≡ object (
                  fields_of
                    (put (codes "content") (scalar (str (compact_text content))) (entries fs)))))

  prune_message-IsPruned :
      (fs : Fields) (tail : List ℕ) (index : ℕ)
      → IsPruned tail index
          (object fs)
          (object (fields_of (prune_message is_zero_float parse_json (entries fs) tail index).0))
  prune_message-IsPruned fs tail index =
      let back = fields_of-entries fs in
      elim (Option-cases (eligible_content is_zero_float parse_json (entries fs) tail index)) [
        | inl e ↦
            let same : prune_message is_zero_float parse_json (entries fs) tail index
                ≡ (entries fs, false) =
              unfold prune_message in cc e in
            inl (rw (same, back) refl)
        | inr (content, e) ↦ elim (Bool-cases (text_eq (compact_text content) content)) [
          | inl f ↦
              let same : prune_message is_zero_float parse_json (entries fs) tail index
                  ≡ (entries fs, false) =
                unfold prune_message in cc (e, f) in
              inl (rw (same, back) refl)
          | inr f ↦
              let same : prune_message is_zero_float parse_json (entries fs) tail index ≡ (
                put (codes "content") (scalar (str (compact_text content))) (entries fs),
                true,
              ) =
                unfold prune_message in cc (e, f) in
              inr (fs, content, refl, e, rw same refl)
        ]
      ]

  prune_from-IsPruned :
      (tail : List ℕ) (index : ℕ) (messages next : List JsonValue) (changed : Bool)
      → prune_from is_zero_float parse_json tail index messages ≡ some (next, changed)
      → (i : ℕ) (message : JsonValue) → get_elem? messages i ≡ some message
      → (shown : JsonValue) × (get_elem? next i ≡ some shown)
        × IsPruned tail (index + i) message shown
  unfolding prune_from
  prune_from-IsPruned tail index [] next changed h i message there = absurd (ground (arith, there))
  prune_from-IsPruned tail index (object fs ∷ messages) next changed h i message there =
      elim (Option-cases (prune_from is_zero_float parse_json tail (suc index) messages)) [
        | inl e ↦ absurd (ground (arith, e, h))
        | inr ((rest, later), e) ↦
            let first = prune_message is_zero_float parse_json (entries fs) tail index in
            let whole : object (fields_of first.0) ∷ rest ≡ next = ground (arith, e, h) in
            let head = prune_message-IsPruned fs tail index in
            let later_ones = prune_from-IsPruned tail (suc index) messages rest later e in
            elim i
                as (λ i.
                  get_elem? (object fs ∷ messages) i ≡ some message
                  → (shown : JsonValue) × (get_elem? next i ≡ some shown)
                    × IsPruned tail (index + i) message shown) [
                      | zero ↦ λ there.
                          let one = object (fields_of first.0) in
                          let same : object fs ≡ message = cc there in
                          let here : index ≡ index + 0 = omega arith in
                          (
                            one,
                            ap (λ ms. get_elem? ms 0) (sym whole),
                            subst (λ n. IsPruned tail n message one) here
                                (subst (λ m. IsPruned tail index m one) same head),
                          )
                      | suc j ↦ λ there.
                          let (shown, found, p) = later_ones j message there in
                          let here : suc index + j ≡ index + suc j = omega arith in
                          (
                            shown,
                            ap (λ ms. get_elem? ms (suc j)) (sym whole) ∙ found,
                            subst (λ n. IsPruned tail n message shown) here p,
                          )
                    ]
              there
      ]
  prune_from-IsPruned tail index (scalar v ∷ messages) next changed h i message there =
      absurd (ground (arith, h))
  prune_from-IsPruned tail index (array v ∷ messages) next changed h i message there =
      absurd (ground (arith, h))

  -- What an eligible message is.
  eligible_content-inv :
      (d : JsonObject) (tail : List ℕ) (index : ℕ) (content : Text)
      → eligible_content is_zero_float parse_json d tail index ≡ some content
      → (any (λ i. i == index) tail ≡ false)
        × (is_role_tool (get_value (codes "role") d) ≡ true)
        × (str? (get_value (codes "content") d) ≡ some content)
        × (is_diagnostic_payload is_zero_float parse_json content ≡ false)
  unfolding eligible_content
  eligible_content-inv d tail index content h =
      elim (Option-cases (str? (get_value (codes "name") d))) [
        | inl e ↦ absurd (ground (arith, e, h))
        | inr (name, e) ↦ elim (Option-cases (str? (get_value (codes "content") d))) [
          | inl f ↦ absurd (ground (arith, e, f, h))
          | inr (c, f) ↦ ground (arith, e, f, h)
        ]
      ]

  length-prune_from :
      (tail : List ℕ) (index : ℕ) (messages next : List JsonValue) (changed : Bool)
      → prune_from is_zero_float parse_json tail index messages ≡ some (next, changed)
      → length next ≡ length messages
  unfolding prune_from
  length-prune_from tail index [] next changed h =
      let none_left : [] ≡ next = ground (arith, h) in ap length (sym none_left)
  length-prune_from tail index (object fs ∷ messages) next changed h =
      elim (Option-cases (prune_from is_zero_float parse_json tail (suc index) messages)) [
        | inl e ↦ absurd (ground (arith, e, h))
        | inr ((rest, later), e) ↦
            let first = prune_message is_zero_float parse_json (entries fs) tail index in
            let whole : object (fields_of first.0) ∷ rest ≡ next = ground (arith, e, h) in
            let len = length-prune_from tail (suc index) messages rest later e in
            ap length (sym whole) ∙ ap suc len
      ]
  length-prune_from tail index (scalar v ∷ messages) next changed h = absurd (ground (arith, h))
  length-prune_from tail index (array v ∷ messages) next changed h = absurd (ground (arith, h))

  -- Where the messages of a request are pruned, there are as many as before, and each one is what it was, or
  -- it is a tool's message outside the protected tail, whose content is a text and no diagnostic, and only
  -- this content is replaced, by its cut.
  pub prune_messages_keeps :
      (messages next : List JsonValue) (i : ℕ) (message : JsonValue)
      → prune_messages is_zero_float parse_json messages ≡ some next
      → get_elem? messages i ≡ some message
      → (length next ≡ length messages)
        × (shown : JsonValue) × (get_elem? next i ≡ some shown)
        × ((shown ≡ message)
            ⊎ ((fs : Fields) × (content : Text) × (message ≡ object fs)
                × (any (λ n. n == i) (protected_tail_tool_indexes messages) ≡ false)
                × (is_role_tool (get_value (codes "role") (entries fs)) ≡ true)
                × (str? (get_value (codes "content") (entries fs)) ≡ some content)
                × (is_diagnostic_payload is_zero_float parse_json content ≡ false)
                × (shown
                    ≡ object (
                        fields_of (
                          put
                            (codes "content")
                            (scalar (str (compact_text content)))
                            (entries fs))))))
  prune_messages_keeps messages next i message h there =
      let tail = protected_tail_tool_indexes messages in
      elim (Option-cases (prune_from is_zero_float parse_json tail 0 messages)) [
        | inl e ↦ absurd (unfold prune_messages in ground (arith, e, h))
        | inr ((found, changed), e) ↦
            let same : found ≡ next = unfold prune_messages in ground (arith, e, h) in
            let len = length-prune_from tail 0 messages found changed e in
            let (shown, at, p) =
              prune_from-IsPruned tail 0 messages found changed e i message there in
            let at' : get_elem? next i ≡ some shown = ap (λ ms. get_elem? ms i) (sym same) ∙ at in
            let start : 0 + i ≡ i = omega arith in
            (
              ap length (sym same) ∙ len,
              shown,
              at',
              elim p [
                | inl kept ↦ inl kept
                | inr (fs, content, is_object, eligible, cut) ↦
                    let (outside, role, value, fine) =
                      eligible_content-inv (entries fs) tail i content (
                        subst
                          (λ n.
                            eligible_content is_zero_float parse_json (entries fs) tail n
                            ≡ some content)
                          start eligible) in
                    inr (fs, content, is_object, outside, role, value, fine, cut)
              ],
            )
      ]
