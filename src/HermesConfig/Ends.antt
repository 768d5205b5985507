-- ===== src/HermesConfig/Ends.antt =====
-- hermes_config.py: the reader of config.yaml comes to an end.
use tokenjuice_hermes.Common.{
  ℕ, zero, suc, ◌≤◌, ◌<◌, ◌≡◌, true, Option, none, some, List, [], ◌∷◌, put, length, is_empty, ltb,
  arith, Bool-cases, Option-cases, inl, inr,
}
use tokenjuice_hermes.Json.{JsonObject, scalar, object, end, fields_of}
use tokenjuice_hermes.Json.Parser.{NumberRuntime}
use tokenjuice_hermes.HermesConfig.{
  YamlEntry, key_value, parse_yaml_scalar, child_indent, parse_yaml_mapping,
}

-- No entry is left, or the first one is not indented enough.
abbrev pub IsOver : ℕ → List YamlEntry → Type 0
IsOver least [] = Unit
IsOver least (entry ∷ tokens) = ltb entry.indent least ≡ true

-- The reader gives a mapping and what is left of the entries.
abbrev pub Reads : ℕ → List YamlEntry → Option (JsonObject × List YamlEntry) → Type 0
Reads least tokens none = ⊥
Reads least tokens (some (value, rest)) = (length rest ≤ length tokens) × IsOver least rest

Reads-weaken :
    (least : ℕ) (tokens more : List YamlEntry) (r : Option (JsonObject × List YamlEntry))
    → length tokens ≤ length more
    → Reads least tokens r
    → Reads least more r
Reads-weaken least tokens more none h e = e
Reads-weaken least tokens more (some (value, rest)) h e = (omega (arith, h, e.0), e.1)

module _ (runtime : NumberRuntime) where
  -- With more fuel than there are entries the reader gives a mapping, and what is left is not longer and is
  -- indented less.
  pub parse_yaml_mapping-Reads :
      (f least : ℕ) (result : JsonObject) (tokens : List YamlEntry)
      → length tokens < f
      → Reads least tokens (parse_yaml_mapping runtime f least result tokens)
  unfolding parse_yaml_mapping
  parse_yaml_mapping-Reads zero least result tokens h = absurd (omega (arith, h))
  parse_yaml_mapping-Reads (suc f) least result [] h = (omega arith, tt)
  parse_yaml_mapping-Reads (suc f) least result (entry ∷ tokens) h =
      let further = λ (d : JsonObject).
        Reads-weaken least tokens (entry ∷ tokens) (parse_yaml_mapping runtime f least d tokens)
          (omega arith) (parse_yaml_mapping-Reads f least d tokens (omega (arith, h))) in
      elim (Bool-cases (ltb entry.indent least)) [
        | inl e ↦ rw (e, Reads) (omega arith, e)
        | inr e ↦ elim (Option-cases (key_value entry.text)) [
          | inl g ↦ rw (e, g, Reads) (further result)
          | inr ((key, value), g) ↦ elim (Bool-cases (is_empty value)) [
            | inr k ↦
                rw (e, g, k, Reads)
                  (further (put key (scalar (parse_yaml_scalar runtime value)) result))
            | inl k ↦ elim (Option-cases (child_indent runtime entry.indent tokens)) [
              | inl l ↦ rw (e, g, k, l, Reads) (further (put key (object end) result))
              | inr (indent, l) ↦
                  let inner = parse_yaml_mapping-Reads f indent [] tokens (omega (arith, h)) in
                  elim (Option-cases (parse_yaml_mapping runtime f indent [] tokens)) [
                    | inl m ↦ absurd (rw m at inner)
                    | inr ((child, rest), m) ↦
                        let shorter : (length rest ≤ length tokens) × IsOver indent rest =
                          rw m at inner in
                        let d = put key (object (fields_of child)) result in
                        rw (e, g, k, l, m, Reads)
                          (Reads-weaken least rest (entry ∷ tokens)
                            (parse_yaml_mapping runtime f least d rest) (omega (arith, shorter.0))
                            (parse_yaml_mapping-Reads f least d rest (omega (arith, h, shorter.0))))
                  ]
            ]
          ]
        ]
      ]

  -- The reader of a whole document does not run out of fuel, and stops behind the last entry.
  pub load_yaml_all :
      (tokens : List YamlEntry)
      → (value : JsonObject) × (parse_yaml_mapping runtime (suc (length tokens)) 0 [] tokens
          ≡ some (value, []))
  load_yaml_all tokens =
      let ended = parse_yaml_mapping-Reads (suc (length tokens)) 0 [] tokens (omega arith) in
      elim (Option-cases (parse_yaml_mapping runtime (suc (length tokens)) 0 [] tokens)) [
        | inl e ↦ absurd (rw e at ended)
        | inr ((value, []), e) ↦ (value, e)
        | inr ((value, entry ∷ rest), e) ↦
            let over : (suc (length rest) ≤ length tokens) × (ltb entry.indent 0 ≡ true) =
              rw e at ended in
            absurd (ground (arith, over.1))
      ]
