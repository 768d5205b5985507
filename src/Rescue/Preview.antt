-- ===== src/Rescue/Preview.antt =====
-- rescue_excerpt.py: what a preview keeps of a text, and how long it is.
use tokenjuice_hermes.Common.{
  Text, codes, splitlines, join, ℕ, zero, suc, ◌+◌, ◌-◌, ◌≤◌, ◌<◌, ◌≡◌, refl, sym, ap, ◌∙◌, List,
  [], ◌∷◌, ◌++◌, length, take, drop, length-take, length-drop, take-append-drop, drop-drop,
  drop_all, text_eq, arith, Bool-cases, Option-cases, inl, inr,
}
use tokenjuice_hermes.Json.{JsonObject, get_value}
use tokenjuice_hermes.Rescue.Excerpt.{
  JsonRuntime, last_items, preview_lines, omitted_line, text_excerpt, json_excerpt, excerpt_body,
  excerpt_header, build_excerpt, build_excerpt_of, detect_kind, int_or, json_parts,
}

last_items-drop : (n : ℕ) (xs : List Text) → last_items n xs ≡ drop (length xs - n) xs
last_items-drop zero xs = sym (drop_all (length xs - 0) xs (omega arith))
last_items-drop (suc n) xs = refl

-- Of a text with more lines than the first and the last ones that are asked for, the preview has
-- exactly these, as many as asked for, in their order, with a line between them that says how many were
-- left out; the preview is cut after the most characters.
pub text_excerpt_keeps :
    (raw : Text) (head_lines tail_lines max_chars : ℕ)
    → head_lines + tail_lines < length (splitlines raw)
    → (head : List Text) × (middle : List Text) × (tail : List Text) × (splitlines raw
        ≡ head ++ (middle ++ tail))
      × (length head ≡ head_lines)
      × (length tail ≡ tail_lines)
      × (text_excerpt raw head_lines tail_lines max_chars
          ≡ take max_chars (
              join
                (10 ∷ [])
                (codes "--- head ---" ∷ (head ++ omitted_line (length middle) ∷ tail))))
text_excerpt_keeps raw h t max_chars more =
    let lines = splitlines raw in
    let rest = drop h lines in
    let k = length lines - h - t in
    let last = last_items-drop t lines in
    let whole = length-drop h lines in
    let heads = length-take h lines in
    let after : drop k rest ≡ last_items t lines =
      drop-drop h k lines ∙ (ap (λ n. drop n lines) (omega (arith, more)) ∙ sym last) in
    let split : lines ≡ take h lines ++ (take k rest ++ last_items t lines) =
      sym (take-append-drop h lines)
      ∙ ap (λ r. take h lines ++ r)
          (sym (take-append-drop k rest) ∙ ap (λ r. take k rest ++ r) after) in
    let tails : length (last_items t lines) ≡ t =
      ap length last ∙ (length-drop (length lines - t) lines ∙ omega (arith, more)) in
    let middles = length-take k rest in
    let omitted : length lines - length (take h lines) - length (last_items t lines)
        ≡ length (take k rest) =
      omega (arith, more, whole, heads, tails, middles) in
    (
      take h lines,
      take k rest,
      last_items t lines,
      split,
      omega (arith, heads, more),
      tails,
      unfold text_excerpt preview_lines in ground (arith, more, omitted),
    )

text_excerpt-length :
    (raw : Text) (head_lines tail_lines max_chars : ℕ)
    → length (text_excerpt raw head_lines tail_lines max_chars) ≤ max_chars
text_excerpt-length raw h t max_chars =
    let lines = splitlines raw in
    let short = length-take max_chars raw in
    let long = length-take max_chars (join (10 ∷ []) (preview_lines lines h t)) in
    unfold text_excerpt in ground (arith, short, long)

module _ (json : JsonRuntime) where
  json_excerpt-length :
      (raw : Text) (head_items tail_items max_chars : ℕ)
      → length (json_excerpt json raw head_items tail_items max_chars) ≤ max_chars
  json_excerpt-length raw h t max_chars = elim (Option-cases (json.loads raw)) [
    | inl e ↦
        let short = text_excerpt-length raw 40 15 max_chars in
        unfold json_excerpt in ground (arith, e, short)
    | inr (obj, e) ↦
        let long = length-take max_chars (join (10 ∷ []) (json_parts json obj h t)) in
        unfold json_excerpt in ground (arith, e, long)
  ]

  excerpt_body-length :
      (kind raw : Text) (config : JsonObject)
      → length (excerpt_body json kind raw config)
        ≤ int_or (get_value (codes "excerpt_max_chars") config) 8000
  excerpt_body-length kind raw config =
      let max_chars = int_or (get_value (codes "excerpt_max_chars") config) 8000 in
      let h = int_or (get_value (codes "json_head_items") config) 5 in
      let t = int_or (get_value (codes "json_tail_items") config) 2 in
      let a = int_or (get_value (codes "head_lines") config) 40 in
      let b = int_or (get_value (codes "tail_lines") config) 15 in
      elim (Bool-cases (text_eq kind (codes "json"))) [
        | inl e ↦ unfold excerpt_body in rw e (json_excerpt-length raw h t max_chars)
        | inr e ↦ unfold excerpt_body in rw e (text_excerpt-length raw a b max_chars)
      ]

  -- Whatever a text is taken for, and whatever the JSON library makes of it, its excerpt is the header
  -- with the handle and a preview of at most 8000 characters.
  pub build_excerpt-length :
      (raw handle : Text)
      → (body : Text) × (build_excerpt json raw handle
          ≡ excerpt_header (detect_kind json raw) raw handle ++ body)
        × (length body ≤ 8000)
  build_excerpt-length raw handle = (
    excerpt_body json (detect_kind json raw) raw [],
    unfold build_excerpt build_excerpt_of in refl,
    unfold int_or get_value in excerpt_body-length (detect_kind json raw) raw [],
  )
