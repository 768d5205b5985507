-- ===== src/Compaction/Lines.antt =====
-- tokenjuice_hermes/compaction.py: the lines that `_compact_text` keeps of a text.
use tokenjuice_hermes.Common.{
  Text, splitlines, join, ◌+◌, ◌-◌, ◌<◌, ◌≡◌, sym, ap, ◌∙◌, some, List, [], ◌∷◌, ◌++◌, length, take,
  drop, take_last, length-take, length-drop, take-append-drop, drop-drop, drop_all, Bool-cases, inl,
  inr, arith, ◌==◌,
}
use tokenjuice_hermes.Compaction.Options.{TokenjuiceOptions}
use tokenjuice_hermes.Compaction.Terminal.{
  CompactText, compact_text, compact_lines, marker, tail_of, omitted_of,
}

-- Past the first lines and those left out, the last lines follow.
tail_after :
    (options : TokenjuiceOptions) (lines : List Text)
    → 0 < omitted_of options lines
    → drop (omitted_of options lines) (drop options.head_lines lines) ≡ tail_of options lines
tail_after options lines h =
    let head = length-take options.head_lines lines in
    let last = length-drop (length lines - options.tail_lines) lines in
    let o = omitted_of options lines in
    drop-drop options.head_lines o lines ∙ elim (Bool-cases (options.tail_lines == 0)) [
      | inl e ↦
          let none_last : tail_of options lines ≡ [] = ground arith in
          drop_all (options.head_lines + o) lines (ground (arith, head)) ∙ sym none_last
      | inr e ↦
          let some_last : tail_of options lines ≡ take_last options.tail_lines lines =
            ground arith in
          ap (λ n. drop n lines) (ground (arith, head, last)) ∙ sym some_last
    ]

-- The last lines are as many as the options say, where lines are left out.
length-tail_of :
    (options : TokenjuiceOptions) (lines : List Text)
    → 0 < omitted_of options lines
    → length (tail_of options lines) ≡ options.tail_lines
length-tail_of options lines h =
    let last = length-drop (length lines - options.tail_lines) lines in
    elim (Bool-cases (options.tail_lines == 0)) [
      | inl e ↦ ground (arith, e)
      | inr e ↦ ground (arith, e, last)
    ]

-- Where lines are left out, the lines of the text are the first ones and the last ones, as many of each as
-- the options say, and those between them, and the compact text is the first ones, a marker with the
-- number of those left out, and the last ones, each on a line.
pub compact_text_keeps :
    (text : Text) (options : TokenjuiceOptions) (c : CompactText)
    → compact_text text options ≡ some c
    → 0 < c.omitted_lines
    → (head : List Text) × (middle : List Text) × (tail : List Text) × (splitlines text
        ≡ head ++ (middle ++ tail))
      × (length head ≡ options.head_lines)
      × (length tail ≡ options.tail_lines)
      × (length middle ≡ c.omitted_lines)
      × (c.text ≡ join (10 ∷ []) (head ++ marker (length middle) ∷ tail))
compact_text_keeps text options c h pos =
    let lines = splitlines text in
    let omitted = omitted_of options lines in
    let same : c.omitted_lines ≡ omitted = unfold compact_text in ground arith in
    let head = take options.head_lines lines in
    let tail = tail_of options lines in
    let rest = drop options.head_lines lines in
    let after = tail_after options lines (omega (arith, same)) in
    let first = length-take options.head_lines lines in
    let whole = length-drop options.head_lines lines in
    let last = length-tail_of options lines (omega (arith, same)) in
    let count : length (take omitted rest) ≡ omitted =
      length-take omitted rest ∙ omega (arith, whole, first) in
    let shown : c.text ≡ join (10 ∷ []) (head ++ marker omitted ∷ tail) =
      unfold compact_text compact_lines in ground arith in
    (
      head,
      take omitted rest,
      tail,
      sym (take-append-drop options.head_lines lines)
          ∙ ap (λ r. head ++ r)
              (sym (take-append-drop omitted rest) ∙ ap (λ r. take omitted rest ++ r) after),
      omega (arith, first, same),
      last,
      count ∙ sym same,
      shown ∙ ap (λ n. join (10 ∷ []) (head ++ marker n ∷ tail)) (sym count),
    )
