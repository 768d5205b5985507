-- ===== src/Rescue/Grep.antt =====
-- rescue_grep.py: `grep_text`, the search for a literal pattern under limits. `str.lower`, the `repr` of
-- the timeout and whether the time is over before a line are parameters.
use tokenjuice_hermes.Common.{
  Text, codes, contains_text, number_text, splitlines, join, ℕ, zero, suc, ◌+◌, ◌≡◌, refl, ap, ◌∙◌,
  Bool, true, false, List, [], ◌∷◌, ◌++◌, map, any, keep, numbered, length, take, is_empty, ltb,
  leb, ◌==◌, arith, Bool-cases, inl, inr, if◌then◌else◌,
}
use tokenjuice_hermes.Json.{JsonObject, get_value}
use tokenjuice_hermes.Rescue.Excerpt.{int_or}

abbrev meta_chars : Text
meta_chars = codes ".^$*+?{}[]\\|()"

abbrev match_cap : ℕ
match_cap = 50

-- `f"{n}: {line[:500]}"`
unfoldable pub match_line : ℕ × Text → Text
unfolding number_text
match_line (n, line) = number_text n ++ (codes ": " ++ take 500 line)

abbrev capped_line : Text
capped_line = codes "[50 matches; capped]"

unfoldable pub timed_out_line : Text → ℕ → Text
unfolding number_text
timed_out_line seconds found =
    codes "[grep timed out after "
    ++ (seconds ++ (codes "s; " ++ (number_text found ++ codes " matches]")))

module _ (lower_text : Text → Text) (seconds_text : ℕ → Text) (is_late : ℕ → Bool) where
  -- `needle in line[:line_cap].lower()`
  unfoldable pub is_match : Text → ℕ → ℕ × Text → Bool
  unfolding contains_text
  is_match needle line_cap (n, line) = contains_text needle (lower_text (take line_cap line))

  -- The loop over the lines, from line `n` on, after so many matches.
  unfoldable pub grep_loop : Text → ℕ → ℕ → ℕ → ℕ → List Text → List Text
  grep_loop needle line_cap timeout_ms found n [] = []
  grep_loop needle line_cap timeout_ms found n (line ∷ lines) = elim (is_late n) [
    | true ↦ timed_out_line (seconds_text timeout_ms) found ∷ []
    | false ↦ elim (is_match needle line_cap (n, line)) [
      | false ↦ grep_loop needle line_cap timeout_ms found (suc n) lines
      | true ↦ match_line (n, line) ∷ elim (leb match_cap (suc found)) [
        | true ↦ capped_line ∷ []
        | false ↦ grep_loop needle line_cap timeout_ms (suc found) (suc n) lines
      ]
    ]
  ]

  unfoldable pub grep_results : Text → Text → ℕ → ℕ → ℕ → Text
  unfolding splitlines grep_loop number_text join
  grep_results text pattern cap line_cap timeout_ms =
      let lines = splitlines text in
      let results = grep_loop (lower_text pattern) line_cap timeout_ms 0 0 lines in
      if is_empty results
      then codes "[no matches for pattern '"
        ++ (pattern ++ (codes "' in " ++ (number_text (length lines) ++ codes " lines]")))
      else take cap (join (10 ∷ []) results)

  -- `grep_text`
  unfoldable pub grep_text : Text → Text → JsonObject → Text
  unfolding int_or get_value number_text any grep_results
  grep_text text pattern config =
      if is_empty pattern
      then codes "Error: grep requires pattern=..."
      else if ltb (int_or (get_value (codes "grep_max_pattern_len") config) 80) (length pattern)
      then codes "Error: pattern too long (" ++ (number_text (length pattern) ++ codes " chars)")
      else if any (λ c. ltb c 32) pattern
      then codes "Error: pattern contains control characters"
      else if any (λ c. any (λ m. m == c) meta_chars) pattern
      then codes
          "Error: regex patterns need the optional 'regex' package; install it, or use a literal substring"
      else grep_results text pattern (int_or (get_value (codes "fetch_max_chars") config) 4000)
          (int_or (get_value (codes "grep_max_line_len") config) 2000)
          (int_or (get_value (codes "grep_timeout_ms") config) 500)

  -- The lines that match, as many as are asked for, with a note when there are as many.
  abbrev pub first_matches : ℕ → List (ℕ × Text) → List Text
  first_matches left hits =
      map match_line (take left hits) ++ (if leb left (length hits) then capped_line ∷ [] else [])

  first_matches_hit :
      (left : ℕ) (hit : ℕ × Text) (hits : List (ℕ × Text))
      → match_line hit ∷ first_matches (suc left) hits ≡ first_matches (suc (suc left)) (hit ∷ hits)
  first_matches_hit left hit hits = elim (Bool-cases (leb (suc left) (length hits))) [
    | inl e ↦
        let e' : leb (suc (suc left)) (suc (length hits)) ≡ true = ground (arith, e) in
        rw (e, e') refl
    | inr e ↦
        let e' : leb (suc (suc left)) (suc (length hits)) ≡ false = ground (arith, e) in
        rw (e, e') refl
  ]

  first_matches_last :
      (hit : ℕ × Text) (hits : List (ℕ × Text))
      → match_line hit ∷ capped_line ∷ [] ≡ first_matches 1 (hit ∷ hits)
  first_matches_last hit hits =
      let one : leb 1 (suc (length hits)) ≡ true = ground arith in rw one refl

  grep_loop_left :
      (needle : Text) (line_cap timeout_ms left found n : ℕ) (lines : List Text)
      → ((k : ℕ) → is_late k ≡ false)
      → found + suc left ≡ match_cap
      → grep_loop needle line_cap timeout_ms found n lines
        ≡ first_matches (suc left) (keep (is_match needle line_cap) (numbered n lines))
  unfolding grep_loop keep numbered
  grep_loop_left needle line_cap timeout_ms left found n [] early room =
      let none_left : leb (suc left) 0 ≡ false = ground arith in rw none_left refl
  grep_loop_left needle line_cap timeout_ms left found n (line ∷ lines) early room =
      elim (Bool-cases (is_match needle line_cap (n, line))) [
        | inr e ↦
            let rest =
              grep_loop_left needle line_cap timeout_ms left found (suc n) lines early room in
            rw (early n, e, grep_loop, keep, numbered) rest
        | inl e ↦
            elim left
                as (λ left.
                  found + suc left ≡ match_cap
                  → grep_loop needle line_cap timeout_ms found n (line ∷ lines)
                    ≡ first_matches (suc left)
                        (keep (is_match needle line_cap) (numbered n (line ∷ lines)))) [
                          | zero ↦ λ room.
                              let full : leb match_cap (suc found) ≡ true = ground (arith, room) in
                              rw (early n, e, full, grep_loop, keep, numbered)
                                (first_matches_last (n, line)
                                  (keep (is_match needle line_cap) (numbered (suc n) lines)))
                          | suc l ↦ λ room.
                              let more : leb match_cap (suc found) ≡ false = ground (arith, room) in
                              let room' : suc found + suc l ≡ match_cap = omega (arith, room) in
                              let rest =
                                grep_loop_left needle line_cap timeout_ms l (suc found) (suc n)
                                  lines early room' in
                              rw (early n, e, more, grep_loop, keep, numbered)
                                (ap (◌∷◌ (match_line (n, line))) rest
                                  ∙ first_matches_hit l (n, line)
                                      (keep (is_match needle line_cap) (numbered (suc n) lines)))
                        ]
              room
      ]

  -- As long as the time is not over, the loop finds the lines that match, in their order and with their
  -- numbers, the first fifty at most, with a note after them when there are as many.
  pub grep_loop-keep :
      (needle : Text) (line_cap timeout_ms : ℕ) (lines : List Text)
      → ((k : ℕ) → is_late k ≡ false)
      → grep_loop needle line_cap timeout_ms 0 0 lines
        ≡ first_matches match_cap (keep (is_match needle line_cap) (numbered 0 lines))
  grep_loop-keep needle line_cap timeout_ms lines early =
      grep_loop_left needle line_cap timeout_ms 49 0 0 lines early refl
