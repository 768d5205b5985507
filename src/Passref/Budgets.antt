-- ===== src/Passref/Budgets.antt =====
-- passref.py: an expansion whose budget is spent, and one that fits its budget.
use tokenjuice_hermes.BlobStore.{BlobStore}
use tokenjuice_hermes.Common.{
  Text, codes, contains_text, starts_with, ◌≤◌, ◌≡◌, refl, ap, ◌∙◌, true, false, List, [], ◌∷◌,
  Outcome, ok, Bool-cases, inl, inr, arith,
}
use tokenjuice_hermes.Json.{
  JsonValue, Items, Fields, nil, cons, end, field, scalar, array, object, null, bool, int, float,
  str,
}
use tokenjuice_hermes.Passref.Config.{PassrefConfig}
use tokenjuice_hermes.Passref.Expand.{
  Budget, redeem, budget_marker, expand_string, expand_value, expand_items, expand_fields,
  text_has_handle, replace_text, replace_handles, replace_items, replace_fields,
}
use tokenjuice_hermes.Passref.Pattern.{
  Piece, char, reference, pattern, matches, has_reference, scan, fill, sub,
}

matches-starts_with : (s : Text) → matches pattern s ≡ true → starts_with s (codes "tla:") ≡ true
unfolding matches starts_with
matches-starts_with [] h = absurd (ground (arith, h))
matches-starts_with (a ∷ []) h = absurd (ground (arith, h))
matches-starts_with (a ∷ b ∷ []) h = absurd (ground (arith, h))
matches-starts_with (a ∷ b ∷ c ∷ []) h = absurd (ground (arith, h))
matches-starts_with (a ∷ b ∷ c ∷ d ∷ s) h = ground (arith, h)

-- The first test of `text_has_handle` is no more than the second.
has_reference-contains_text :
    (s : Text) → has_reference s ≡ true → contains_text (codes "tla:") s ≡ true
unfolding has_reference contains_text
has_reference-contains_text [] h = absurd (ground (arith, h))
has_reference-contains_text (c ∷ s) h = elim (Bool-cases (matches pattern (c ∷ s))) [
  | inl e ↦ ground (arith, matches-starts_with (c ∷ s) e)
  | inr e ↦
      let h' : has_reference s ≡ true = ground (arith, e, h) in
      ground (arith, has_reference-contains_text s h')
]

pub text_has_handle_iff : (s : Text) → text_has_handle s ≡ has_reference s
unfolding text_has_handle
text_has_handle_iff s = elim (Bool-cases (has_reference s)) [
  | inl e ↦ ground (arith, e, has_reference-contains_text s e)
  | inr e ↦ ground (arith, e)
]

fill-scan : (m s : Text) → has_reference s ≡ false → fill m (scan 0 s) ≡ s
unfolding has_reference fill scan
fill-scan m [] h = refl
fill-scan m (c ∷ s) h =
    let e : matches pattern (c ∷ s) ≡ false = ground (arith, h) in
    let h' : has_reference s ≡ false = ground (arith, h) in
    rw (e, scan, fill) (ap (◌∷◌ c) (fill-scan m s h'))

module _ (store : BlobStore) (cfg : PassrefConfig) (session_id : Text) (s : store.State) where
  -- The outcome is `a`, and the same was spent before.
  abbrev Spends {ℓ} : {A : Type ℓ} → Outcome (A × Budget) → A → Budget → Type ℓ
  Spends o a b = (b' : Budget) × (o ≡ ok (a, b')) × (b'.total ≡ b.total)

  redeem_spent :
      (n : Text) (b : Budget)
      → cfg.total_max_chars ≤ b.total
      → redeem store cfg session_id s n b
        ≡ ok (budget_marker cfg.total_max_chars, record b { budget_exceeded = true })
  unfolding redeem
  redeem_spent n b h = ground (arith, h)

  sub-spent :
      (ps : List Piece) (b : Budget)
      → cfg.total_max_chars ≤ b.total
      → Spends
          (sub (redeem store cfg session_id s) ps b)
          (fill (budget_marker cfg.total_max_chars) ps)
          b
  unfolding sub fill
  sub-spent [] b h = (b, refl, refl)
  sub-spent (char c ∷ ps) b h = let (b', e, t) = sub-spent ps b h in (b', rw e refl, t)
  sub-spent (reference n ∷ ps) b h =
      let (b', e, t) = sub-spent ps (record b { budget_exceeded = true }) h in
      (b', cc (redeem_spent n b h, e), t)

  expand_string-spent :
      (t : Text) (b : Budget)
      → cfg.total_max_chars ≤ b.total
      → Spends
          (expand_string store cfg session_id s t b)
          (replace_text (budget_marker cfg.total_max_chars) t)
          b
  unfolding expand_string replace_text
  expand_string-spent t b h = elim (Bool-cases (has_reference t)) [
    | inl e ↦
        let (b', p, q) = sub-spent (scan 0 t) (record b { changed = true }) h in
        (b', rw (text_has_handle_iff t, e) p, q)
    | inr e ↦
        let same = fill-scan (budget_marker cfg.total_max_chars) t e in
        (b, rw (text_has_handle_iff t, e, same) refl, refl)
  ]

  mutual
    unfolding expand_value replace_handles

    expand_value-spent :
        (v : JsonValue) (b : Budget)
        → cfg.total_max_chars ≤ b.total
        → Spends
            (expand_value store cfg session_id s v b)
            (replace_handles (budget_marker cfg.total_max_chars) v)
            b
    expand_value-spent (scalar (str t)) b h =
        let (b', e, q) = expand_string-spent t b h in (b', cc e, q)
    expand_value-spent (scalar null) b h = (b, refl, refl)
    expand_value-spent (scalar (bool x)) b h = (b, refl, refl)
    expand_value-spent (scalar (int i)) b h = (b, refl, refl)
    expand_value-spent (scalar (float x)) b h = (b, refl, refl)
    expand_value-spent (array vs) b h = let (b', e, q) = expand_items-spent vs b h in (b', cc e, q)
    expand_value-spent (object fs) b h =
        let (b', e, q) = expand_fields-spent fs b h in (b', cc e, q)

    expand_items-spent :
        (vs : Items) (b : Budget)
        → cfg.total_max_chars ≤ b.total
        → Spends
            (expand_items store cfg session_id s vs b)
            (replace_items (budget_marker cfg.total_max_chars) vs)
            b
    expand_items-spent nil b h = (b, refl, refl)
    expand_items-spent (cons v vs) b h =
        let (b1, e1, q1) = expand_value-spent v b h in
        let (b2, e2, q2) = expand_items-spent vs b1 (omega (arith, h, q1)) in
        (b2, cc (e1, e2), q2 ∙ q1)

    expand_fields-spent :
        (fs : Fields) (b : Budget)
        → cfg.total_max_chars ≤ b.total
        → Spends
            (expand_fields store cfg session_id s fs b)
            (replace_fields (budget_marker cfg.total_max_chars) fs)
            b
    expand_fields-spent end b h = (b, refl, refl)
    expand_fields-spent (field k v fs) b h =
        let (b1, e1, q1) = expand_value-spent v b h in
        let (b2, e2, q2) = expand_fields-spent fs b1 (omega (arith, h, q1)) in
        (b2, cc (e1, e2), q2 ∙ q1)

  -- Once the budget is spent, the expansion never raises, reads nothing of the store, and does what
  -- `_replace_handles` does with the marker of the budget; nothing more is charged.
  pub expand_value-replace_handles :
      (v : JsonValue) (b : Budget)
      → cfg.total_max_chars ≤ b.total
      → (b' : Budget) × (expand_value store cfg session_id s v b
          ≡ ok (replace_handles (budget_marker cfg.total_max_chars) v, b'))
        × (b'.total ≡ b.total)
  expand_value-replace_handles v b h = expand_value-spent v b h
