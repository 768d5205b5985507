-- ===== src/Passref/Redeem.antt =====
-- passref.py over a store: what was put reaches an allowed tool as it was.
use mathlib.Core.List.{append-nil}
use tokenjuice_hermes.BlobStore.{BlobStore}
use tokenjuice_hermes.Common.{
  Text, codes, ℕ, ◌+◌, ◌-◌, ◌≤◌, ◌<◌, ◌≡◌, ◌≢◌, refl, ap, ◌∙◌, true, false, some, List, [], ◌∷◌,
  ◌++◌, Outcome, ok, length, take, min, is_empty, arith, suc, zero,
}
use tokenjuice_hermes.Json.{end, field, scalar, object, str}
use tokenjuice_hermes.Observability.{Counters, record_passref_expansion}
use tokenjuice_hermes.Passref.Budgets.{text_has_handle_iff}
use tokenjuice_hermes.Passref.Config.{PassrefConfig, is_hard_exempt, tool_allowed}
use tokenjuice_hermes.Passref.Expand.{
  Budget, new_budget, redeem, charge, expand_string, expand_value, text_has_handle,
}
use tokenjuice_hermes.Passref.Middleware.{
  tool_request, with_session, expand_with_store, after_expansion, record_expansion, args_result,
}
use tokenjuice_hermes.Passref.Pattern.{reference, pattern, matches, has_reference, scan, sub}

-- A reference to a handle, as a tool's argument has it.
abbrev reference_to : Text → Text
reference_to handle = codes "tla:" ++ handle

scan-skipped : (n : ℕ) (s : Text) → length s ≤ n → scan n s ≡ []
unfolding scan
scan-skipped n [] h = refl
scan-skipped zero (c ∷ s) h = absurd (omega (arith, h))
scan-skipped (suc n) (c ∷ s) h = scan-skipped n s (omega (arith, h))

take-all {ℓ} : {A : Type ℓ} (n : ℕ) (xs : List A) → length xs ≤ n → take n xs ≡ xs
take-all zero [] h = refl
take-all zero (x ∷ xs) h = absurd (omega (arith, h))
take-all (suc n) [] h = refl
take-all (suc n) (x ∷ xs) h = ap (◌∷◌ x) (take-all n xs (omega (arith, h)))

scan-reference_to :
    (handle : Text)
    → matches pattern (reference_to handle) ≡ true
    → length handle ≡ 12
    → scan 0 (reference_to handle) ≡ reference handle ∷ []
scan-reference_to handle m len =
    let same = take-all 12 handle (omega (arith, len)) in
    let done = scan-skipped 12 handle (omega (arith, len)) in unfold scan in rw (m, same, done) refl

sub-reference {ℓ} :
    {S : Type ℓ} (f : Text → S → Outcome (Text × S)) (h r : Text) (b b' : S)
    → f h b ≡ ok (r, b')
    → sub f (reference h ∷ []) b ≡ ok (r, b')
unfolding sub
sub-reference f h r b b' e = let whole = append-nil r in cc (e, whole)

module _ (store : BlobStore) where
  open store use {State, blob_text, session_references}

  redeem-whole :
      (cfg : PassrefConfig) (session_id : Text) (s : State) (handle content : Text) (b : Budget)
      → session_references handle session_id s ≡ ok true
      → blob_text handle s ≡ some content
      → b.total < cfg.total_max_chars
      → length content ≤ min cfg.max_chars (cfg.total_max_chars - b.total)
      → redeem store cfg session_id s handle b
        ≡ ok (content, record b { total = b.total + length content })
  redeem-whole cfg session_id s handle content b r t some_left fits =
      unfold redeem charge in ground (arith, r, t, some_left, fits)

  expand_string-reference_to :
      (cfg : PassrefConfig) (session_id : Text) (s : State) (handle content : Text) (b : Budget)
      → matches pattern (reference_to handle) ≡ true
      → length handle ≡ 12
      → session_references handle session_id s ≡ ok true
      → blob_text handle s ≡ some content
      → b.total < cfg.total_max_chars
      → length content ≤ min cfg.max_chars (cfg.total_max_chars - b.total)
      → expand_string store cfg session_id s (reference_to handle) b
        ≡ ok (content, record b { total = b.total + length content; changed = true })
  expand_string-reference_to cfg session_id s handle content b m len r t some_left fits =
      let found : text_has_handle (reference_to handle) ≡ true =
        text_has_handle_iff (reference_to handle) ∙ (unfold has_reference in ground (arith, m)) in
      let one = scan-reference_to handle m len in
      let b1 : Budget = record b { changed = true } in
      let back = redeem-whole cfg session_id s handle content b1 r t some_left fits in
      let whole =
        sub-reference (redeem store cfg session_id s) handle content b1
          (record b1 { total = b.total + length content }) back in
      unfold expand_string in rw (found, one) whole

  -- What `put` stored for a session under a handle of the pattern reaches an allowed tool of that session
  -- as it was: the reference as an argument becomes the very content, if the content is within both limits
  -- and there is a budget, and the call counts one expansion of so many characters.
  pub tool_request-put :
      (cfg : PassrefConfig) (content source session_id handle tool_name key : Text) (s s' : State)
      (k : Counters)
      → store.put content source session_id s ≡ (ok handle, s')
      → matches pattern (reference_to handle) ≡ true
      → length handle ≡ 12
      → is_empty session_id ≡ false
      → cfg.enabled ≡ true
      → is_hard_exempt tool_name ≡ false
      → tool_allowed tool_name cfg ≡ true
      → 0 < cfg.total_max_chars
      → length content ≤ min cfg.max_chars cfg.total_max_chars
      → tool_request store
          (some s')
          cfg
          (scalar (str tool_name))
          (object (field key (scalar (str (codes "tla:" ++ handle))) end))
          (scalar (str session_id))
          k
        ≡ (
          ok (some (args_result (object (field key (scalar (str content)) end)))),
          record_passref_expansion (length content) k,
        )
  tool_request-put cfg content source session_id handle tool_name key s s' k given m len session on
        exempt allowed budget fits =
      let nonempty : handle ≢ [] = λ e. absurd (ground (arith, e, len)) in
      let (owned, held) = store.put_redeems content source session_id handle s s' given nonempty in
      let whole =
        expand_string-reference_to cfg session_id s' handle content new_budget m len owned held
          budget (omega (arith, fits)) in
      unfold tool_request with_session expand_with_store expand_value after_expansion
        record_expansion in
      ground (arith, on, exempt, allowed, session, whole)
