-- ===== src/Passref/Denial.antt =====
-- passref.py: what is left in the arguments of a call that is denied.
use mathlib.Core.List.{append_assoc}
use tokenjuice_hermes.BlobStore.{BlobStore}
use tokenjuice_hermes.Common.{
  Text, codes, ℕ, ◌≡◌, refl, sym, Bool, true, false, ◌&&◌, not, Option, none, some, List, [], ◌∷◌,
  ◌++◌, ok, any, is_empty, Bool-cases, inl, inr, arith, suc, zero,
}
use tokenjuice_hermes.Json.{
  JsonValue, Items, Fields, nil, cons, end, field, scalar, array, object, null, bool, int, float,
  str,
}
use tokenjuice_hermes.Observability.{Counters, record_passref_denial}
use tokenjuice_hermes.Passref.Config.{PassrefConfig, is_hard_exempt, tool_allowed}
use tokenjuice_hermes.Passref.Expand.{
  text_has_handle, has_handle, has_handle_items, has_handle_fields, replace_text, replace_handles,
  replace_items, replace_fields,
}
use tokenjuice_hermes.Passref.Middleware.{
  tool_denial_marker, session_required_marker, maybe_deny_args, with_session, tool_request,
  args_result,
}
use tokenjuice_hermes.Passref.Pattern.{pattern, matches, has_reference, scan, fill}

-- No place of the pattern takes the character.
abbrev Rejects : ℕ → List (ℕ → Bool) → Type 0
Rejects c ps = any (λ p. p c) ps ≡ false

open_bracket-Rejects : Rejects b'[' pattern
unfolding any
open_bracket-Rejects = refl

-- What matches in front of such a character does not need it.
matches-before :
    (ps : List (ℕ → Bool)) (c : ℕ) (m rest : Text)
    → Rejects c ps
    → matches ps (m ++ c ∷ rest) ≡ true
    → matches ps m ≡ true
unfolding matches any
matches-before [] c m rest r h = refl
matches-before (p ∷ ps) c [] rest r h = ground (arith, r, h)
matches-before (p ∷ ps) c (d ∷ m) rest r h =
    let r' : Rejects c ps = ground (arith, r) in
    let h' : matches ps (m ++ c ∷ rest) ≡ true = ground (arith, h) in
    ground (arith, h, matches-before ps c m rest r' h')

has_reference-before :
    (c : ℕ) (m rest : Text)
    → Rejects c pattern
    → has_reference m ≡ false
    → has_reference rest ≡ false
    → has_reference (m ++ c ∷ rest) ≡ false
unfolding has_reference
has_reference-before c [] rest r h k = elim (Bool-cases (matches pattern (c ∷ rest))) [
  | inl e ↦ absurd (unfold matches in ground (arith, matches-before pattern c [] rest r e))
  | inr e ↦ ground (arith, e, k)
]
has_reference-before c (d ∷ m) rest r h k =
    elim (Bool-cases (matches pattern (d ∷ m ++ c ∷ rest))) [
      | inl e ↦ absurd (ground (arith, h, matches-before pattern c (d ∷ m) rest r e))
      | inr e ↦
          let h' : has_reference m ≡ false = ground (arith, h) in
          ground (arith, e, has_reference-before c m rest r h' k)
    ]

-- What matches where references are filled by something that the pattern rejects was there before.
matches-fill :
    (ps : List (ℕ → Bool)) (c : ℕ) (m s : Text)
    → Rejects c ps
    → matches ps (fill (c ∷ m) (scan 0 s)) ≡ true
    → matches ps s ≡ true
unfolding scan fill any
matches-fill [] c m s r h = unfold matches in refl
matches-fill (p ∷ ps) c m [] r h = h
matches-fill (p ∷ ps) c m (d ∷ s) r h = elim (Bool-cases (matches pattern (d ∷ s))) [
  | inl e ↦ absurd (unfold matches in ground (arith, r, e, h))
  | inr e ↦
      let r' : Rejects c ps = ground (arith, r) in
      let h' : p d && matches ps (fill (c ∷ m) (scan 0 s)) ≡ true =
        unfold matches in ground (arith, e, h) in
      let tail : matches ps (fill (c ∷ m) (scan 0 s)) ≡ true = ground (arith, h') in
      unfold matches in ground (arith, h', matches-fill ps c m s r' tail)
]

-- A marker that stands in brackets and has no reference leaves none.
abbrev bracketed : Text → Text
bracketed m = b'[' ∷ (m ++ b']' ∷ [])

has_reference-bracketed :
    (m rest : Text)
    → has_reference m ≡ false
    → has_reference rest ≡ false
    → has_reference (bracketed m ++ rest) ≡ false
has_reference-bracketed m rest h k =
    let inner = has_reference-before b']' m rest (unfold any in refl) h k in
    let same : m ++ (b']' ∷ rest) ≡ (m ++ b']' ∷ []) ++ rest =
      sym (append_assoc m (b']' ∷ []) rest) in
    unfold has_reference matches in ground (arith, inner, same)

has_reference-cons :
    (c : ℕ) (t : Text)
    → matches pattern (c ∷ t) ≡ false
    → has_reference t ≡ false
    → has_reference (c ∷ t) ≡ false
unfolding has_reference
has_reference-cons c t h k = ground arith

has_reference-fill :
    (m : Text) (skip : ℕ) (s : Text)
    → has_reference m ≡ false
    → has_reference (fill (bracketed m) (scan skip s)) ≡ false
unfolding scan fill
has_reference-fill m skip [] h = unfold has_reference in refl
has_reference-fill m (suc skip) (c ∷ s) h = has_reference-fill m skip s h
has_reference-fill m zero (c ∷ s) h = elim (Bool-cases (matches pattern (c ∷ s))) [
  | inl e ↦
      rw (e, scan, fill)
        (has_reference-bracketed m (fill (bracketed m) (scan 15 s)) h (has_reference-fill m 15 s h))
  | inr e ↦ elim (Bool-cases (matches pattern (c ∷ fill (bracketed m) (scan 0 s)))) [
    | inl f ↦
        let g : matches pattern (fill (bracketed m) (scan 0 (c ∷ s))) ≡ true =
          rw (e, scan, fill) f in
        absurd (
          ground
            (arith, e, matches-fill pattern b'[' (m ++ b']' ∷ []) (c ∷ s) open_bracket-Rejects g))
    | inr f ↦
        rw (e, scan, fill)
          (has_reference-cons c (fill (bracketed m) (scan 0 s)) f (has_reference-fill m 0 s h))
  ]
]

mutual
  unfolding has_handle replace_handles replace_text text_has_handle

  has_handle-replace_handles :
      (m : Text) (v : JsonValue)
      → has_reference m ≡ false
      → has_handle (replace_handles (bracketed m) v) ≡ false
  has_handle-replace_handles m (scalar (str s)) h = ground (arith, has_reference-fill m 0 s h)
  has_handle-replace_handles m (scalar null) h = refl
  has_handle-replace_handles m (scalar (bool b)) h = refl
  has_handle-replace_handles m (scalar (int i)) h = refl
  has_handle-replace_handles m (scalar (float x)) h = refl
  has_handle-replace_handles m (array vs) h = has_handle-replace_items m vs h
  has_handle-replace_handles m (object fs) h = has_handle-replace_fields m fs h

  has_handle-replace_items :
      (m : Text) (vs : Items)
      → has_reference m ≡ false
      → has_handle_items (replace_items (bracketed m) vs) ≡ false
  has_handle-replace_items m nil h = refl
  has_handle-replace_items m (cons v vs) h =
      ground (arith, has_handle-replace_handles m v h, has_handle-replace_items m vs h)

  has_handle-replace_fields :
      (m : Text) (fs : Fields)
      → has_reference m ≡ false
      → has_handle_fields (replace_fields (bracketed m) fs) ≡ false
  has_handle-replace_fields m end h = refl
  has_handle-replace_fields m (field k v fs) h =
      ground (arith, has_handle-replace_handles m v h, has_handle-replace_fields m fs h)

-- The arguments that the call goes on with.
abbrev pub passed_on : Fields → Option JsonValue → JsonValue
passed_on args none = args_result (object args)
passed_on args (some result) = result

has_handle-maybe_deny_args :
    (m : Text) (args : Fields)
    → has_reference m ≡ false
    → has_handle (passed_on args (maybe_deny_args args (bracketed m))) ≡ false
unfolding maybe_deny_args
has_handle-maybe_deny_args m args h = elim (Bool-cases (has_handle (object args))) [
  | inl e ↦ rw e (unfold has_handle in ground (arith, has_handle-replace_handles m (object args) h))
  | inr e ↦ rw e (unfold has_handle in ground (arith, e))
]

-- The inner text of the marker of a tool.
abbrev denial_text : Text → Text
denial_text tool_name =
    codes "tokenjuice-hermes: tool "
    ++ b'\'' ∷ (tool_name ++ b'\'' ∷ codes " is not eligible for passref expansion")

has_reference-denial_text :
    (tool_name : Text)
    → has_reference tool_name ≡ false
    → has_reference (denial_text tool_name) ≡ false
has_reference-denial_text tool_name h =
    has_reference-before b'\'' (codes "tokenjuice-hermes: tool ")
      (tool_name ++ b'\'' ∷ codes " is not eligible for passref expansion") (unfold any in refl)
      (unfold has_reference matches in refl)
      (has_reference-before b'\'' tool_name (codes " is not eligible for passref expansion")
        (unfold any in refl) h (unfold has_reference matches in refl))

tool_denial_marker-bracketed :
    (tool_name : Text) → tool_denial_marker tool_name ≡ bracketed (denial_text tool_name)
unfolding tool_denial_marker
tool_denial_marker-bracketed tool_name =
    simp
      (append_assoc tool_name (b'\'' ∷ codes " is not eligible for passref expansion") (b']' ∷ []))

-- `isinstance(session_id, str) and session_id`
abbrev pub has_session : JsonValue → Bool
has_session (scalar (str session_id)) = not (is_empty session_id)
has_session v = false

module _ (store : BlobStore) where
  open store use {State}

  session_marker-handles :
      (args : Fields)
      → has_handle (passed_on args (maybe_deny_args args session_required_marker)) ≡ false
  session_marker-handles args =
      has_handle-maybe_deny_args (codes "tokenjuice-hermes: passref requires a session ID") args
        (unfold has_reference matches in refl)

  without_session :
      (s : Option State) (cfg : PassrefConfig) (args : Fields) (session_id : JsonValue)
      (k : Counters)
      → has_session session_id ≡ false
      → with_session store s cfg args session_id k
        ≡ (ok (maybe_deny_args args session_required_marker), record_passref_denial k)
  unfolding with_session
  without_session s cfg args (scalar (str [])) k h = refl
  without_session s cfg args (scalar (str (c ∷ t))) k h = absurd (ground (arith, h))
  without_session s cfg args (scalar null) k h = refl
  without_session s cfg args (scalar (bool b)) k h = refl
  without_session s cfg args (scalar (int i)) k h = refl
  without_session s cfg args (scalar (float x)) k h = refl
  without_session s cfg args (array vs) k h = refl
  without_session s cfg args (object fs) k h = refl

  -- Where the expansion is on, a call of a tool that is not exempt and that may not receive an expansion, or
  -- that has no session, is counted as denied and goes on without any handle, if the tool's name has none.
  pub tool_request_denied :
      (s : Option State) (cfg : PassrefConfig) (tool_name : Text) (args : Fields)
      (session_id : JsonValue) (k : Counters)
      → cfg.enabled ≡ true
      → is_hard_exempt tool_name ≡ false
      → (tool_allowed tool_name cfg && has_session session_id) ≡ false
      → has_reference tool_name ≡ false
      → (result : Option JsonValue) × (tool_request store s cfg
            (scalar (str tool_name))
            (object args)
            session_id
            k
          ≡ (ok result, record_passref_denial k))
        × (has_handle (passed_on args result) ≡ false)
  tool_request_denied s cfg tool_name args session_id k on exempt denied name =
      elim (Bool-cases (tool_allowed tool_name cfg)) [
        | inl e ↦
            let absent : has_session session_id ≡ false = ground (arith, e, denied) in
            (
              maybe_deny_args args session_required_marker,
              unfold tool_request in
                  ground (arith, e, on, exempt, without_session s cfg args session_id k absent),
              session_marker-handles args,
            )
        | inr e ↦ (
          maybe_deny_args args (tool_denial_marker tool_name),
          unfold tool_request in ground (arith, e, on, exempt),
          rw (tool_denial_marker-bracketed tool_name) (
              has_handle-maybe_deny_args (denial_text tool_name) args
                (has_reference-denial_text tool_name name)),
        )
      ]
