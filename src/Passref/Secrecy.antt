-- ===== src/Passref/Secrecy.antt =====
-- passref.py: an expansion depends on no blob that the session does not reference.
use tokenjuice_hermes.BlobStore.{BlobStore}
use tokenjuice_hermes.Common.{
  Text, ◌≡◌, refl, true, false, some, List, [], ◌∷◌, Outcome, ok, Outcome-cases, inl, inr, arith,
}
use tokenjuice_hermes.Json.{
  JsonValue, Items, Fields, nil, cons, end, field, scalar, array, object, null, bool, int, float,
  str,
}
use tokenjuice_hermes.Observability.{Counters}
use tokenjuice_hermes.Passref.Config.{PassrefConfig}
use tokenjuice_hermes.Passref.Expand.{
  Budget, redeem, expand_string, expand_value, expand_items, expand_fields,
}
use tokenjuice_hermes.Passref.Middleware.{tool_request, with_session, expand_with_store}
use tokenjuice_hermes.Passref.Pattern.{Piece, char, reference, sub}

sub-ext {ℓ} :
    {S : Type ℓ} (f g : Text → S → Outcome (Text × S))
    → ((h : Text) (b : S) → f h b ≡ g h b)
    → (ps : List Piece) (b : S) → sub f ps b ≡ sub g ps b
unfolding sub
sub-ext f g same [] b = refl
sub-ext f g same (char c ∷ ps) b = rw (sub-ext f g same ps b) refl
sub-ext f g same (reference h ∷ ps) b = elim (Outcome-cases (g h b)) [
  | inl (e, p) ↦ cc (same h b, p)
  | inr ((r, b'), p) ↦ cc (same h b, p, sub-ext f g same ps b')
]

module _ (store : BlobStore) (session_id : Text) (s s' : store.State)
    (references : (h : Text)
      → store.session_references h session_id s ≡ store.session_references h session_id s')
    (there : (h : Text) → store.has_blob h s ≡ store.has_blob h s')
    (redeemed : (h : Text)
      → store.session_references h session_id s ≡ ok true
      → store.blob_text h s ≡ store.blob_text h s') where
  redeem_same :
      (cfg : PassrefConfig) (h : Text) (b : Budget)
      → redeem store cfg session_id s h b ≡ redeem store cfg session_id s' h b
  unfolding redeem
  redeem_same cfg h b = elim (Outcome-cases (store.session_references h session_id s)) [
    | inl (e, p) ↦ ground (arith, p, references h)
    | inr (true, p) ↦ ground (arith, p, references h, redeemed h p)
    | inr (false, p) ↦ ground (arith, p, references h, there h)
  ]

  expand_string_same :
      (cfg : PassrefConfig) (t : Text) (b : Budget)
      → expand_string store cfg session_id s t b ≡ expand_string store cfg session_id s' t b
  unfolding expand_string
  expand_string_same cfg t b =
      rw
        (sub-ext (redeem store cfg session_id s) (redeem store cfg session_id s') (redeem_same cfg)
          _ _)
        refl

  mutual
    unfolding expand_value

    expand_value_same :
        (cfg : PassrefConfig) (v : JsonValue) (b : Budget)
        → expand_value store cfg session_id s v b ≡ expand_value store cfg session_id s' v b
    expand_value_same cfg (scalar (str t)) b = cc (expand_string_same cfg t b)
    expand_value_same cfg (scalar null) b = refl
    expand_value_same cfg (scalar (bool x)) b = refl
    expand_value_same cfg (scalar (int i)) b = refl
    expand_value_same cfg (scalar (float x)) b = refl
    expand_value_same cfg (array vs) b = cc (expand_items_same cfg vs b)
    expand_value_same cfg (object fs) b = cc (expand_fields_same cfg fs b)

    expand_items_same :
        (cfg : PassrefConfig) (vs : Items) (b : Budget)
        → expand_items store cfg session_id s vs b ≡ expand_items store cfg session_id s' vs b
    expand_items_same cfg nil b = refl
    expand_items_same cfg (cons v vs) b =
        elim (Outcome-cases (expand_value store cfg session_id s' v b)) [
          | inl (e, p) ↦ cc (expand_value_same cfg v b, p)
          | inr ((v', b'), p) ↦ cc (expand_value_same cfg v b, p, expand_items_same cfg vs b')
        ]

    expand_fields_same :
        (cfg : PassrefConfig) (fs : Fields) (b : Budget)
        → expand_fields store cfg session_id s fs b ≡ expand_fields store cfg session_id s' fs b
    expand_fields_same cfg end b = refl
    expand_fields_same cfg (field k v fs) b =
        elim (Outcome-cases (expand_value store cfg session_id s' v b)) [
          | inl (e, p) ↦ cc (expand_value_same cfg v b, p)
          | inr ((v', b'), p) ↦ cc (expand_value_same cfg v b, p, expand_fields_same cfg fs b')
        ]

  -- Two states of the store are alike for a call of a session when they answer alike whether the session
  -- references a handle, whether a blob is there, and what the blobs hold that the session references.
  pub tool_request_secret :
      (cfg : PassrefConfig) (tool_name : Text) (args : Fields) (k : Counters)
      → tool_request store
          (some s)
          cfg
          (scalar (str tool_name))
          (object args)
          (scalar (str session_id))
          k
        ≡ tool_request store
            (some s')
            cfg
            (scalar (str tool_name))
            (object args)
            (scalar (str session_id))
            k
  unfolding tool_request with_session expand_with_store
  tool_request_secret cfg tool_name args k = rw (expand_value_same cfg (object args) _) refl
