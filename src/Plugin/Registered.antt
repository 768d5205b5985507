-- ===== src/Plugin/Registered.antt =====
-- plugin.py: what is registered together.
use tokenjuice_hermes.Common.{
  Text, codes, ◌≡◌, refl, ap, ◌∙◌, Bool, true, false, ◌&&◌, ◌||◌, List, [], ◌∷◌, ◌++◌, Outcome, ok,
  raise, Outcome-cases, any, inl, inr, arith, Bool-cases, put, key_error, type_error, value_error,
  attribute_error, replacement_error, recursion_error, os_error, sqlite_error, if◌then◌else◌,
}
use tokenjuice_hermes.Json.{JsonObject, scalar, bool}
use tokenjuice_hermes.Observability.{Counters}
use tokenjuice_hermes.Passref.Middleware.{make_passref_middleware}
use tokenjuice_hermes.Plugin.{
  Callback, prune_llm_request, passref_middleware, structured_context_prune, merged_transform,
  fetch_tool, status_tool, Registration, Host, appended, succeeded, middleware, hook, tool,
  plugin_config, rescue_store_path, transform_of, is_structured_pruning_enabled,
  try_register_named_middleware, try_register_structured_pruning_hook,
  try_register_passref_middleware, retry_tool, try_register_tool, register_rest, register,
}

-- The fetch tool, and a hook on results that lets them be rescued.
abbrev pub is_fetch : Registration → Bool
is_fetch (tool name (fetch_tool config)) = true
is_fetch r = false

abbrev pub is_rescuing : Registration → Bool
is_rescuing (hook name (merged_transform config)) = true
is_rescuing r = false

module _ (p : Registration → Bool) where
  any-append : (xs ys : List Registration) → any p (xs ++ ys) ≡ (any p xs || any p ys)
  unfolding any
  any-append [] ys = refl
  any-append (x ∷ xs) ys = ground (arith, any-append xs ys)

  any-appended :
      (o : Outcome {0} Unit) (r : Registration) (log : List Registration)
      → any p (appended o r log) ≡ (any p log || succeeded o && p r)
  any-appended (ok u) r log = any-append log (r ∷ []) ∙ unfold any in ground arith
  any-appended (raise e) r log = ground arith

  module _ (host : Host) where
    open host use {State, log}

    named_lem :
        (name : Text) (callback : Callback) (s : State)
        → any p (log (try_register_named_middleware host name callback s).1) ≡ (
            any p (log s)
            || (try_register_named_middleware host name callback s).0
              && p (middleware name callback))
    named_lem name callback s =
        let step =
          any-appended (host.register_middleware name callback s).0 (middleware name callback)
            (log s) in
        elim (Bool-cases host.has_register_middleware) [
          | inl e ↦
              unfold try_register_named_middleware in
              rw (e, try_register_named_middleware, host.log-register_middleware name callback s)
                step
          | inr e ↦
              unfold try_register_named_middleware in
              rw (e, try_register_named_middleware) ground arith
        ]

    hook_lem :
        (config : JsonObject) (s : State)
        → p (hook (codes "structured_context_prune") (structured_context_prune config)) ≡ false
        → any p (log (try_register_structured_pruning_hook host config s).1) ≡ any p (log s)
    hook_lem config s other =
        let name = codes "structured_context_prune" in
        let callback = structured_context_prune config in
        let step =
          any-appended (host.register_hook name callback s).0 (hook name callback) (log s) in
        elim (Bool-cases (is_structured_pruning_enabled config && host.has_register_hook)) [
          | inl e ↦
              unfold try_register_structured_pruning_hook in
              rw (e, try_register_structured_pruning_hook, host.log-register_hook name callback s)
                (step ∙ ground (arith, other))
          | inr e ↦
              unfold try_register_structured_pruning_hook in
              rw (e, try_register_structured_pruning_hook) refl
        ]

    if_log :
        {A : Type 0} (b : Bool) (x y : A × State) (q : Bool)
        → any p (log x.1) ≡ q
        → any p (log y.1) ≡ q
        → any p (log (if b then x else y).1) ≡ q
    if_log true x y q g h = g
    if_log false x y q g h = h

    passref_lem :
        (config : JsonObject) (k : Counters) (s : State)
        → ((callback : Callback) → p (middleware (codes "tool_request") callback) ≡ false)
        → any p (log (try_register_passref_middleware host config k s).1) ≡ any p (log s)
    passref_lem config k s other =
        let callback =
          passref_middleware (rescue_store_path config) (make_passref_middleware config k).0 in
        let step = named_lem (codes "tool_request") callback s in
        unfold try_register_passref_middleware in
        if_log host.has_register_middleware
          (
            (
              (try_register_named_middleware host (codes "tool_request") callback s).0,
              (make_passref_middleware config k).1,
            ),
            (try_register_named_middleware host (codes "tool_request") callback s).1,
          )
          ((false, k), s) (any p (log s)) (step ∙ ground (arith, other callback)) refl

    retry_lem :
        (name : Text) (callback : Callback) (r : Outcome {0} Unit) (before : List Registration)
        (s : State) (b : Bool)
        → any p (log s) ≡ any p (appended r (tool name callback) before)
        → (retry_tool host name callback (r, s)).0 ≡ ok b
        → any p (log (retry_tool host name callback (r, s)).1)
          ≡ (any p before || b && p (tool name callback))
    unfolding retry_tool
    retry_lem name callback (ok u) before s b h e =
        h ∙ (any-appended (ok u) (tool name callback) before ∙ ground (arith, e))
    retry_lem name callback (raise type_error) before s b h e =
        let step =
          any-appended (host.register_tool_handler name callback s).0 (tool name callback)
            (log s) in
        rw (host.log-register_tool_handler name callback s) (step ∙ ground (arith, e, h))
    retry_lem name callback (raise key_error) before s b h e = absurd (cc e)
    retry_lem name callback (raise value_error) before s b h e = absurd (cc e)
    retry_lem name callback (raise attribute_error) before s b h e = absurd (cc e)
    retry_lem name callback (raise replacement_error) before s b h e = absurd (cc e)
    retry_lem name callback (raise recursion_error) before s b h e = absurd (cc e)
    retry_lem name callback (raise os_error) before s b h e = absurd (cc e)
    retry_lem name callback (raise sqlite_error) before s b h e = absurd (cc e)

    tool_lem :
        (name : Text) (callback : Callback) (s : State) (b : Bool)
        → (try_register_tool host name callback s).0 ≡ ok b
        → any p (log (try_register_tool host name callback s).1)
          ≡ (any p (log s) || b && p (tool name callback))
    tool_lem name callback s b e = elim (Bool-cases host.has_register_tool) [
      | inl f ↦
          let same : try_register_tool host name callback s
              ≡ retry_tool host name callback (host.register_tool name callback s) =
            unfold try_register_tool in rw (f, try_register_tool) refl in
          rw same (
            retry_lem name callback (host.register_tool name callback s).0 (log s)
              (host.register_tool name callback s).1 b
              (ap (any p) (host.log-register_tool name callback s)) (rw same at e))
      | inr f ↦
          let same : try_register_tool host name callback s ≡ (ok false, s) =
            unfold try_register_tool in rw (f, try_register_tool) refl in
          let no : b ≡ false = cc (same, e) in rw (same, no) ground arith
    ]

    -- All that is registered behind the fetch tool, where `p` only looks at the hook on results.
    rest_lem :
        (config : JsonObject) (k : Counters) (fetch : Bool) (s : State)
        → p (
            hook (codes "structured_context_prune") (
              structured_context_prune
                (put (codes "tokenjuice_rescue_fetch_available") (scalar (bool fetch)) config)))
          ≡ false
        → ((callback : Callback) → p (middleware (codes "tool_request") callback) ≡ false)
        → p (tool (codes "tokenjuice_status") (status_tool (rescue_store_path config))) ≡ false
        → (register_rest host config k fetch s).0.0 ≡ ok tt
        → any p (log (register_rest host config k fetch s).1) ≡ (
            any p (log s)
            || p (hook (codes "transform_tool_result") (transform_of host fetch config)))
    rest_lem config k fetch s a b c e =
        let structured =
          put (codes "tokenjuice_rescue_fetch_available") (scalar (bool fetch)) config in
        let s1 = (try_register_structured_pruning_hook host structured s).1 in
        let l1 = hook_lem structured s a in
        let passref = try_register_passref_middleware host config k s1 in
        let l2 = passref_lem config k s1 b in
        let status =
          try_register_tool host (codes "tokenjuice_status")
            (status_tool (rescue_store_path config)) passref.1 in
        elim (Outcome-cases status.0) [
          | inl (x, f) ↦
              let same : (register_rest host config k fetch s).0.0 ≡ raise x =
                unfold register_rest in rw (f, register_rest) refl in
              absurd (cc (same, e))
          | inr (done, f) ↦
              let l3 =
                tool_lem (codes "tokenjuice_status") (status_tool (rescue_store_path config))
                  passref.1 done f in
              let name = codes "transform_tool_result" in
              let callback = transform_of host fetch config in
              let same : (register_rest host config k fetch s).0.0
                  ≡ (host.register_hook name callback status.1).0 =
                unfold register_rest in rw (f, register_rest) refl in
              let state : (register_rest host config k fetch s).1
                  ≡ (host.register_hook name callback status.1).1 =
                unfold register_rest in rw (f, register_rest) refl in
              let step =
                any-appended (host.register_hook name callback status.1).0 (hook name callback)
                  (log status.1) in
              let good : (host.register_hook name callback status.1).0 ≡ ok tt = cc (same, e) in
              rw (state, host.log-register_hook name callback status.1)
                (step ∙ rw good (ground (arith, l1, l2, l3, c)))
        ]

module _ (host : Host) where
  open host use {State, log}

  is_rescuing_lem :
      (name : Text) (fetch : Bool) (config : JsonObject)
      → is_rescuing (hook name (transform_of host fetch config)) ≡ fetch
  is_rescuing_lem name true config = refl
  is_rescuing_lem name false config = refl

  is_fetch_lem :
      (name : Text) (fetch : Bool) (config : JsonObject)
      → is_fetch (hook name (transform_of host fetch config)) ≡ false
  is_fetch_lem name true config = refl
  is_fetch_lem name false config = refl

  -- A registration that does not raise, with a host that nothing was registered with, registers the hook that lets
  -- results be rescued exactly if it registers the tool that fetches them.
  pub register-fetch :
      (raw loaded : JsonObject) (k : Counters) (s : State)
      → log s ≡ []
      → (register host raw loaded k s).0.0 ≡ ok tt
      → any is_rescuing (log (register host raw loaded k s).1)
        ≡ any is_fetch (log (register host raw loaded k s).1)
  register-fetch raw loaded k s fresh e =
      let config = plugin_config raw loaded in
      let named = try_register_named_middleware host (codes "llm_request") prune_llm_request s in
      let r1 = named_lem is_rescuing host (codes "llm_request") prune_llm_request s in
      let f1 = named_lem is_fetch host (codes "llm_request") prune_llm_request s in
      let fetch = try_register_tool host (codes "rescuer_fetch") (fetch_tool config) named.1 in
      elim (Outcome-cases fetch.0) [
        | inl (x, g) ↦
            let same : (register host raw loaded k s).0.0 ≡ raise x =
              unfold register in rw (g, register) refl in
            absurd (cc (same, e))
        | inr (b, g) ↦
            let same : register host raw loaded k s ≡ register_rest host config k b fetch.1 =
              unfold register in rw (g, register) refl in
            let ended : (register_rest host config k b fetch.1).0.0 ≡ ok tt = rw same at e in
            let r2 =
              tool_lem is_rescuing host (codes "rescuer_fetch") (fetch_tool config) named.1 b g in
            let f2 =
              tool_lem is_fetch host (codes "rescuer_fetch") (fetch_tool config) named.1 b g in
            let r3 = rest_lem is_rescuing host config k b fetch.1 refl (λ c. refl) refl ended in
            let f3 = rest_lem is_fetch host config k b fetch.1 refl (λ c. refl) refl ended in
            let none_yet : (p : Registration → Bool) → any p (log s) ≡ false =
              λ p. ap (any p) fresh ∙ unfold any in refl in
            let rescuing = is_rescuing_lem (codes "transform_tool_result") b config in
            let fetching = is_fetch_lem (codes "transform_tool_result") b config in
            rw same (
              ground (
                arith,
                r1,
                f1,
                r2,
                f2,
                r3,
                f3,
                none_yet is_rescuing,
                none_yet is_fetch,
                rescuing,
                fetching,
              ))
      ]
