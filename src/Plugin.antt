-- ===== src/Plugin.antt =====
-- tokenjuice_hermes/plugin.py: `register`, which registers hooks, middleware and tools with the host. The host is a
-- parameter; a callback is data that says which function it is and what it closes over.
pub mod Registered
use tokenjuice_hermes.Common.{
  Text, codes, mem_text, lower, starts_with, ◌≡◌, Bool, true, false, ◌&&◌, ◌||◌, not, Option, none,
  some, List, [], ◌∷◌, ◌++◌, Outcome, ok, raise, type_error, get, put, has_key, any, is_empty,
  if◌then◌else◌,
}
use tokenjuice_hermes.Json.{
  JsonValue, JsonScalar, JsonObject, FlatJsonObject, scalar, bool, str, get_value,
}
use tokenjuice_hermes.Observability.{Counters}
use tokenjuice_hermes.Passref.Config.{PassrefConfig}
use tokenjuice_hermes.Passref.Middleware.{make_passref_middleware}

-- The functions that are registered.
pub data Callback : Type 0 where
  prune_llm_request : Callback
  passref_middleware : Text → PassrefConfig → Callback
  structured_context_prune : JsonObject → Callback
  merged_transform : FlatJsonObject → Callback
  plain_transform : Callback
  fetch_tool : JsonObject → Callback
  status_tool : Text → Callback

-- What was registered with the host.
pub data Registration : Type 0 where
  middleware hook tool : Text → Callback → Registration

abbrev pub appended : Outcome {0} Unit → Registration → List Registration → List Registration
appended (ok u) r log = log ++ r ∷ []
appended (raise e) r log = log

-- What `register` calls of the host. Each call returns or raises, and what does not raise is registered.
pub record Host : Type 1 where
  pub State : Type 0
  pub log : State → List Registration
  -- `callable(getattr(ctx, …, None))`
  pub has_register_middleware : Bool
  pub has_register_hook : Bool
  pub has_register_tool : Bool
  pub register_middleware : Text → Callback → State → Outcome {0} Unit × State
  pub register_hook : Text → Callback → State → Outcome {0} Unit × State
  -- `register_tool(name=…, toolset=…, schema=…, handler=…, description=…)`
  pub register_tool : Text → Callback → State → Outcome {0} Unit × State
  -- `register_tool(name, handler)`
  pub register_tool_handler : Text → Callback → State → Outcome {0} Unit × State
  pub log-register_middleware :
      (name : Text) (callback : Callback) (s : State)
      → log (register_middleware name callback s).1
        ≡ appended (register_middleware name callback s).0 (middleware name callback) (log s)
  pub log-register_hook :
      (name : Text) (callback : Callback) (s : State)
      → log (register_hook name callback s).1
        ≡ appended (register_hook name callback s).0 (hook name callback) (log s)
  pub log-register_tool :
      (name : Text) (callback : Callback) (s : State)
      → log (register_tool name callback s).1
        ≡ appended (register_tool name callback s).0 (tool name callback) (log s)
  pub log-register_tool_handler :
      (name : Text) (callback : Callback) (s : State)
      → log (register_tool_handler name callback s).1
        ≡ appended (register_tool_handler name callback s).0 (tool name callback) (log s)

-- `_is_structured_pruning_enabled`
unfoldable pub is_structured_pruning_enabled : JsonObject → Bool
unfolding get_value lower mem_text
is_structured_pruning_enabled config =
    elim (get_value (codes "tokenjuice_prompt_pruning_enabled") config) [
      | scalar (bool b) ↦ b
      | scalar (str s) ↦
          mem_text (lower s) (codes "true" ∷ codes "yes" ∷ codes "on" ∷ codes "1" ∷ [])
      | v ↦ false
    ]

-- `_flat_json_config`
unfoldable pub flat_json_config : JsonObject → FlatJsonObject
flat_json_config [] = []
flat_json_config ((key, scalar v) ∷ config) = (key, v) ∷ flat_json_config config
flat_json_config ((key, v) ∷ config) = flat_json_config config

-- `_has_tokenjuice_config`
unfoldable pub has_tokenjuice_config : JsonObject → Bool
unfolding any starts_with
has_tokenjuice_config config = any (λ item. starts_with item.0 (codes "tokenjuice_")) config

-- The path where no other is given.
abbrev pub rescue_store_path_default : Text
rescue_store_path_default = codes "/opt/data/tokenjuice-hermes/rescue-blobs"

-- `_rescue_store_path`
unfoldable pub rescue_store_path : JsonObject → Text
unfolding get_value
rescue_store_path config = elim (get_value (codes "tokenjuice_rescue_store_path") config) [
  | scalar (str path) ↦ if is_empty path then rescue_store_path_default else path
  | v ↦ rescue_store_path_default
]

-- The configuration: that of the context, or the one in the file, where the former says nothing of this plugin.
unfoldable pub plugin_config : JsonObject → JsonObject → JsonObject
unfolding has_tokenjuice_config
plugin_config raw loaded =
    let config = if is_empty raw then loaded else raw in
    if has_tokenjuice_config config then config else loaded

-- `{**first, **second}`
unfoldable pub merge {ℓ} : {V : Type ℓ} → List (Text × V) → List (Text × V) → List (Text × V)
unfolding put
merge first [] = first
merge first ((key, v) ∷ second) = merge (put key v first) second

-- The arguments that `_transform` passes on to `transform_tool_result`.
unfoldable pub transform_kwargs : FlatJsonObject → FlatJsonObject → FlatJsonObject
unfolding merge has_key put
transform_kwargs hook_config kwargs =
    let merged = merge hook_config kwargs in
    if has_key (codes "tokenjuice_rescue_fetch_available") merged
    then merged
    else put (codes "tokenjuice_rescue_fetch_available") (bool true) merged

-- The options that `_structured_context_prune` passes on to `prune_structured_context`.
unfoldable pub structured_kwargs : JsonObject → JsonObject → FlatJsonObject
unfolding merge flat_json_config
structured_kwargs config kwargs = flat_json_config (merge config kwargs)

abbrev succeeded : Outcome {0} Unit → Bool
succeeded (ok u) = true
succeeded (raise e) = false

module _ (host : Host) where
  open host use {
    State, has_register_middleware, has_register_hook, has_register_tool, register_middleware,
    register_hook, register_tool, register_tool_handler,
  }

  -- `_try_register_named_middleware`
  unfoldable pub try_register_named_middleware : Text → Callback → State → Bool × State
  try_register_named_middleware name callback s =
      if has_register_middleware
      then (
        succeeded (register_middleware name callback s).0,
        (register_middleware name callback s).1,
      )
      else (false, s)

  -- `_try_register_structured_pruning_hook`
  unfoldable pub try_register_structured_pruning_hook : JsonObject → State → Bool × State
  try_register_structured_pruning_hook config s =
      let name = codes "structured_context_prune" in
      if is_structured_pruning_enabled config && has_register_hook
      then (
        succeeded (register_hook name (structured_context_prune config) s).0,
        (register_hook name (structured_context_prune config) s).1,
      )
      else (false, s)

  -- `_try_register_passref_middleware`, with the counters
  unfoldable pub try_register_passref_middleware :
      JsonObject → Counters → State → (Bool × Counters) × State
  try_register_passref_middleware config k s =
      let (cfg, k') = make_passref_middleware config k in
      let (done, s') =
        try_register_named_middleware (codes "tool_request")
          (passref_middleware (rescue_store_path config) cfg) s in
      if has_register_middleware then ((done, k'), s') else ((false, k), s)

  -- The second attempt of `_try_register_tool`, behind a `TypeError`; another exception goes through.
  unfoldable pub retry_tool : Text → Callback → Outcome {0} Unit × State → Outcome Bool × State
  retry_tool name callback (ok u, s) = (ok true, s)
  retry_tool name callback (raise type_error, s) = (
    ok (succeeded (register_tool_handler name callback s).0),
    (register_tool_handler name callback s).1,
  )
  retry_tool name callback (raise e, s) = (raise e, s)

  -- `_try_register_tool`
  unfoldable pub try_register_tool : Text → Callback → State → Outcome Bool × State
  try_register_tool name callback s =
      if has_register_tool
      then retry_tool name callback (register_tool name callback s)
      else (ok false, s)

  -- The hook on tool results, and the fetch tool's part in it.
  abbrev pub transform_of : Bool → JsonObject → Callback
  transform_of true config = merged_transform (flat_json_config config)
  transform_of false config = plain_transform

  -- `register` from the registration of the fetch tool on, where that did not raise
  unfoldable pub register_rest :
      JsonObject → Counters → Bool → State → (Outcome {0} Unit × Counters) × State
  register_rest config k fetch_available s =
      let available = codes "tokenjuice_rescue_fetch_available" in
      let structured = put available (scalar (bool fetch_available)) config in
      let s1 = (try_register_structured_pruning_hook structured s).1 in
      let passref = try_register_passref_middleware config k s1 in
      let status =
        try_register_tool (codes "tokenjuice_status") (status_tool (rescue_store_path config))
          passref.1 in
      elim status.0 [
        | raise e ↦ ((raise e, passref.0.1), status.1)
        | ok b ↦
            let last =
              register_hook (codes "transform_tool_result") (transform_of fetch_available config)
                status.1 in
            ((last.0, passref.0.1), last.1)
      ]

  -- `register`, with what the file says where it is read
  unfoldable pub register :
      JsonObject → JsonObject → Counters → State → (Outcome {0} Unit × Counters) × State
  register raw loaded k s =
      let config = plugin_config raw loaded in
      let s1 = (try_register_named_middleware (codes "llm_request") prune_llm_request s).1 in
      let fetch = try_register_tool (codes "rescuer_fetch") (fetch_tool config) s1 in
      elim fetch.0 [
        | raise e ↦ ((raise e, k), fetch.1)
        | ok fetch_available ↦ register_rest config k fetch_available fetch.1
      ]
