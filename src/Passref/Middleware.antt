-- ===== src/Passref/Middleware.antt =====
-- passref.py: `_tool_request_impl`, which rewrites the arguments of a tool call or leaves them.
use tokenjuice_hermes.BlobStore.{BlobStore}
use tokenjuice_hermes.Common.{
  Text, codes, ◌||◌, not, Option, none, some, ◌++◌, Outcome, ok, raise, is_empty, if◌then◌else◌,
}
use tokenjuice_hermes.Json.{JsonValue, JsonObject, Fields, end, field, scalar, object, str}
use tokenjuice_hermes.Observability.{
  Counters, record_passref_budget_exceeded, record_passref_denial, record_passref_enabled,
  record_passref_expansion, record_passref_truncation,
}
use tokenjuice_hermes.Passref.Config.{PassrefConfig, from_mapping, is_hard_exempt, tool_allowed}
use tokenjuice_hermes.Passref.Expand.{Budget, new_budget, has_handle, replace_handles, expand_value}

unfoldable pub tool_denial_marker : Text → Text
tool_denial_marker tool_name =
    codes "[tokenjuice-hermes: tool '"
    ++ (tool_name ++ codes "' is not eligible for passref expansion]")

abbrev pub session_required_marker : Text
session_required_marker = codes "[tokenjuice-hermes: passref requires a session ID]"

-- `{"args": …}`
abbrev pub args_result : JsonValue → JsonValue
args_result args = object (field (codes "args") args end)

unfoldable pub maybe_deny_args : Fields → Text → Option JsonValue
unfolding has_handle replace_handles
maybe_deny_args args marker =
    if not (has_handle (object args))
    then none
    else some (args_result (replace_handles marker (object args)))

-- The counters after an expansion that changed something.
unfoldable pub record_expansion : Budget → Counters → Counters
unfolding record_passref_expansion record_passref_truncation record_passref_budget_exceeded
record_expansion b k =
    let k1 = record_passref_expansion b.total k in
    let k2 = if b.truncated then record_passref_truncation k1 else k1 in
    if b.budget_exceeded then record_passref_budget_exceeded k2 else k2

-- What comes after `_expand_value`.
unfoldable pub after_expansion :
    Counters → Outcome (JsonValue × Budget) → Outcome (Option JsonValue) × Counters
unfolding record_expansion
after_expansion k (raise e) = (raise e, k)
after_expansion k (ok (expanded, b)) =
    if not b.changed then (ok none, k) else (ok (some (args_result expanded)), record_expansion b k)

-- `make_passref_middleware`: the configuration, and the counters with it
unfoldable pub make_passref_middleware : JsonObject → Counters → PassrefConfig × Counters
unfolding from_mapping record_passref_enabled
make_passref_middleware config k =
    (from_mapping config, record_passref_enabled (from_mapping config).enabled k)

module _ (store : BlobStore) where
  open store use {State}

  -- `get_store()` gives the store's state, or none
  unfoldable pub expand_with_store :
      Option State
      → PassrefConfig
      → Fields
      → Text
      → Counters
      → Outcome (Option JsonValue) × Counters
  unfolding expand_value after_expansion
  expand_with_store none cfg args session_id k = (ok none, k)
  expand_with_store (some s) cfg args session_id k =
      after_expansion k (expand_value store cfg session_id s (object args) new_budget)

  -- An allowed tool's call needs a session.
  unfoldable pub with_session :
      Option State
      → PassrefConfig
      → Fields
      → JsonValue
      → Counters
      → Outcome (Option JsonValue) × Counters
  unfolding maybe_deny_args expand_with_store record_passref_denial
  with_session s cfg args (scalar (str session_id)) k =
      if is_empty session_id
      then (ok (maybe_deny_args args session_required_marker), record_passref_denial k)
      else expand_with_store s cfg args session_id k
  with_session s cfg args session_id k =
      (ok (maybe_deny_args args session_required_marker), record_passref_denial k)

  -- `_tool_request_impl`
  unfoldable pub tool_request :
      Option State
      → PassrefConfig
      → JsonValue
      → JsonValue
      → JsonValue
      → Counters
      → Outcome (Option JsonValue) × Counters
  unfolding is_hard_exempt tool_allowed maybe_deny_args tool_denial_marker with_session
      record_passref_denial
  tool_request s cfg (scalar (str tool_name)) (object args) session_id k =
      if not cfg.enabled || is_hard_exempt tool_name
      then (ok none, k)
      else if not (tool_allowed tool_name cfg)
      then (ok (maybe_deny_args args (tool_denial_marker tool_name)), record_passref_denial k)
      else with_session s cfg args session_id k
  tool_request s cfg tool_name args session_id k = (ok none, k)
