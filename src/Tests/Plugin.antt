-- ===== src/Tests/Plugin.antt =====
-- The theorem on the registration applied to a host that takes tools only by position.
use tokenjuice_hermes.Common.{
  codes, ◌≡◌, refl, true, List, [], ◌∷◌, ok, raise, type_error, any, ◌++◌,
}
use tokenjuice_hermes.Json.{JsonObject, scalar, bool}
use tokenjuice_hermes.Observability.{reset_stats}
use tokenjuice_hermes.Plugin.{
  Registration, Host, middleware, hook, tool, register, register_rest,
  try_register_named_middleware, try_register_structured_pruning_hook,
  try_register_passref_middleware, try_register_tool, retry_tool, plugin_config,
  has_tokenjuice_config, is_structured_pruning_enabled,
}
use tokenjuice_hermes.Plugin.Registered.{is_fetch, is_rescuing, register-fetch}

abbrev host : Host
host = record {
  State = List Registration;
  log = λ s. s;
  has_register_middleware = true;
  has_register_hook = true;
  has_register_tool = true;
  register_middleware = λ name callback s. (ok tt, s ++ middleware name callback ∷ []);
  register_hook = λ name callback s. (ok tt, s ++ hook name callback ∷ []);
  register_tool = λ name callback s. (raise type_error, s);
  register_tool_handler = λ name callback s. (ok tt, s ++ tool name callback ∷ []);
  log-register_middleware = λ name callback s. refl;
  log-register_hook = λ name callback s. refl;
  log-register_tool = λ name callback s. refl;
  log-register_tool_handler = λ name callback s. refl;
}

abbrev raw_config : JsonObject
raw_config = (codes "tokenjuice_prompt_pruning_enabled", scalar (bool true)) ∷ []

registered_lem : (register host raw_config [] reset_stats []).0.0 ≡ ok tt
unfolding register register_rest try_register_named_middleware try_register_structured_pruning_hook
    try_register_passref_middleware try_register_tool retry_tool plugin_config has_tokenjuice_config
    is_structured_pruning_enabled
registered_lem = refl

register-fetch_example :
    any is_rescuing (register host raw_config [] reset_stats []).1
    ≡ any is_fetch (register host raw_config [] reset_stats []).1
register-fetch_example = register-fetch host raw_config [] reset_stats [] refl registered_lem
