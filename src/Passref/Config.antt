-- ===== src/Passref/Config.antt =====
-- passref.py: `_PassrefConfig` and which tools may receive an expansion.
use tokenjuice_hermes.Common.{
  Text, codes, ℕ, Bool, false, List, [], ◌∷◌, any, lower, contains_text, mem_text, split_csv,
  is_empty, clamp_zero, if◌then◌else◌,
}
use tokenjuice_hermes.Json.{
  JsonValue, JsonObject, Items, nil, cons, scalar, array, bool, int, str, get_value,
}

abbrev pub default_max_chars : ℕ
default_max_chars = 500000

abbrev pub default_total_max_chars : ℕ
default_total_max_chars = 2000000

abbrev pub hard_exempt_tools : List Text
hard_exempt_tools = codes "read_file" ∷ codes "diagnostics" ∷ []

abbrev pub sink_tools : List Text
sink_tools =
    codes "bash"
    ∷ codes "curl"
    ∷ codes "edit_file"
    ∷ codes "exec"
    ∷ codes "execute_code"
    ∷ codes "file_write"
    ∷ codes "fs_write"
    ∷ codes "http_post"
    ∷ codes "http_request"
    ∷ codes "run_command"
    ∷ codes "run_shell"
    ∷ codes "shell"
    ∷ codes "subprocess"
    ∷ codes "terminal"
    ∷ codes "upload"
    ∷ codes "write_file"
    ∷ []

pub record PassrefConfig : Type 0 where
  pub allowed_tools : List Text
  pub enabled : Bool
  pub max_chars : ℕ
  pub total_max_chars : ℕ

-- `[item for item in items if isinstance(item, str)]`
texts_of : Items → List Text
texts_of nil = []
texts_of (cons (scalar (str s)) vs) = s ∷ texts_of vs
texts_of (cons v vs) = texts_of vs

unfoldable pub parse_allowed_tools : JsonValue → List Text
unfolding split_csv texts_of
parse_allowed_tools (scalar (str s)) = split_csv s
parse_allowed_tools (array vs) = texts_of vs
parse_allowed_tools v = []

abbrev pub parse_positive_int : JsonValue → ℕ → ℕ
parse_positive_int (scalar (int i)) default = clamp_zero i
parse_positive_int v default = default

abbrev pub is_on : JsonValue → Bool
is_on (scalar (bool b)) = b
is_on v = false

-- `_PassrefConfig.from_mapping`: an option that is missing and one that is `None` are alike.
unfoldable pub from_mapping : JsonObject → PassrefConfig
unfolding parse_allowed_tools get_value
from_mapping cfg = record {
  allowed_tools = parse_allowed_tools (get_value (codes "tokenjuice_passref_allowed_tools") cfg);
  enabled = is_on (get_value (codes "tokenjuice_passref_enabled") cfg);
  max_chars =
      parse_positive_int (get_value (codes "tokenjuice_passref_max_chars") cfg) default_max_chars;
  total_max_chars =
      parse_positive_int (get_value (codes "tokenjuice_passref_total_max_chars") cfg)
        default_total_max_chars;
}

unfoldable pub is_hard_exempt : Text → Bool
unfolding lower mem_text
is_hard_exempt tool_name = mem_text (lower tool_name) hard_exempt_tools

unfoldable pub is_sink : Text → Bool
unfolding lower contains_text any
is_sink tool_name = any (λ sink. contains_text sink (lower tool_name)) sink_tools

-- `tool_name in cfg.allowed_tools` is false for an empty set.
unfoldable pub tool_allowed : Text → PassrefConfig → Bool
unfolding is_sink mem_text
tool_allowed tool_name cfg =
    if is_sink tool_name
    then false
    else if is_empty cfg.allowed_tools
    then false
    else mem_text tool_name cfg.allowed_tools
