-- ===== src/Lib.antt =====
-- tokenjuice-hermes shrinks what an agent host (Hermes) sends to a language model: it compacts
-- tool results, moves large ones into a blob store that they can be fetched back from, and prunes
-- whole contributions of a prompt when the context window fills up (structured pruning). This
-- library models the structured pruning, the pruning of requests, the compaction, the rescue of
-- results, the passing of results by reference, the blob store, the counters and the JSON values
-- that the parts exchange.
--
-- The parts, under tokenjuice_hermes/ of the repository:
--   Common          Python's texts, dictionaries, integers, results and sorting, with their lemmas
--   Json            json_types.py: values, flat objects, error payloads; `JsonParser` (Parser), that it ends
--                   (Ends) and that it reads what a writer (Printer) writes (Numbers, Steps, RoundTrip)
--   BlobStore       what clients rely on of rescue_store.py: an interface with one law
--   Store           the blob store: rescue_handles.py and `safe_sid` of rescue_index.py (Handles), the rows
--                   of rescue_sqlite_types.py (Tables), rescue_sqlite.py: `OwnershipStore` (Ownership),
--                   rescue_sqlite_maintenance.py (Maintenance), rescue_store.py: `BlobStore` (Blobs);
--                   Authorization, Redeem, Fetch and Sweep have the theorems, and
--                   Redeem.sqlite_store is the interface above filled with the operations;
--                   rescue_sqlite_migration.py and `read_idx_file` of rescue_index.py (Legacy), with
--                   theorems in Migrated and Completed; rescue_sweep.py (LegacySweep)
--   Passref         passref.py: the pattern and its substitution (Pattern), the options (Config), the
--                   expansion under a budget (Expand) and `_tool_request_impl` (Middleware), over the
--                   interface of the store
--   Rescue          rescue_transform.py: `parse_rescue_options` (Options) and `transform_rescue_result`
--                   (Transform), over the interface of the store; rescue_excerpt.py: `build_excerpt`
--                   (Excerpt); rescue_grep.py: `grep_text` (Grep); rescue_fetch.py: `rescuer_fetch` (Fetch);
--                   Recovered, Total, Preview and Fetched have further theorems
--   Requests        request_pruning.py: `prune_llm_request`; Cuts and Messages have the theorems
--   Observability   observability.py: the counters and the functions that record; the status tool (Status),
--                   with a theorem in Redacted
--   Compaction      compaction_options.py (Options) and compaction.py: the terminal path (Terminal) and
--                   the hook `transform_tool_result` (Transform), over any rescue of a result, and over
--                   that of rescue_transform.py (Stored); Lines and Fields have further theorems
--   Plugin          plugin.py: `register`; Registered has the theorem on it
--   HermesConfig    hermes_config.py: the reader of config.yaml, that it ends (Ends) and that it reads what a
--                   document of nested blocks says (Blocks)
--   Pruning.Types   structured_pruning_types.py
--   Pruning.Config  structured_pruning_config.py: `parse_config`
--   Pruning.Labels, Pruning.Parse, Pruning.Groups
--                   structured_pruning_groups.py: `parse_contributions`, `build_groups`
--   Pruning.Selection  structured_pruning_selection.py: `select_pruned_groups`
--   Pruning.Rescue  structured_pruning_rescue.py: `apply_pruned_groups`
--   Pruning.Apply   structured_pruning_apply.py: `apply_threshold_pruning`
--   Pruning.Provider  structured_pruning_provider.py
--   Pruning.Pressure, Pruning.Context
--                   structured_pruning.py: `_prepare_prune`, `prune_structured_context`
--   Pruning.Memo    structured_pruning_memo.py: `StructuredPruningMemo.reuse_or_compute`
--
-- A call of `prune_structured_context` parses its options (Config) and its contributions (Parse),
-- finds the pressure, the threshold and the target (Pressure), gathers the contributions into
-- groups with their protections (Groups), selects groups (Selection), drops them or replaces their
-- diagnostics by excerpts (Rescue, with a second attempt in Apply), and builds the view that the
-- provider gets (Provider). It passes on the counters of the process and the state of the blob
-- store.
--
-- How the code is written here. A `str` is the list of its code points, a `dict` an association
-- list in insertion order, a set a list. A function that returns `None` or raises gives an
-- `Option` or an `Outcome`; a missing key raises `key_error`. Numbers are unbounded; where the
-- source may meet a negative one it is a ℤ, and `max(0, a - b)` is the subtraction of ℕ. Loops are
-- structural recursion; the digits of `str(n)` take fuel, n + 1, and `decimal-number_text` is
-- about that; the parser of JSON takes 2 * n + 1 for a text of n characters, and
-- `parse_value-Ends` says that it is enough; the reader of config.yaml takes n + 1 for n entries,
-- and `load_yaml_all` of HermesConfig.Ends is about that. A list that the source sorts in place is
-- sorted by a stable insertion sort. `int(a * r / 100)`, which the source computes in floating
-- point, is the exact quotient, as it is for products below 2 ^ 53. `int(text)` reads ASCII
-- digits, and `lower` changes the letters A to Z.
--
-- The store. A state is the rows of the three tables with the files of the blob directory; each
-- transaction, with its reads and writes of files, is one step. The clock is an argument, and
-- times are whole seconds. SHA-256, the UTF-8 codec and `str.isalnum` are the fields of `Runtime`,
-- with what is relied on of them: decoding inverts encoding, and a digest starts with twelve
-- hexadecimal digits. That no two byte strings have one digest is a hypothesis where it is needed.
--
-- What is not modelled. Of the store: errors of SQLite and of the file system with the retries on
-- a locked database, and the schema's creation. The migration of the legacy indexes is a step of
-- its own; an opening that finds the marker does nothing else. The json library and Python's
-- conversions are `LegacyRuntime` there. Where a component only calls the JSON parser, it is a
-- parameter (`parse_json`), and Json.Parser is one that it can be; what that parser asks of Python
-- about digits, `int` and `float` is `NumberRuntime`, and a nesting too deep for the stack does
-- not raise there. The zero test of a float literal (`is_zero_float`), the `json` library with
-- Python's `repr` and `str` (`JsonRuntime`), the length of `str(request)`, whether a path exists,
-- and the fingerprint of a request in the memo, whose result type is a parameter too, are
-- parameters. The rescue takes any `build_excerpt`, which may raise what nothing catches there, as
-- `json.loads` does on a text that is nested too deep; the structured pruning, the rescue under
-- the hook of the compaction (Stored), and Rescue.Excerpt, which models the function, leave that
-- error out. The hook of the compaction takes any rescue of a result, with its options and its
-- state, and the JSON writer as parameters. The search takes `str.lower`, the text of its timeout
-- and whether the time is over before a line. The host is a record of what `register` calls of it.
-- The outline of a text has no model.
pub mod Common
pub mod Json
pub mod BlobStore
pub mod Observability
pub mod Store
pub mod Passref
pub mod Rescue
pub mod Requests
pub mod Compaction
pub mod Pruning
pub mod HermesConfig
pub mod Plugin
mod Tests
