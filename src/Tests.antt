-- ===== src/Tests.antt =====
-- The theorems applied to small concrete inputs: a store, a conversation with one large terminal
-- output, and an atomic group with a diagnostic.
mod Store
mod Passref
mod Rescue
mod Requests
mod Json
mod Plugin
use Prim.Native.String.{String}
use mathlib.Core.List.{Memᴰ}
use tokenjuice_hermes.BlobStore.{BlobStore}
use tokenjuice_hermes.Common.{
  splitlines, take, get, ◌<◌, ◌++◌, Text, codes, text_eq, text_eq_iff, put, starts_with, split_csv,
  join, mem_text, Dict, leb, sum_by, ℕ, ◌≡◌, ◌≢◌, refl, Bool, true, false, ◌&&◌, ◌||◌, not, Option,
  none, some, List, [], ◌∷◌, map, Outcome, ok, pos, if◌then◌else◌, arith, keep, All, ◌≤◌, ◌+◌,
  length, ◌⊎◌,
}
use mathlib.Core.List.{Permᴰ}
use tokenjuice_hermes.Compaction.Fields.{compact_terminal_result_exact}
use tokenjuice_hermes.Compaction.Lines.{compact_text_keeps}
use tokenjuice_hermes.Compaction.Options.{TokenjuiceOptions, head_tail}
use tokenjuice_hermes.Compaction.Terminal.{
  CompactText, compact_text, marker, field_meta, compact_terminal_result, copy, tokenjuice_meta,
  is_embedded_diagnostic_field,
}
use tokenjuice_hermes.Compaction.Stored.{stored_transform, stored_transform-unavailable}
use tokenjuice_hermes.Compaction.Transform.{
  transform_tool_result, transform_tool_result-IsCounted, events, rewritten,
}
use tokenjuice_hermes.Pruning.Config.Valid.{parse_config_bounds}
use tokenjuice_hermes.Json.{
  object, get_scalar, is_error_payload, fields_of, FlatJsonObject, is_nonzero_number, get_value,
  JsonValue, JsonObject, scalar, null, bool, int, str,
}
use tokenjuice_hermes.Observability.{reset_stats}
use tokenjuice_hermes.Pruning.Types.{
  protected_classes, Contribution, ContributionInternal, Group, PruningConfig, hard,
  StructuredPruningResult,
}
use tokenjuice_hermes.Pruning.Context.Protected.{
  prune_structured_context-retains, prune_structured_context-saves,
}
use tokenjuice_hermes.Pruning.Context.{prune_structured_context, prepare_prune}
use tokenjuice_hermes.Pruning.Groups.Partition.{build_groups-Permᴰ}
use tokenjuice_hermes.Pruning.Groups.Protection.{is_protected, HasDistinctIds}
use tokenjuice_hermes.Pruning.Groups.{
  build_groups, min_index, is_eligible, is_disposable_member, is_ttl_protected,
}
use tokenjuice_hermes.Pruning.Config.{
  parse_config, parse_bool, parse_positive_int, parse_ratio, parse_classes,
}
use tokenjuice_hermes.Pruning.Memo.Bounds.{
  IsBounded, reuse_or_compute-IsBounded, reuse_or_compute_again,
}
use tokenjuice_hermes.Pruning.Memo.{StructuredPruningMemo, reuse_or_compute}
use tokenjuice_hermes.Pruning.Pressure.{Prepared}
use tokenjuice_hermes.Pruning.Rescue.Applied.{apply_pruned_groups_balance}
use tokenjuice_hermes.Pruning.Rescue.Counts.{tokens, is_selected}
use tokenjuice_hermes.Pruning.Rescue.Groups.{apply_pruned_groups_whole, apply_pruned_groups_drops}
use tokenjuice_hermes.Pruning.Rescue.{
  AppliedPruning, pruned_by_id, content_of, with_content, apply_pruned_groups, members_of,
  rescue_replacements, in_rescued_group, rescued_group_ids, is_rescue_backed,
}
use tokenjuice_hermes.Pruning.Selection.Candidates.{IsPrunable}
use tokenjuice_hermes.Pruning.Selection.Optimal.{total_savings, optimal_subset_latest}
use tokenjuice_hermes.Pruning.Selection.Route.{
  select_pruned_groups-IsPrunable, select_pruned_groups-reaches, select_pruned_groups_latest,
}
use tokenjuice_hermes.Pruning.Selection.{optimal_subset, select_pruned_groups, candidate_groups}

-- A store that keeps everything: the handle of a content is the content behind an `h`.
abbrev Stored : Type 0
Stored = List (Text × Text)

abbrev handle_of : Text → Text
handle_of content = b'h' ∷ content

abbrev redeem : Text → Stored → Option Text
redeem handle [] = none
redeem handle ((session, content) ∷ s) =
    if text_eq (handle_of content) handle then some content else redeem handle s

abbrev references : Text → Text → Stored → Bool
references handle session [] = false
references handle session ((owner, content) ∷ s) =
    text_eq (handle_of content) handle && text_eq owner session || references handle session s

redeem-put :
    (content tool session handle : Text) (s s' : Stored)
    → ◌≡◌ {A = Outcome Text × Stored}
        (ok (handle_of content), (session, content) ∷ s)
        (ok handle, s')
    → handle ≢ []
    → (◌≡◌ {A = Outcome Bool} (ok (references handle session s')) (ok true))
      × (redeem handle s' ≡ some content)
redeem-put content tool session handle s s' e h =
    let same = text_eq_iff (handle_of content) (handle_of content) in
    let mine = text_eq_iff session session in ground (arith, same, mine)

abbrev store : BlobStore
store = record {
  State = Stored;
  put = λ content tool session s. (ok (handle_of content), (session, content) ∷ s);
  blob_text = redeem;
  has_blob = λ handle s. elim (redeem handle s) [ none ↦ false | some t ↦ true ];
  session_references = λ handle session s. ok (references handle session s);
  put_redeems = redeem-put;
}

abbrev excerpt : Text → Text → Text
excerpt content handle = codes "rescued"

abbrev no_float : Text → Bool
no_float literal = false

abbrev no_json : Text → Option JsonValue
no_json text = none

-- A contribution as Hermes passes it.
abbrev raw : Text → Text → Text → Text → Text → ℕ → Option Text → Contribution
raw id kind class_ policy content tokens atomic =
    (codes "id", scalar (str id))
    ∷ (codes "kind", scalar (str kind))
    ∷ (codes "provenance", scalar (str (codes "host")))
    ∷ (codes "class", scalar (str class_))
    ∷ (codes "stability", scalar (str (codes "turn")))
    ∷ (codes "content_hash", scalar (str id))
    ∷ (codes "cache_scope", scalar (str (codes "none")))
    ∷ (codes "prune_policy", scalar (str policy))
    ∷ (codes "token_estimate", scalar (int (pos tokens)))
    ∷ (codes "char_count", scalar (int (pos (length content))))
    ∷ (codes "content", scalar (str content))
    ∷ (codes "atomic_group_id", elim atomic [ none ↦ scalar null | some key ↦ scalar (str key) ])
    ∷ []

abbrev parsed : Text → Text → Text → Text → Text → ℕ → Option Text → ℕ → ContributionInternal
parsed id kind class_ policy content tokens atomic index = record {
  id = id;
  kind = kind;
  provenance = codes "host";
  class_ = class_;
  stability = codes "turn";
  content_hash = id;
  cache_scope = codes "none";
  token_estimate = tokens;
  char_count = length content;
  atomic_group_id = atomic;
  prune_policy = policy;
  protected_reason = scalar (str []);
  created_at_epoch_ms = none;
  original_index = index;
  original = raw id kind class_ policy content tokens atomic;
}

abbrev question : ContributionInternal
question =
    parsed (codes "q") (codes "message") (codes "user_message") (codes "never") (codes "why?") 10
      none 0

abbrev output : ContributionInternal
output =
    parsed (codes "o") (codes "tool_interaction") (codes "terminal_tool_output")
      (codes "hard_clear_allowed") (codes "log") 900 none 1

abbrev answer : ContributionInternal
answer =
    parsed (codes "a") (codes "message") (codes "assistant_message") (codes "never") (codes "so") 20
      none 2

abbrev conversation : List ContributionInternal
conversation = question ∷ output ∷ answer ∷ []

abbrev contributions : List Contribution
contributions = map (λ c. c.original) conversation

abbrev context : JsonObject
context =
    (codes "tokenjuice_prompt_pruning_enabled", scalar (bool true))
    ∷ (codes "tokenjuice_prompt_pruning_protect_recent_tool_interactions", scalar (int (pos 0)))
    ∷ (codes "session_id", scalar (str (codes "s")))
    ∷ (codes "tokenjuice_rescue_fetch_available", scalar (bool true))
    ∷ []

abbrev config : PruningConfig
config = record {
  enabled = true;
  threshold_tokens = 1000;
  trigger_ratio = 80;
  target_ratio = 75;
  soft_target_ratio = 75;
  hard_target_ratio = 75;
  min_saved_tokens = 256;
  cache_ttl_seconds = 3600;
  protect_recent_messages = 8;
  protect_recent_tool_interactions = 0;
  classes = codes "terminal_tool_output" ∷ codes "diagnostic" ∷ [];
  accounting_enabled = true;
}

-- An atomic group: a diagnostic, and the output that belongs to it.
abbrev diagnostic : ContributionInternal
diagnostic =
    parsed (codes "d") (codes "tool_interaction") (codes "diagnostic") (codes "soft_trim")
      (codes "a long diagnostic text") 300 (some (codes "g")) 3

abbrev companion : ContributionInternal
companion =
    parsed (codes "e") (codes "tool_interaction") (codes "terminal_tool_output")
      (codes "hard_clear_allowed") (codes "log") 400 (some (codes "g")) 4

abbrev group_of : ℕ → ℕ → List ContributionInternal → Group
group_of index savings members = record {
  index = index;
  savings = savings;
  contributions = members;
  has_disposable = true;
  soft_allowed = false;
  hard_allowed = true;
  class_protected = false;
  ttl_protected = false;
  recent_message_protected = false;
  recent_tool_protected = false;
  oldest_created_at_ms = none;
}

-- The call on the conversation.
abbrev prepared : Prepared
prepared = record {
  parsed_contributions = conversation;
  config = config;
  route = hard;
  target_tokens = 750;
  threshold = 1000;
  pressure = 1200;
}

abbrev message : String → Text → JsonObject
message role content =
    (codes "role", scalar (str (codes role))) ∷ (codes "content", scalar (str content)) ∷ []

abbrev view : StructuredPruningResult
view = record {
  effective_contributions = question.original ∷ answer.original ∷ [];
  effective_messages = message "user" (codes "why?") ∷ message "assistant" (codes "so") ∷ [];
  effective_system_prompt = [];
  effective_tools = none;
  accounting = record {
    saved_tokens = 900;
    pruned_count = 1;
    pruned_groups = 1;
    attempted_count = 1;
    rescued_count = 0;
    insufficient_eligible_savings = 0;
  };
}

prepared_lem :
    (prepare_prune contributions (some (pos 1200)) (some (pos 1000)) context reset_stats).0
    ≡ ok (some prepared)
unfolding prepare_prune parse_bool get_value text_eq parse_positive_int parse_ratio parse_classes
    split_csv
prepared_lem = refl

pruned_lem :
    (prune_structured_context store excerpt no_float no_json contributions
      (some (pos 1200))
      (some (pos 1000))
      context
      reset_stats
      []).0
    ≡ some view
unfolding prune_structured_context parse_bool get_value text_eq parse_positive_int parse_ratio
    parse_classes split_csv protected_classes min_index is_eligible is_disposable_member
    is_ttl_protected join is_nonzero_number
pruned_lem = refl

conversation-HasDistinctIds : HasDistinctIds conversation
unfolding text_eq
conversation-HasDistinctIds = ((refl, (refl, tt)), ((refl, tt), (tt, tt)))

question-is_protected : is_protected conversation config question ≡ true
unfolding is_protected protected_classes text_eq
question-is_protected = refl

prune_structured_context-retains_example : Memᴰ question.original view.effective_contributions
prune_structured_context-retains_example =
    prune_structured_context-retains store excerpt no_float no_json contributions (some (pos 1200))
      (some (pos 1000)) context reset_stats [] view prepared prepared_lem
      conversation-HasDistinctIds pruned_lem question (Memᴰ.head refl) question-is_protected

prune_structured_context-saves_example : (1200 ≤ 1000 + 900) × (900 ≤ tokens conversation)
prune_structured_context-saves_example =
    prune_structured_context-saves store excerpt no_float no_json contributions (some (pos 1200))
      (some (pos 1000)) context reset_stats [] view prepared prepared_lem pruned_lem

build_groups-Permᴰ_example :
    Permᴰ
      (members_of (build_groups (companion ∷ conversation) config none))
      (companion ∷ conversation)
build_groups-Permᴰ_example = build_groups-Permᴰ (companion ∷ conversation) config none

-- The atomic group applied with the store: the diagnostic is rescued, so its companion stays.
abbrev atomic_group : Group
atomic_group = group_of 3 700 (diagnostic ∷ companion ∷ [])

abbrev rescued : ContributionInternal
rescued = with_content diagnostic (codes "rescued")

abbrev replacements : Dict ContributionInternal
replacements = (codes "d", rescued) ∷ []

abbrev with_group : List ContributionInternal
with_group = question ∷ diagnostic ∷ companion ∷ []

abbrev applied : AppliedPruning
applied = record {
  retained = question ∷ rescued ∷ companion ∷ [];
  saved_tokens = 299;
  pruned_count = 1;
  rescued_count = 1;
}

applied_lem :
    (apply_pruned_groups store excerpt with_group (atomic_group ∷ []) context []).0
    ≡ ok (some applied)
unfolding apply_pruned_groups with_content put text_eq get_value content_of starts_with
    rescued_group_ids
applied_lem = refl

apply_pruned_groups_balance_example :
    (keep (λ c. not (is_selected (atomic_group ∷ []) c)) applied.retained
      ≡ keep (λ c. not (is_selected (atomic_group ∷ []) c)) with_group)
    × (3 + 1 ≡ 3 + 1)
    × (tokens with_group ≤ tokens applied.retained + 299)
    × (299 ≤ tokens with_group)
apply_pruned_groups_balance_example =
    apply_pruned_groups_balance store excerpt with_group (atomic_group ∷ []) context [] applied
      applied_lem

replacements_lem :
    (rescue_replacements store excerpt (pruned_by_id (atomic_group ∷ [])) context []).0
    ≡ ok (some replacements)
unfolding rescue_replacements pruned_by_id with_content put text_eq get_value content_of starts_with
    mem_text
replacements_lem = refl

apply_pruned_groups_whole_example :
    (kept : ContributionInternal) × Memᴰ kept applied.retained
    × (kept.id ≡ companion.id)
    × ((kept ≡ companion) ⊎ (get companion.id replacements ≡ some kept))
unfolding with_content
apply_pruned_groups_whole_example =
    apply_pruned_groups_whole store excerpt with_group (atomic_group ∷ []) context [] applied
      replacements applied_lem replacements_lem (codes "d") (codes "g") rescued
      (unfold get text_eq in refl) refl companion (Memᴰ.tail (Memᴰ.tail (Memᴰ.head refl))) refl

-- A group without a diagnostic, applied with a context that has no session.
abbrev output_group : Group
output_group = group_of 1 900 (output ∷ [])

output_not_backed : All (λ c. is_rescue_backed c ≡ false) (members_of (output_group ∷ []))
unfolding members_of mem_text text_eq
output_not_backed = (refl, tt)

apply_pruned_groups_drops_example :
    (r : AppliedPruning) × (apply_pruned_groups store excerpt conversation (output_group ∷ []) [] []
      ≡ (ok (some r), []))
    × (r.retained ≡ keep (λ c. not (is_selected (output_group ∷ []) c)) conversation)
    × (r.saved_tokens ≡ tokens (keep (is_selected (output_group ∷ [])) conversation))
    × (r.rescued_count ≡ 0)
apply_pruned_groups_drops_example =
    apply_pruned_groups_drops store excerpt conversation (output_group ∷ []) [] [] output_not_backed

-- Three groups to choose from; the two later ones suffice for 800.
abbrev choice : List Group
choice =
    group_of 0 2000 (output ∷ []) ∷ group_of 1 500 (output ∷ []) ∷ group_of 2 400 (output ∷ []) ∷ []

abbrev chosen : List Group
chosen = group_of 1 500 (output ∷ []) ∷ group_of 2 400 (output ∷ []) ∷ []

chosen_lem : select_pruned_groups choice hard 800 config 200 ≡ some chosen
unfolding select_pruned_groups
chosen_lem = refl

select_pruned_groups-IsPrunable_example : All (IsPrunable hard config true) chosen
select_pruned_groups-IsPrunable_example =
    select_pruned_groups-IsPrunable choice hard 800 config 200 chosen chosen_lem

select_pruned_groups-reaches_example : 200 ≤ total_savings chosen
select_pruned_groups-reaches_example =
    select_pruned_groups-reaches choice hard 800 config 200 chosen (omega arith) (omega arith)
      chosen_lem

core_choice :
    800 ≤ total_savings (keep (λ g. leb 1 g.index) (candidate_groups choice hard config false))
unfolding keep sum_by candidate_groups
core_choice = omega arith

select_pruned_groups_latest_example :
    (s : List Group) × (select_pruned_groups choice hard 800 config 200 ≡ some s)
    × (800 ≤ total_savings s)
    × All (λ g. 1 ≤ g.index) s
select_pruned_groups_latest_example =
    select_pruned_groups_latest choice hard 800 config 200 1 (omega arith) core_choice

-- A memo of one entry.
abbrev memo : StructuredPruningMemo ℕ
memo = record { max_entries = 1; results = (codes "k", 7) ∷ [] }

memo-IsBounded : IsBounded memo
memo-IsBounded = omega arith

reuse_or_compute-IsBounded_example : IsBounded (reuse_or_compute (some (codes "j")) (some 8) memo).1
reuse_or_compute-IsBounded_example =
    reuse_or_compute-IsBounded (some (codes "j")) (some 8) memo memo-IsBounded

-- A failed command with five lines of output, cut to one line at each end.
abbrev options : TokenjuiceOptions
options = record {
  mode = head_tail;
  min_text_chars = 4000;
  head_lines = 1;
  tail_lines = 1;
  preview_chars = 2;
  text_fields = codes "stdout" ∷ codes "stderr" ∷ [];
  tool_aliases = [];
}

abbrev five_lines : Text
five_lines = 97 ∷ 10 ∷ 98 ∷ 10 ∷ 99 ∷ 10 ∷ 100 ∷ 10 ∷ 101 ∷ []

abbrev compacted : CompactText
compacted = record {
  text = 97 ∷ 10 ∷ (codes "[tokenjuice-hermes: omitted 3 middle lines]" ++ 10 ∷ 101 ∷ []);
  omitted_lines = 3;
  meta = field_meta five_lines 3 2;
}

compacted_lem : compact_text five_lines options ≡ some compacted
unfolding compact_text
compacted_lem = refl

compact_text_keeps_example :
    (head : List Text) × (middle : List Text) × (tail : List Text) × (splitlines five_lines
      ≡ head ++ (middle ++ tail))
    × (length head ≡ 1)
    × (length tail ≡ 1)
    × (length middle ≡ 3)
    × (compacted.text ≡ join (10 ∷ []) (head ++ marker (length middle) ∷ tail))
compact_text_keeps_example =
    compact_text_keeps five_lines options compacted compacted_lem (omega arith)

abbrev failed : FlatJsonObject
failed =
    (codes "stdout", str five_lines)
    ∷ (codes "stderr", str five_lines)
    ∷ (codes "exit", int (pos 1))
    ∷ []

abbrev failed_result : JsonObject
failed_result =
    (codes "stdout", scalar (str compacted.text))
    ∷ (codes "stderr", scalar (str five_lines))
    ∷ (codes "exit", scalar (int (pos 1)))
    ∷ (
      codes "tokenjuice",
      tokenjuice_meta true failed head_tail
          ((codes "stdout", object (fields_of compacted.meta)) ∷ []),
    )
    ∷ []

failed_lem : compact_terminal_result no_float failed options ≡ some failed_result
unfolding compact_terminal_result text_eq get_scalar is_nonzero_number
failed_lem = refl

failed-is_error_payload : is_error_payload no_float failed ≡ true
unfolding is_error_payload get_scalar text_eq is_nonzero_number
failed-is_error_payload = refl

stderr_diagnostic :
    (text_eq (codes "stderr") (codes "stderr")
      || is_embedded_diagnostic_field (codes "stderr") (get_scalar (codes "stderr") failed))
    ≡ true
unfolding text_eq
stderr_diagnostic = refl

compact_terminal_result_exact_example :
    get (codes "stderr") failed_result ≡ get (codes "stderr") (copy failed)
compact_terminal_result_exact_example =
    compact_terminal_result_exact no_float failed options failed_result (codes "stderr") failed_lem
      failed-is_error_payload stderr_diagnostic

-- A rescue whose option is a Boolean and whose excerpt is empty.
abbrev rescue_options_of : FlatJsonObject → Option Bool
rescue_options_of kwargs = some true

abbrev empty_rescue : Text → Text → Bool → Stored → Option Text × Stored
empty_rescue result tool_name rescue_options s = (some [], s)

transform_tool_result-IsCounted_example :
    (events reset_stats
      ≤ events
          (transform_tool_result no_float no_json
            (λ o. [])
            rescue_options_of
            empty_rescue
            five_lines
            (codes "terminal")
            []
            reset_stats
            []).0.1)
    × (events
          (transform_tool_result no_float no_json
            (λ o. [])
            rescue_options_of
            empty_rescue
            five_lines
            (codes "terminal")
            []
            reset_stats
            []).0.1
        ≤ events reset_stats
          + rewritten
              (transform_tool_result no_float no_json
                (λ o. [])
                rescue_options_of
                empty_rescue
                five_lines
                (codes "terminal")
                []
                reset_stats
                []).0.0)
transform_tool_result-IsCounted_example =
    transform_tool_result-IsCounted no_float no_json (λ o. []) rescue_options_of empty_rescue
      five_lines (codes "terminal") [] reset_stats []

-- A call that gives a session but says nothing of the fetch tool.
abbrev session_kwargs : FlatJsonObject
session_kwargs = (codes "session_id", str (codes "s")) ∷ []

no_fetch_tool : get_scalar (codes "tokenjuice_rescue_fetch_available") session_kwargs ≡ null
unfolding get_scalar text_eq
no_fetch_tool = refl

stored_transform-unavailable_example :
    ((stored_transform no_float no_json
        (λ path. true)
        excerpt
        store
        (λ o. [])
        five_lines
        (codes "web_search")
        session_kwargs
        reset_stats
        []).1
      ≡ [])
    × ((stored_transform no_float no_json
          (λ path. true)
          excerpt
          store
          (λ o. [])
          five_lines
          (codes "web_search")
          session_kwargs
          reset_stats
          []).0.1.rescue_count
        ≡ 0)
stored_transform-unavailable_example =
    stored_transform-unavailable no_float no_json (λ path. true) excerpt store (λ o. []) five_lines
      (codes "web_search") session_kwargs reset_stats [] no_fetch_tool
