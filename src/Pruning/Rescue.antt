-- ===== src/Pruning/Rescue.antt =====
-- structured_pruning_rescue.py: selected groups are dropped, and members of the rescue-backed
-- classes are replaced by excerpts that name a handle of the blob store.
pub mod Counts
pub mod Applied
pub mod Groups
use tokenjuice_hermes.BlobStore
use tokenjuice_hermes.BlobStore.{BlobStore}
use tokenjuice_hermes.Common.{
  Text, codes, text_eq, mem_text, starts_with, ℕ, zero, suc, ◌+◌, ◌-◌, ◌/◌, max, Bool, true, false,
  not, ◌&&◌, ◌||◌, Option, none, some, List, [], ◌∷◌, ◌++◌, map, Outcome, ok, raise, Error,
  attribute_error, replacement_error, os_error, value_error, Dict, get, put, has_key, if◌then◌else◌,
  is_empty, keep, length,
}
use tokenjuice_hermes.Json.{
  JsonValue, JsonObject, scalar, bool, str, object, str?, object?, fields_of, get_value,
}
use tokenjuice_hermes.Pruning.Parse.{item}
use tokenjuice_hermes.Pruning.Types.{
  Contribution, ContributionInternal, Group, rescue_backed_classes,
}

pub record AppliedPruning : Type 0 where
  pub retained : List ContributionInternal
  pub saved_tokens : ℕ
  pub pruned_count : ℕ
  pub rescued_count : ℕ

abbrev rescued_prefix : Text
rescued_prefix = codes "[tokenjuice-hermes: tool result rescued."

-- `_string_context` and `_bool_context`
unfoldable pub string_context : JsonObject → Text → Text
string_context context key = elim (str? (get_value key context)) [ none ↦ [] | some s ↦ s ]

abbrev is_true : JsonValue → Bool
is_true (scalar (bool b)) = b
is_true _ = false

-- `_bool_context(context, key) is True`
unfoldable pub is_true_context : JsonObject → Text → Bool
is_true_context context key = elim (get key context) [ some v ↦ is_true v | none ↦ false ]

unfoldable pub estimated_tokens : Text → ℕ
estimated_tokens content = max 1 (length content / 4)

unfoldable pub tool_name_for_class : Text → Text
tool_name_for_class class_ =
    if text_eq class_ (codes "terminal_tool_output")
    then codes "terminal"
    else if text_eq class_ (codes "exact_file_read")
    then codes "read_file"
    else codes "tool"

-- The name in a provider message, if it is a `str` that is not empty.
provider_name : Option JsonObject → Option Text
provider_name none = none
provider_name (some message) = elim (str? (get_value (codes "name") message)) [
  | none ↦ none
  | some name ↦ if is_empty name then none else some name
]

unfoldable pub provider_tool_name : ContributionInternal → Text
unfolding provider_name tool_name_for_class
provider_tool_name c =
    elim (provider_name (object? (get_value (codes "provider_message") c.original))) [
      | none ↦ tool_name_for_class c.class_
      | some name ↦ name
    ]

-- `contribution.original["content"]`, used as a `str`
unfoldable pub content_of : ContributionInternal → Outcome Text
unfolding item
content_of c = elim (item (codes "content") c.original) [
  | raise e ↦ raise e
  | ok v ↦ elim (str? v) [ none ↦ raise attribute_error | some s ↦ ok s ]
]

-- The copy of the contribution with a new content, in its provider message too.
unfoldable pub with_content : ContributionInternal → Text → ContributionInternal
unfolding estimated_tokens
with_content c content =
    let original = put (codes "content") (scalar (str content)) c.original in
    record c {
      token_estimate = estimated_tokens content;
      char_count = length content;
      original = elim (object? (get_value (codes "provider_message") original)) [
        | none ↦ original
        | some message ↦
            put (codes "provider_message")
              (object (fields_of (put (codes "content") (scalar (str content)) message))) original
      ];
    }

-- `{c.id: c for group in pruned_groups for c in group.contributions}`
unfoldable pub by_id :
    Dict ContributionInternal → List ContributionInternal → Dict ContributionInternal
by_id d [] = d
by_id d (c ∷ cs) = by_id (put c.id c d) cs

unfoldable pub members_of : List Group → List ContributionInternal
members_of [] = []
members_of (g ∷ gs) = g.contributions ++ members_of gs

unfoldable pub pruned_by_id : List Group → Dict ContributionInternal
unfolding by_id members_of
pruned_by_id groups = by_id [] (members_of groups)

-- `RESCUE_BACKED_CLASSES`
abbrev pub is_rescue_backed : ContributionInternal → Bool
is_rescue_backed c = mem_text c.class_ rescue_backed_classes

-- The exceptions that `_rescue_replacements` turns into `None`.
unfoldable pub is_caught : Error → Bool
is_caught os_error = true
is_caught replacement_error = true
is_caught value_error = true
is_caught _ = false

module _ (store : BlobStore) (build_excerpt : Text → Text → Text) where
  open store use {State}

  -- What is done with a handle.
  excerpted : ContributionInternal → Text → Text → Outcome ContributionInternal
  excerpted c content handle =
      if is_empty handle
      then raise replacement_error
      else ok (with_content c (build_excerpt content handle))

  rescue_content : ContributionInternal → Text → Text → State → Outcome ContributionInternal × State
  unfolding excerpted
  rescue_content c session content s =
      if starts_with content rescued_prefix
      then (ok c, s)
      else let (handle, s') = store.put content (provider_tool_name c) session s in
        (elim handle [ raise e ↦ raise e | ok h ↦ excerpted c content h ], s')

  unfoldable pub rescue_contribution :
      ContributionInternal → Text → State → Outcome ContributionInternal × State
  unfolding rescue_content
  rescue_contribution c session s = elim (content_of c) [
    | raise e ↦ (raise e, s)
    | ok content ↦ rescue_content c session content s
  ]

  -- The dict comprehension over the candidates, whose ids differ: the first exception ends it.
  unfoldable pub rescue_all :
      List ContributionInternal → Text → State → Outcome (Dict ContributionInternal) × State
  unfolding rescue_contribution
  rescue_all [] session s = (ok [], s)
  rescue_all (c ∷ cs) session s =
      let (replacement, s') = rescue_contribution c session s in
      let rest = rescue_all cs session s' in
      elim replacement [
        | raise e ↦ (raise e, s')
        | ok r ↦ (elim rest.0 [ raise e ↦ raise e | ok d ↦ ok ((c.id, r) ∷ d) ], rest.1)
      ]

  -- The `try` block: `ok none` stands for the `None` of the handler.
  caught : Outcome (Dict ContributionInternal) → Outcome (Option (Dict ContributionInternal))
  unfolding is_caught
  caught (ok d) = ok (some d)
  caught (raise e) = if is_caught e then ok none else raise e

  unfoldable pub rescue_replacements :
      Dict ContributionInternal
      → JsonObject
      → State
      → Outcome (Option (Dict ContributionInternal)) × State
  unfolding rescue_all keep string_context is_true_context caught
  rescue_replacements pruned context s =
      let candidates = keep is_rescue_backed (map (λ e. e.1) pruned) in
      let session_id = string_context context (codes "session_id") in
      if is_empty candidates
      then (ok (some []), s)
      else if is_empty session_id
          || not (is_true_context context (codes "tokenjuice_rescue_fetch_available"))
      then (ok none, s)
      else let (result, s') = rescue_all candidates session_id s in (caught result, s')

-- `{c.atomic_group_id for c in replacements.values() if c.atomic_group_id is not None}`
unfoldable pub rescued_group_ids : Dict ContributionInternal → List Text
rescued_group_ids [] = []
rescued_group_ids ((k, c) ∷ d) =
    let rest = rescued_group_ids d in elim c.atomic_group_id [ none ↦ rest | some id ↦ id ∷ rest ]

-- `contribution.atomic_group_id in rescued_atomic_group_ids`
abbrev pub in_rescued_group : List Text → ContributionInternal → Bool
in_rescued_group ids c = elim c.atomic_group_id [ none ↦ false | some id ↦ mem_text id ids ]

-- What the loop of `apply_pruned_groups` does with one contribution.
pub data Verdict : Type 0 where
  retain : Verdict
  drop : Verdict
  replace : ContributionInternal → Verdict

unfoldable pub verdict :
    Dict ContributionInternal → Dict ContributionInternal → ContributionInternal → Verdict
unfolding get mem_text
verdict pruned replacements c = elim (get c.id pruned) [
  | none ↦ retain
  | some selected ↦ elim (get c.id replacements) [
    | none ↦ if in_rescued_group (rescued_group_ids replacements) c then retain else drop
    | some replacement ↦ replace replacement
  ]
]

-- The loop, with the four results of a round added to those of the rounds that follow.
add_round : ContributionInternal → Verdict → AppliedPruning → AppliedPruning
add_round c retain r = record r { retained = c ∷ r.retained }
add_round c drop r = record r {
  saved_tokens = c.token_estimate + r.saved_tokens;
  pruned_count = suc r.pruned_count;
}
add_round c (replace replacement) r = record {
  retained = replacement ∷ r.retained;
  saved_tokens = (c.token_estimate - replacement.token_estimate) + r.saved_tokens;
  pruned_count = suc r.pruned_count;
  rescued_count = suc r.rescued_count;
}

unfoldable pub apply_loop :
    Dict ContributionInternal
    → Dict ContributionInternal
    → List ContributionInternal
    → AppliedPruning
unfolding verdict add_round
apply_loop pruned replacements [] = record {
  retained = [];
  saved_tokens = 0;
  pruned_count = 0;
  rescued_count = 0;
}
apply_loop pruned replacements (c ∷ cs) =
    add_round c (verdict pruned replacements c) (apply_loop pruned replacements cs)

module _ (store : BlobStore) (build_excerpt : Text → Text → Text) where
  open store use {State}

  unfoldable pub apply_pruned_groups :
      List ContributionInternal
      → List Group
      → JsonObject
      → State
      → Outcome (Option AppliedPruning) × State
  unfolding rescue_replacements pruned_by_id apply_loop
  apply_pruned_groups parsed groups context s =
      let pruned = pruned_by_id groups in
      let (found, s') = rescue_replacements store build_excerpt pruned context s in
      (
        elim found [
          | raise e ↦ raise e
          | ok none ↦ ok none
          | ok (some replacements) ↦ ok (some (apply_loop pruned replacements parsed))
        ],
        s',
      )
