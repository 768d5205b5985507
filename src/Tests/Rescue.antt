-- ===== src/Tests/Rescue.antt =====
-- The theorems on rescued results applied to a result with one long text.
use tokenjuice_hermes.BlobStore.{BlobStore}
use tokenjuice_hermes.Common.{
  keep, numbered, Text, codes, text_eq, mem_text, splitlines, join, ◌≡◌, ◌≤◌, refl, arith, true,
  false, Option, none, some, List, [], ◌∷◌, ◌++◌, ok, raise, recursion_error, length, take, Outcome,
}
use tokenjuice_hermes.Json.{
  fields_of, JsonValue, JsonObject, get_value, FlatJsonObject, end, field, scalar, object, str,
  get_scalar, is_error_payload, is_nonzero_number, is_error_status,
}
use tokenjuice_hermes.Rescue.Excerpt.{
  JsonRuntime, build_excerpt, detect_kind, excerpt_header, omitted_line, text_excerpt,
}
use tokenjuice_hermes.Rescue.Grep.{grep_loop, grep_loop-keep, first_matches, is_match}
use tokenjuice_hermes.Rescue.Options.{RescueOptions}
use tokenjuice_hermes.Rescue.Preview.{text_excerpt_keeps, build_excerpt-length}
use tokenjuice_hermes.Rescue.Recovered.{transform_rescue_result-redeems}
use tokenjuice_hermes.Rescue.Transform.{
  is_eligible_tool, threshold_for, parse_flat_json_object, transform_rescue_result,
}
use tokenjuice_hermes.Store.Blobs.{default_config, put, session_references, blob_text}
use tokenjuice_hermes.Store.Handles.{safe_sid}
use tokenjuice_hermes.Store.Ownership.{put_content, put_blob}
use tokenjuice_hermes.Store.Redeem.{sqlite_store}
use tokenjuice_hermes.Rescue.Fetch.{rescuer_fetch, text_arg, normalize_config, store_config}
use tokenjuice_hermes.Rescue.Fetched.{rescuer_fetch_secret, rescuer_fetch-put}
use tokenjuice_hermes.Observability.{Counters, reset_stats, record_fetch}
use tokenjuice_hermes.Store.Ownership.{key_references}
use tokenjuice_hermes.Store.Blobs.{StoreState}
use tokenjuice_hermes.Store.Handles.{is_valid_handle}
use tokenjuice_hermes.Observability.Redacted.{
  Counting, are_aggregate, tokenjuice_status-are_aggregate,
}
use tokenjuice_hermes.Observability.Status.{StorePath, tokenjuice_status}
use tokenjuice_hermes.Tests.Store.{
  legacy, with_indexes, test_runtime, digest_inj, fresh, stored, zeros,
}

abbrev test_store : BlobStore
test_store = sqlite_store test_runtime default_config 7 digest_inj

-- A parser that reads any text as an object with that text as its content.
abbrev parse_as_content : Text → Option JsonValue
parse_as_content t = some (object (field (codes "content") (scalar (str t)) end))

abbrev short_excerpt : Text → Text → Outcome Text
short_excerpt text handle = ok (codes "see " ++ handle)

abbrev test_options : RescueOptions
test_options = record {
  session_id = codes "s";
  store_path = [];
  fetch_available = true;
  min_text_chars = 5;
  tool_min_text_chars = [];
  tool_names = codes "terminal" ∷ [];
  excluded_tools = [];
  text_fields = codes "content" ∷ [];
}

transform_rescue_result-redeems_example :
    (parsed : FlatJsonObject) × (field_name : Text) × (text : Text) × (handle : Text)
    × (parse_flat_json_object (λ x. true) parse_as_content (codes "hello") ≡ some parsed)
    × (is_error_payload (λ x. true) parsed ≡ false)
    × (is_eligible_tool (codes "terminal") test_options ≡ true)
    × (mem_text field_name test_options.text_fields ≡ true)
    × (get_scalar field_name parsed ≡ str text)
    × (threshold_for (codes "terminal") test_options ≤ length text)
    × (short_excerpt text handle ≡ ok (codes "see " ++ zeros))
    × (session_references test_runtime default_config handle (codes "s") stored ≡ ok true)
    × (blob_text test_runtime default_config handle stored ≡ some text)
unfolding put put_content safe_sid put_blob text_eq transform_rescue_result is_nonzero_number
    is_error_status
transform_rescue_result-redeems_example =
    transform_rescue_result-redeems (λ x. true) parse_as_content (λ path. true) short_excerpt
      test_store (codes "hello") (codes "terminal") (codes "see " ++ zeros) test_options fresh
      stored refl

-- An excerpt of a text that is nested too deep.
abbrev too_deep : Text → Text → Outcome Text
too_deep text handle = raise recursion_error

abbrev four_lines : Text
four_lines = b'a' ∷ 10 ∷ b'b' ∷ 10 ∷ b'c' ∷ 10 ∷ b'd' ∷ []

text_excerpt_keeps_example :
    (head : List Text) × (middle : List Text) × (tail : List Text) × (splitlines four_lines
      ≡ head ++ (middle ++ tail))
    × (length head ≡ 1)
    × (length tail ≡ 1)
    × (text_excerpt four_lines 1 1 100
        ≡ take 100
            (join (10 ∷ []) (codes "--- head ---" ∷ (head ++ omitted_line (length middle) ∷ tail))))
text_excerpt_keeps_example =
    text_excerpt_keeps four_lines 1 1 100 (unfold splitlines in omega arith)

abbrev no_json : JsonRuntime
no_json = record { loads = λ t. none; dumps = λ v. []; repr_keys = λ ks. []; str_of = λ v. [] }

build_excerpt-length_example :
    (body : Text) × (build_excerpt no_json four_lines zeros
      ≡ excerpt_header (detect_kind no_json four_lines) four_lines zeros ++ body)
    × (length body ≤ 8000)
build_excerpt-length_example = build_excerpt-length no_json four_lines zeros

grep_loop-keep_example :
    grep_loop
      (λ t. t)
      (λ ms. codes "2.0")
      (λ n. false)
      (codes "b")
      100
      500
      0
      0
      (splitlines four_lines)
    ≡ first_matches
        (λ t. t)
        (λ ms. codes "2.0")
        (λ n. false)
        50
        (keep
          (is_match (λ t. t) (λ ms. codes "2.0") (λ n. false) (codes "b") 100)
          (numbered 0 (splitlines four_lines)))
grep_loop-keep_example =
    grep_loop-keep (λ t. t) (λ ms. codes "2.0") (λ n. false) (codes "b") 100 500
      (splitlines four_lines) (λ k. refl)

-- A call of the fetch tool, and what it makes of the content that the session stored.
abbrev fetch_args : Text → JsonObject
fetch_args mode = (codes "id", scalar (str zeros)) ∷ (codes "mode", scalar (str mode)) ∷ []

abbrev search_args : JsonObject
search_args = (codes "pattern", scalar (str (codes "hell"))) ∷ fetch_args (codes "grep")

abbrev call_fetch : JsonObject → Text → StoreState → Outcome Text × Counters
call_fetch args session s =
    rescuer_fetch test_runtime (λ t. t) (λ ms. codes "0.5") (λ n. false) (codes "now") args session
      [] s reset_stats

rescuer_fetch_secret_example :
    call_fetch search_args (codes "other") stored
    ≡ call_fetch search_args
        (codes "other")
        (record stored { db = record stored.db { files = [] } })
unfolding put put_content safe_sid put_blob text_eq text_arg session_references key_references
    is_valid_handle
rescuer_fetch_secret_example =
    rescuer_fetch_secret test_runtime (λ t. t) (λ ms. codes "0.5") (λ n. false) (codes "now")
      search_args (codes "other") [] stored [] reset_stats zeros refl refl refl

rescuer_fetch-put_example :
    call_fetch (fetch_args (codes "full")) (codes "s") stored
    ≡ (ok (codes "hello"), record_fetch (codes "full") reset_stats)
unfolding put put_content safe_sid put_blob text_eq text_arg normalize_config store_config get_value
rescuer_fetch-put_example =
    rescuer_fetch-put test_runtime (λ t. t) (λ ms. codes "0.5") (λ n. false) (codes "now")
      (codes "hello") (codes "terminal") (codes "s") zeros (fetch_args (codes "full")) [] 7 fresh
      stored reset_stats digest_inj refl (λ e. ground (arith, e)) refl refl refl

abbrev store_path : StorePath
store_path = record { has_db = true; store = with_indexes }

abbrev after_fetch : Counters
after_fetch = (call_fetch (fetch_args (codes "secret")) (codes "s") stored).1

tokenjuice_status-are_aggregate_example :
    are_aggregate
      (fields_of (tokenjuice_status test_runtime legacy after_fetch 9 (some store_path)).0)
    ≡ true
tokenjuice_status-are_aggregate_example =
    tokenjuice_status-are_aggregate test_runtime (λ t. t) (λ ms. codes "0.5") (λ n. false) legacy
      after_fetch 9 (some store_path)
      (Counting.fetching (codes "now") (fetch_args (codes "secret")) (codes "s") [] stored
        Counting.start)
