-- ===== src/Tests/Passref.antt =====
-- The theorems on the passing of results by reference, applied to the store of rescue_sqlite.py.
use tokenjuice_hermes.BlobStore.{BlobStore}
use tokenjuice_hermes.Common.{
  Text, codes, text_eq, ◌≡◌, ◌≢◌, ◌∙◌, sym, refl, Bool-cases, inl, inr, arith, true, false, Option,
  none, some, [], ◌∷◌, ◌++◌, ok,
}
use tokenjuice_hermes.Json.{JsonValue, Fields, end, field, scalar, object, str}
use tokenjuice_hermes.Observability.{reset_stats, record_passref_denial, record_passref_expansion}
use tokenjuice_hermes.Passref.Budgets.{expand_value-replace_handles}
use tokenjuice_hermes.Passref.Config.{PassrefConfig, is_hard_exempt, tool_allowed}
use tokenjuice_hermes.Passref.Denial.{tool_request_denied, passed_on}
use tokenjuice_hermes.Passref.Expand.{
  Budget, budget_marker, expand_value, has_handle, replace_handles, new_budget,
}
use tokenjuice_hermes.Passref.Middleware.{tool_request, args_result}
use tokenjuice_hermes.Passref.Pattern.{has_reference, matches}
use tokenjuice_hermes.Passref.Redeem.{tool_request-put}
use tokenjuice_hermes.Passref.Secrecy.{tool_request_secret}
use tokenjuice_hermes.Store.Blobs.{StoreState, default_config, put, session_references, has_blob}
use tokenjuice_hermes.Store.Handles.{is_valid_handle, safe_sid}
use tokenjuice_hermes.Store.Ownership.{put_content, put_blob, key_references}
use tokenjuice_hermes.Store.Redeem.{sqlite_store}
use tokenjuice_hermes.Tests.Store.{zeros, test_runtime, digest_inj, fresh, stored}

abbrev test_store : BlobStore
test_store = sqlite_store test_runtime default_config 7 digest_inj

abbrev small_config : PassrefConfig
small_config = record {
  allowed_tools = codes "search" ∷ [];
  enabled = true;
  max_chars = 100;
  total_max_chars = 200;
}

abbrev reference_args : Fields
reference_args = field (codes "q") (scalar (str (codes "tla:" ++ zeros))) end

tool_request_denied_example :
    (result : Option JsonValue) × (tool_request test_store none small_config
        (scalar (str (codes "bash")))
        (object reference_args)
        (scalar (str (codes "s")))
        reset_stats
      ≡ (ok result, record_passref_denial reset_stats))
    × (has_handle (passed_on reference_args result) ≡ false)
unfolding text_eq
tool_request_denied_example =
    tool_request_denied test_store none small_config (codes "bash") reference_args
      (scalar (str (codes "s"))) reset_stats refl (unfold is_hard_exempt in refl)
      (unfold tool_allowed in refl) (unfold has_reference matches in refl)

expand_value-replace_handles_example :
    (b' : Budget) × (expand_value test_store
        (record small_config { total_max_chars = 0 })
        (codes "s")
        fresh
        (object reference_args)
        new_budget
      ≡ ok (replace_handles (budget_marker 0) (object reference_args), b'))
    × (b'.total ≡ 0)
expand_value-replace_handles_example =
    expand_value-replace_handles test_store (record small_config { total_max_chars = 0 })
      (codes "s") fresh (object reference_args) new_budget (omega arith)

tool_request-put_example :
    tool_request test_store
      (some stored)
      small_config
      (scalar (str (codes "search")))
      (object reference_args)
      (scalar (str (codes "s")))
      reset_stats
    ≡ (
      ok (some (args_result (object (field (codes "q") (scalar (str (codes "hello"))) end)))),
      record_passref_expansion 5 reset_stats,
    )
unfolding put put_content safe_sid put_blob text_eq
tool_request-put_example =
    tool_request-put test_store small_config (codes "hello") (codes "terminal") (codes "s") zeros
      (codes "search") (codes "q") fresh stored reset_stats refl (unfold matches in refl) refl refl
      refl (unfold is_hard_exempt in refl) (unfold tool_allowed in refl) (omega arith) (omega arith)

-- The store with another blob under the handle.
abbrev replaced : StoreState
replaced = record stored { db = record stored.db { files = (zeros, codes "other") ∷ [] } }

ok_true-ok_false : ok true ≢ ok false
ok_true-ok_false e = absurd (ground (arith, e))

references_other :
    (h : Text) → session_references test_runtime default_config h (codes "other") stored ≡ ok false
unfolding put put_content put_blob text_eq session_references safe_sid key_references
references_other h = elim (Bool-cases (is_valid_handle h)) [ inl e ↦ rw e refl | inr e ↦ rw e refl ]

tool_request_secret_example :
    tool_request test_store
      (some stored)
      small_config
      (scalar (str (codes "search")))
      (object reference_args)
      (scalar (str (codes "other")))
      reset_stats
    ≡ tool_request test_store
        (some replaced)
        small_config
        (scalar (str (codes "search")))
        (object reference_args)
        (scalar (str (codes "other")))
        reset_stats
unfolding put put_content put_blob text_eq session_references safe_sid key_references has_blob
tool_request_secret_example =
    tool_request_secret test_store (codes "other") stored replaced (λ h. refl) (λ h. refl)
      (λ h e. absurd (ok_true-ok_false (sym e ∙ references_other h))) small_config (codes "search")
      reference_args reset_stats
