-- ===== src/BlobStore.antt =====
-- What clients rely on of `BlobStore` (tokenjuice_hermes/rescue_store.py): the operations that
-- passref.py names in its `RescueStore` protocol, and `put`. A client takes such a store as a
-- parameter.
use tokenjuice_hermes.Common.{Text, Bool, true, Option, some, [], ◌≡◌, ◌≢◌, Outcome, ok}

pub record BlobStore : Type 1 where
  pub State : Type 0
  -- `put(content, tool_name, session_id)`: a handle, empty when there is none
  pub put : Text → Text → Text → State → Outcome Text × State
  pub blob_text : Text → State → Option Text
  pub has_blob : Text → State → Bool
  -- `session_references(handle, session_id)`
  pub session_references : Text → Text → State → Outcome Bool
  -- a handle that `put` returns is the session's, and redeems the content
  pub put_redeems :
      (content tool session handle : Text) (s s' : State)
      → put content tool session s ≡ (ok handle, s')
      → handle ≢ []
      → (session_references handle session s' ≡ ok true) × (blob_text handle s' ≡ some content)
