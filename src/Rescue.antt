-- ===== src/Rescue.antt =====
-- rescue_transform.py and rescue_excerpt.py: oversized tool results go to the blob store, and a preview
-- takes their place. rescue_fetch.py and rescue_grep.py: the tool by which the model reads the store.
pub mod Options
pub mod Excerpt
pub mod Transform
pub mod Recovered
pub mod Total
pub mod Preview
pub mod Grep
pub mod Fetch
pub mod Fetched
