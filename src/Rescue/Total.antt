-- ===== src/Rescue/Total.antt =====
-- rescue_transform.py over rescue_store.py: what the hook on results raises.
use tokenjuice_hermes.Store.Blobs
