-- ===== src/Requests/Cuts.antt =====
-- request_pruning.py: what `_compact_text` leaves of a text.
