-- ===== src/Registry/Started.antt =====
-- A run from its start to its end.
