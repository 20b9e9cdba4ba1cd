-- ===== src/FunctionPointers/Tests.antt =====
-- The theorem on the dispatch table at a comma, for which there is no function.
