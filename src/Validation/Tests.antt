-- ===== src/Validation/Tests.antt =====
-- Instances of the theorems on validation.ts.
