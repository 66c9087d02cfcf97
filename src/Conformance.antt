-- ===== src/Conformance.antt =====
-- internal/conformance: the checks, the suite's result and its runner.
pub mod Observer
pub mod Check
pub mod Result
pub mod Runner
pub mod Catalog
