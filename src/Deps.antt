-- ===== src/Deps.antt =====
-- The crate `ribosome-deps`: the dependency graph of the packages.
pub mod Search
pub mod Graph
