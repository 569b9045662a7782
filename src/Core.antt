-- ===== src/Core.antt =====
-- The crate `ribosome-core`: the index of the recipes, and the phases of the bootstrap.
pub mod Profile
pub mod Recipes
