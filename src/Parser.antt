-- ===== src/Parser.antt =====
-- The crate `ribosome-parser`: versions, dependency strings and the validation of mRNA documents.
pub mod Version
pub mod Dependency
pub mod Model
pub mod Issue
pub mod Validate
