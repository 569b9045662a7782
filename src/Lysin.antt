-- ===== src/Lysin.antt =====
-- The crate `lysin`: the package manager.
pub mod Config
pub mod LocalDb
pub mod Remove
pub mod Repos
pub mod Install
pub mod Update
