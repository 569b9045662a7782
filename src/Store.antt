-- ===== src/Store.antt =====
-- The crate `ribosome-store`: digests, the content-addressable store, its references and its
-- garbage collection.
pub mod Digest
pub mod Vacuole
pub mod Refs
pub mod Gc
