-- ===== src/Repository.antt =====
-- The crate `ribosome-repository`: the index of a package repository, and the repository on disk.
pub mod Index
pub mod Filename
pub mod Publish
pub mod Query
pub mod Create
