-- ===== src/Examples.antt =====
-- The theorems at concrete inputs, and tests of the definitions.
mod Commands
mod Packages
mod Publish
mod Unpack
mod Deps
mod Lysin
mod Parser
mod Recipes
mod Repository
mod Query
mod Store
mod Validate
