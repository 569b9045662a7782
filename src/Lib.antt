-- ===== src/Lib.antt =====
-- A verification library for the Ribosome build system of LysineOS: models of the crates under
-- ribosome/crates/ and proofs about them.
--
-- The parts of the program. `ribosome-parser` reads build recipes: versions, dependency strings
-- and the checks of a recipe. `ribosome-store` is a content-addressable store of blobs under their
-- SHA-256 digests, with named references and a garbage collector whose roots the references are.
-- `ribosome-deps` keeps the graph of the packages and their build dependencies; it takes recipes
-- from the parser, and orders builds and removals. `ribosome-repository` keeps the index of the
-- packages that can be installed; it compares versions by the parser's order. `ribosome-package`
-- writes and reads the archives of packages, which are published in a repository.
-- `ribosome-sandbox` gives the commands in which a package is built. `ribosome-core` finds the
-- recipe to build for a package. `lysin` is the package manager, with the database of the
-- installed packages.
--
-- Base: shared names. Texts are lists of Unicode scalar values, with the methods of `str` that the
--   crates call (trim, split, split_once, find, strip_prefix); Decimal is the printing and parsing
--   of unsigned integers; Outcome is `Result` with `?` as the bind.
-- Parser.Version: ribosome/crates/ribosome-parser/src/version.rs. `parse` is `Version::parse`, cut
--   into `split_suffix`, `parse_core` and `join_rest`; `cmp` is `Ord`, `version_eq` the derived
--   equality, `satisfies` the constraints. Order and RoundTrip hold the proofs.
-- Parser.Dependency: ribosome/crates/ribosome-parser/src/dependency.rs. `try_operators` is the loop
--   over the table `OPS`, `parse_constrained` its body. Names, Printing and RoundTrip hold the
--   proofs.
-- Store.Digest: ribosome/crates/ribosome-store/src/digest.rs. A digest is the list of its 32 bytes.
--   The parser slices at byte positions; a slice inside a character is the outcome `panic`.
-- Store.Vacuole: ribosome/crates/ribosome-store/src/store.rs. The disk below the root is a list of
--   object files, each with its directory, name and content, and a list of reference files.
--   `put_bytes` takes the system's answer to the write as an argument. SHA-256 is a parameter, with
--   the hypothesis that it returns 32 bytes.
-- Store.Refs: ribosome/crates/ribosome-store/src/refs.rs. `add_ref` and `remove_ref` take the
--   system's answer as an argument. `add_ref` is modelled where the namespace and the name are single
--   components of a path, and is `none` elsewhere.
-- Store.Gc: ribosome/crates/ribosome-store/src/gc.rs. `classify` is the chain of tests on one file,
--   `gc_loop` the walk; an argument says which removals the system carries out.
-- Parser.Model: ribosome/crates/ribosome-parser/src/model.rs, the records of a recipe.
-- Deps.Search: the breadth-first search of ribosome/crates/ribosome-deps/src/graph.rs. `search` is
--   the loop of `build_order`, `search_unmarked` that of `reverse_dependencies`, which does not
--   mark its start as visited.
-- Deps.Graph: ribosome/crates/ribosome-deps/src/graph.rs. The graphs of the crate petgraph are the
--   interface `DiGraph`, whose laws are those that the crate documents; the hash map from names to
--   nodes is an association list. `link` is the guarded `add_edge` of `add_dependency`,
--   `sorted_indices` the call of `toposort` with its error. Consistent, Closure and BuildOrder hold
--   the proofs; Install is `resolve_install_order`, with its proof; Report is
--   `cycle_packages` and `to_dot`.
-- Repository.Index: ribosome/crates/ribosome-repository/src/index.rs, the index in memory. The hash
--   map is an association list; `should_replace` is the match on the two parsed versions. Laws,
--   Operations and Search hold the proofs.
-- Repository.Index.Storage: `load` and `save` of the same file, over the three files of an index. `Json`
--   is what is used of serde_json; the outcome `none` of `load` is a panic. Entries holds what an
--   index finds after several entries are added; RoundTrip holds the proofs.
-- Repository.Filename: the names of package files, in ribosome/crates/ribosome-repository/src/
--   repository.rs and ribosome/crates/ribosome-package/src/packer.rs.
-- Repository.Publish: `publish` and `rebuild_index` of ribosome/crates/ribosome-repository/src/
--   repository.rs, over the files of the categories and those of the index. `RepoEnv` holds the other
--   crates and the answers of the system. Packed joins packing, publishing and loading; Scan
--   and Rebuild are about `rebuild_index`.
-- Packer: ribosome/crates/ribosome-package/src/packer.rs. A path is the list of its components, an
--   archive the list of its entries; `Archives` is what is used of tar, zstd and UTF-8. Pack is `pack`,
--   with its errors; Meta is `read_meta`; Unpack is `unpack`, over a file system that is a parameter.
--   Making a zstd decoder reads nothing and is taken to succeed.
-- Repository.Create: `create` and `open` of ribosome/crates/ribosome-repository/src/repository.rs.
-- Repository.Query: ribosome/crates/ribosome-repository/src/package_query.rs. Satisfied is about the
--   check of dependencies. The name in a dependency ends at the first space.
-- Sandbox: ribosome/crates/ribosome-sandbox/src/config.rs and sandbox.rs, the configuration and the
--   commands; a command is the list of its arguments. Isolation is about what is isolated.
-- Core.Profile: ribosome/crates/ribosome-core/src/profile.rs.
-- Core.Recipes: ribosome/crates/ribosome-core/src/mrna_index.rs. The files that the walk over a
--   directory gives, with what a read of each answers, are an argument of `scan`. Sorted is about the
--   order of versions as texts, Listed about what a scan lists, Resolve about `resolve`, Locks about
--   the lock file.
-- Parser.Issue: ribosome/crates/ribosome-parser/src/error.rs. Parser.Validate: validate.rs and the
--   entry points of lib.rs beside it. A check returns the issues that it appends; Format and Parts
--   hold helpers and checks. The regular expressions, `Url::parse` and the SPDX reader are the record
--   `Formats`. Rules states the rules of a recipe apart from the checks; Accepted and Outcome hold
--   the proofs.
-- Lysin.Repos: the look-ups of ribosome/crates/lysin/src/ops/{mod,install,update}.rs. An argument says
--   what each configured repository answers. Newer and Choice hold the proofs.
-- Lysin.Install, Lysin.Update: ribosome/crates/lysin/src/ops/install.rs and update.rs, over the
--   installed files, the database in memory and the database on the disk. `Env` holds the answers of
--   the system: the files of the repositories, the archive reader, the clock, and whether a save or
--   a removal succeeds. A path is what a read of it gives. Safety modules hold the proofs.
-- Lysin.Config: ribosome/crates/lysin/src/config.rs.
-- Lysin.LocalDb: ribosome/crates/lysin/src/db.rs, the installed packages in memory; Storage is `load` and
--   `save`, with the proof that they agree.
-- Lysin.Remove: ribosome/crates/lysin/src/ops/remove.rs. `remove_package` is `remove`, over the
--   files on the disk and the saved database; `dep_name` is the first word of a dependency. The
--   answers of the system to the removals and to `save` are arguments.
-- Examples: the theorems at concrete inputs, and tests.
--
-- Bounds. A search has as many rounds as the graph has nodes, and `reverse_dependencies` one more,
-- which is enough. Version components are below 2 ^ 64; the counters of the collector and of
-- `stats` wrap at 2 ^ 64. Printing a number n has fuel n + 1, which is enough, since each round
-- divides by ten.
--
-- Not modelled: the order of a hash set's elements, logging, the creation of the directories of a
-- store, `put_file`, and failures of the system while references are read or directories of a
-- store are listed; in ribosome-core, the retrieval of sources, the execution of builds and the
-- bootstrap, which run other programs; in ribosome-sandbox, the making of directories and the
-- mounts; the crates ribosome-snapshot, which is an error type, and ribosome-cli, which is a
-- command line.
pub mod Base
pub mod Packer
pub mod Parser
pub mod Store
pub mod Core
pub mod Deps
pub mod Repository
pub mod Sandbox
pub mod Lysin
mod Examples
