-- ===== src/Lysin/Config.antt =====
-- ribosome/crates/lysin/src/config.rs: the configuration of the package manager.
use lysine_os.Base.{Option, none, some, List, [], ◌≡◌, refl, Text, codes, Result, ok, err}

pub record LysinConfig : Type 0 where
  pub root : Text
  pub db_path : Text
  pub cache_path : Text
  pub repositories : List Text

pub record RawConfig : Type 0 where
  pub raw_root : Option Text
  pub raw_db_path : Option Text
  pub raw_cache_path : Option Text
  pub raw_repositories : Option (List Text)

-- What a read of the configuration file gives.
pub data ConfigFile : Type 0 where
  missing : ConfigFile
  unreadable : Text → ConfigFile
  content : Text → ConfigFile

unfoldable pub unwrap_or : Option Text → Text → Text
unwrap_or none other = other
unwrap_or (some t) other = t

-- `root.join` of a relative path is a parameter, and so is the reader of TOML.
module _ (join_path : Text → Text → Text) (from_toml : Text → Result Text RawConfig) where
  unfoldable pub dev : Text → LysinConfig
  dev root = record {
    root = root;
    db_path = join_path root (codes "var/lib/lysin");
    cache_path = join_path root (codes "var/cache/lysin");
    repositories = [];
  }

  unfoldable pub from_raw : RawConfig → Text → LysinConfig
  unfolding unwrap_or
  from_raw raw fallback_root = record {
    root = unwrap_or raw.raw_root fallback_root;
    db_path = unwrap_or raw.raw_db_path (join_path fallback_root (codes "var/lib/lysin"));
    cache_path = unwrap_or raw.raw_cache_path (join_path fallback_root (codes "var/cache/lysin"));
    repositories = elim raw.raw_repositories [ none ↦ [] | some rs ↦ rs ];
  }

  unfoldable pub load_from_file : ConfigFile → Text → Result Text LysinConfig
  unfolding dev from_raw
  load_from_file missing fallback_root = ok (dev fallback_root)
  load_from_file (unreadable e) fallback_root = err e
  load_from_file (content text) fallback_root = elim (from_toml text) [
    | err e ↦ err e
    | ok raw ↦ ok (from_raw raw fallback_root)
  ]

  -- Any error gives the default.
  unfoldable pub load_or_default : ConfigFile → Text → LysinConfig
  unfolding load_from_file
  load_or_default file root = elim (load_from_file file root) [ ok c ↦ c | err e ↦ dev root ]

  -- An empty configuration is the default one.
  pub from_raw-dev :
      (text root : Text)
      → from_toml text
        ≡ ok (record {
          raw_root = none;
          raw_db_path = none;
          raw_cache_path = none;
          raw_repositories = none;
        })
      → load_or_default (content text) root ≡ load_or_default missing root
  unfolding load_or_default load_from_file from_raw dev unwrap_or
  from_raw-dev text root e = rw (load_or_default, load_from_file, e) refl
