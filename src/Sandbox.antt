-- ===== src/Sandbox.antt =====
-- ribosome/crates/ribosome-sandbox/src/config.rs and sandbox.rs: the configuration of a sandbox, and
-- the arguments of systemd-nspawn.
pub mod Isolation
use lysine_os.Base.{
  Bool, true, false, not, ◌&&◌, Option, none, some, List, [], ◌∷◌, ◌++◌, Text, codes, is_empty,
  split_once, join, if◌then◌else◌, map,
}

pub record BindMount : Type 0 where
  pub host_path : Text
  pub sandbox_path : Text
  pub writable : Bool

pub record SandboxConfig : Type 0 where
  pub rootfs : Text
  pub network_isolation : Bool
  pub memory_limit : Option Text
  pub cpu_quota : Option Text
  pub bind_mounts : List BindMount
  pub env_vars : List (Text × Text)
  pub working_dir : Text
  pub user_namespace : Bool
  pub uid_map : Option Text
  pub gid_map : Option Text
  pub drop_capabilities : List Text
  pub syscall_filter : List Text

-- `build_base.join` of a relative path is a parameter.
unfoldable pub new_for_build : (Text → Text → Text) → Text → SandboxConfig
new_for_build join_path build_base = record {
  rootfs = codes "/";
  network_isolation = false;
  memory_limit = none;
  cpu_quota = none;
  bind_mounts =
      record {
        host_path = join_path build_base (codes "src");
        sandbox_path = codes "/srv/src";
        writable = false;
      }
      ∷ record {
        host_path = join_path build_base (codes "build");
        sandbox_path = codes "/srv/build";
        writable = false;
      }
      ∷ record {
        host_path = join_path build_base (codes "pkg");
        sandbox_path = codes "/srv/pkg";
        writable = true;
      }
      ∷ [];
  env_vars = [];
  working_dir = codes "/srv/build";
  user_namespace = false;
  uid_map = none;
  gid_map = none;
  drop_capabilities = [];
  syscall_filter = [];
}

unfoldable pub with_network_isolation : SandboxConfig → Bool → SandboxConfig
with_network_isolation config enabled = record config { network_isolation = enabled }

unfoldable pub with_memory_limit : SandboxConfig → Text → SandboxConfig
with_memory_limit config limit = record config { memory_limit = some limit }

unfoldable pub with_cpu_quota : SandboxConfig → Text → SandboxConfig
with_cpu_quota config quota = record config { cpu_quota = some quota }

unfoldable pub has_equals : Text → Bool
has_equals key = elim (split_once b'=' key) [ none ↦ false | some _ ↦ true ]

-- `none` is the panic of the two assertions.
unfoldable pub with_env : SandboxConfig → Text → Text → Option SandboxConfig
unfolding has_equals
with_env config key value =
    if not (is_empty key) && not (has_equals key)
    then some (record config { env_vars = config.env_vars ++ (key, value) ∷ [] })
    else none

unfoldable pub with_user_namespace : SandboxConfig → Bool → SandboxConfig
with_user_namespace config enabled = record config { user_namespace = enabled }

unfoldable pub with_uid_map : SandboxConfig → Text → SandboxConfig
with_uid_map config uid_map = record config { uid_map = some uid_map }

unfoldable pub with_gid_map : SandboxConfig → Text → SandboxConfig
with_gid_map config gid_map = record config { gid_map = some gid_map }

unfoldable pub with_drop_capability : SandboxConfig → Text → SandboxConfig
with_drop_capability config cap = record config {
  drop_capabilities = config.drop_capabilities ++ cap ∷ [];
}

unfoldable pub with_syscall_filter : SandboxConfig → Text → SandboxConfig
with_syscall_filter config rule = record config {
  syscall_filter = config.syscall_filter ++ rule ∷ [];
}

unfoldable pub to_nspawn_arg : BindMount → Text
to_nspawn_arg mount =
    let arg = codes "--bind=" ++ (mount.host_path ++ b':' ∷ mount.sandbox_path) in
    if mount.writable then arg ++ codes ":rw" else arg

-- An argument with a value, if the value is given.
unfoldable pub optional_arg : Text → Option Text → List Text
optional_arg prefix none = []
optional_arg prefix (some value) = (prefix ++ value) ∷ []

unfoldable pub network_args : SandboxConfig → List Text
network_args config = if config.network_isolation then codes "--private-network" ∷ [] else []

unfoldable pub user_args : SandboxConfig → List Text
unfolding optional_arg
user_args config =
    if config.user_namespace
    then codes "--private-users"
      ∷ (optional_arg (codes "--private-users-uid=") config.uid_map
          ++ optional_arg (codes "--private-users-gid=") config.gid_map)
    else []

unfoldable pub capability_args : List Text → List Text
capability_args [] = []
capability_args (cap ∷ caps) = (codes "--drop-capability=" ++ join (codes ",") (cap ∷ caps)) ∷ []

unfoldable pub filter_args : List Text → List Text
filter_args [] = []
filter_args (rule ∷ rules) = (codes "--system-call-filter=" ++ rule) ∷ filter_args rules

unfoldable pub add_isolation_args : SandboxConfig → List Text
unfolding network_args user_args capability_args filter_args
add_isolation_args config =
    network_args config
    ++ (user_args config
        ++ (capability_args config.drop_capabilities ++ filter_args config.syscall_filter))

unfoldable pub mount_args : List BindMount → List Text
unfolding to_nspawn_arg
mount_args [] = []
mount_args (m ∷ ms) = to_nspawn_arg m ∷ mount_args ms

unfoldable pub env_args : List (Text × Text) → List Text
env_args [] = []
env_args ((key, value) ∷ vars) = (codes "--setenv=" ++ (key ++ b'=' ∷ value)) ∷ env_args vars

-- The arguments of the command, in order.
unfoldable pub build_nspawn_command : SandboxConfig → List Text
unfolding add_isolation_args mount_args env_args
build_nspawn_command config =
    (codes "--directory=" ++ config.rootfs)
    ∷ codes "--quiet"
    ∷ (codes "--chdir=" ++ config.working_dir)
    ∷ (mount_args config.bind_mounts
        ++ (add_isolation_args config
            ++ (optional_arg (codes "--property=MemoryMax=") config.memory_limit
                ++ (optional_arg (codes "--property=CPUQuota=") config.cpu_quota
                    ++ env_args config.env_vars))))

unfoldable pub build_interactive_command : SandboxConfig → List Text
unfolding add_isolation_args mount_args env_args
build_interactive_command config =
    (codes "--directory=" ++ config.rootfs)
    ∷ (codes "--chdir=" ++ config.working_dir)
    ∷ (mount_args config.bind_mounts ++ (add_isolation_args config ++ env_args config.env_vars))

-- The command of `run_phase`: the script is the last argument.
unfoldable pub phase_command : SandboxConfig → Text → List Text
unfolding build_nspawn_command
phase_command config script =
    build_nspawn_command config
    ++ codes "--" ∷ codes "/bin/bash" ∷ codes "-e" ∷ codes "-c" ∷ script ∷ []
