-- ===== src/Core/Profile.antt =====
-- ribosome/crates/ribosome-core/src/profile.rs: what is built in each phase of the bootstrap, and
-- how.
use lysine_os.Base.{
  Bool, true, Option, none, some, List, [], ◌∷◌, ◌++◌, ◌≡◌, ◌↔◌, refl, arith, Text, codes, text_eq,
  text_eq→eq, Result, ok, err, if◌then◌else◌,
}

pub record PackageSpec : Type 0 where
  pub name : Text
  pub version : Option Text

unfoldable pub name_only : Text → PackageSpec
name_only name = record { name = name; version = none }

unfoldable pub pinned : Text → Text → PackageSpec
pinned name version = record { name = name; version = some version }

unfoldable pub matches_version : PackageSpec → Text → Bool
matches_version spec mrna_version = elim spec.version [
  | some v ↦ text_eq mrna_version v
  | none ↦ true
]

-- `name@version`, or the name alone.
unfoldable pub print_spec : PackageSpec → Text
print_spec spec = elim spec.version [ some v ↦ spec.name ++ b'@' ∷ v | none ↦ spec.name ]

pub record BuildProfile : Type 0 where
  pub name : Text
  -- The prefix below which a package is installed.
  pub prefix : Text
  pub dest_root : Text
  pub cflags : Text
  pub cxxflags : Text
  pub ldflags : Text
  pub extra_env : List (Text × Text)
  pub cross_target : Option Text

pub data BootstrapPhase : Type 0 where
  cross_toolchain : BootstrapPhase
  temp_tools : BootstrapPhase
  base_system : BootstrapPhase
  kernel : BootstrapPhase

-- `BootstrapPhase::from_str`
unfoldable pub phase_from_str : Text → Result Text BootstrapPhase
phase_from_str s =
    if text_eq s (codes "cross-toolchain")
    then ok cross_toolchain
    else if text_eq s (codes "temp-tools")
    then ok temp_tools
    else if text_eq s (codes "base-system")
    then ok base_system
    else if text_eq s (codes "kernel")
    then ok kernel
    else err (codes "unknown bootstrap phase: " ++ s)

unfoldable pub print_phase : BootstrapPhase → Text
print_phase cross_toolchain = codes "cross-toolchain"
print_phase temp_tools = codes "temp-tools"
print_phase base_system = codes "base-system"
print_phase kernel = codes "kernel"

unfoldable pub lfs_target : Text
lfs_target = codes "x86_64-lysine-linux-gnu"

unfoldable pub bootstrap_base : Text
bootstrap_base = codes "/var/ribosome/bootstrap"

abbrev pub posix_locale : Text × Text
posix_locale = (codes "LC_ALL", codes "POSIX")

abbrev pub base_flags : Text
base_flags = codes "-O2 -pipe -march=x86-64-v3 -mtune=generic -fstack-protector-strong"

-- `base.join` of a relative path is a parameter.
unfoldable pub profile_for_phase : (Text → Text → Text) → BootstrapPhase → Text → BuildProfile
unfolding lfs_target
profile_for_phase join_path cross_toolchain base = record {
  name = codes "cross-toolchain";
  prefix = codes "/tools";
  dest_root = join_path base (codes "tools");
  cflags = [];
  cxxflags = [];
  ldflags = [];
  extra_env = posix_locale ∷ (codes "LFS_TGT", lfs_target) ∷ [];
  cross_target = some lfs_target;
}
profile_for_phase join_path temp_tools base = record {
  name = codes "temp-tools";
  prefix = codes "/tools";
  dest_root = join_path base (codes "tools");
  cflags = [];
  cxxflags = [];
  ldflags = [];
  extra_env = posix_locale ∷ (codes "LFS_TGT", lfs_target) ∷ [];
  cross_target = none;
}
profile_for_phase join_path base_system base = record {
  name = codes "base-system";
  prefix = codes "/usr";
  dest_root = join_path base (codes "sysroot");
  cflags = base_flags;
  cxxflags = base_flags;
  ldflags = codes "-Wl,-O1,--sort-common,--as-needed,-z,relro,-z,now";
  extra_env = posix_locale ∷ [];
  cross_target = none;
}
profile_for_phase join_path kernel base = record {
  name = codes "kernel";
  prefix = codes "/usr";
  dest_root = join_path base (codes "sysroot");
  cflags = [];
  cxxflags = [];
  ldflags = [];
  extra_env = posix_locale ∷ [];
  cross_target = none;
}

-- The packages of a phase, in the order of the build.
unfoldable pub packages_for_phase : BootstrapPhase → List PackageSpec
unfolding name_only
packages_for_phase cross_toolchain =
    name_only (codes "cross-binutils")
    ∷ name_only (codes "cross-gcc")
    ∷ name_only (codes "linux-api-headers")
    ∷ name_only (codes "cross-glibc")
    ∷ name_only (codes "cross-libstdcxx")
    ∷ []
packages_for_phase temp_tools =
    name_only (codes "m4")
    ∷ name_only (codes "ncurses")
    ∷ name_only (codes "bash")
    ∷ name_only (codes "coreutils")
    ∷ name_only (codes "diffutils")
    ∷ name_only (codes "file")
    ∷ name_only (codes "findutils")
    ∷ name_only (codes "gawk")
    ∷ name_only (codes "grep")
    ∷ name_only (codes "gzip")
    ∷ name_only (codes "make")
    ∷ name_only (codes "patch")
    ∷ name_only (codes "sed")
    ∷ name_only (codes "tar")
    ∷ name_only (codes "xz")
    ∷ name_only (codes "binutils")
    ∷ name_only (codes "gcc")
    ∷ []
packages_for_phase base_system =
    name_only (codes "linux-api-headers")
    ∷ name_only (codes "glibc")
    ∷ name_only (codes "zlib")
    ∷ name_only (codes "bzip2")
    ∷ name_only (codes "xz")
    ∷ name_only (codes "zstd")
    ∷ name_only (codes "file")
    ∷ name_only (codes "readline")
    ∷ name_only (codes "m4")
    ∷ name_only (codes "bc")
    ∷ name_only (codes "flex")
    ∷ name_only (codes "bison")
    ∷ name_only (codes "coreutils")
    ∷ name_only (codes "diffutils")
    ∷ name_only (codes "gawk")
    ∷ name_only (codes "findutils")
    ∷ name_only (codes "grep")
    ∷ name_only (codes "bash")
    ∷ name_only (codes "libtool")
    ∷ name_only (codes "gdbm")
    ∷ name_only (codes "gperf")
    ∷ name_only (codes "expat")
    ∷ name_only (codes "inetutils")
    ∷ name_only (codes "less")
    ∷ name_only (codes "perl")
    ∷ name_only (codes "python3")
    ∷ name_only (codes "sed")
    ∷ name_only (codes "shadow")
    ∷ name_only (codes "pkgconf")
    ∷ name_only (codes "ncurses")
    ∷ name_only (codes "attr")
    ∷ name_only (codes "acl")
    ∷ name_only (codes "libcap")
    ∷ name_only (codes "psmisc")
    ∷ name_only (codes "openssl")
    ∷ name_only (codes "kmod")
    ∷ name_only (codes "e2fsprogs")
    ∷ name_only (codes "procps-ng")
    ∷ name_only (codes "util-linux")
    ∷ name_only (codes "systemd")
    ∷ name_only (codes "dbus")
    ∷ name_only (codes "groff")
    ∷ name_only (codes "texinfo")
    ∷ name_only (codes "sudo")
    ∷ name_only (codes "iana-etc")
    ∷ name_only (codes "kbd")
    ∷ name_only (codes "grub")
    ∷ []
packages_for_phase kernel = name_only (codes "linux-kernel") ∷ []

phase-from_str_print : (p : BootstrapPhase) → phase_from_str (print_phase p) ≡ ok p
unfolding phase_from_str print_phase text_eq
phase-from_str_print cross_toolchain = refl
phase-from_str_print temp_tools = refl
phase-from_str_print base_system = refl
phase-from_str_print kernel = refl

-- A phase is read from its name, and from no other text.
pub phase_from_str_iff :
    (s : Text) (p : BootstrapPhase) → (phase_from_str s ≡ ok p) ↔ (s ≡ print_phase p)
unfolding phase_from_str print_phase
phase_from_str_iff s p = (
  (λ h. ground (
    arith,
    h,
    text_eq→eq s (codes "cross-toolchain"),
    text_eq→eq s (codes "temp-tools"),
    text_eq→eq s (codes "base-system"),
    text_eq→eq s (codes "kernel"),
  )),
  λ e. rw e (phase-from_str_print p),
)
