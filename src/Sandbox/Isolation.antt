-- ===== src/Sandbox/Isolation.antt =====
-- What is isolated in the commands of a sandbox (ribosome-sandbox/src/sandbox.rs).
use lysine_os.Base.{true, List, [], ◌∷◌, ◌++◌, ◌≡◌, refl, inl, inr, Text, codes, Elem}
use lysine_os.Sandbox.{
  SandboxConfig, network_args, user_args, add_isolation_args, mount_args, build_nspawn_command,
  build_interactive_command,
}

Elem-after : (a : Text) (xs ys : List Text) → Elem a ys → Elem a (xs ++ ys)
Elem-after a [] ys h = h
Elem-after a (x ∷ xs) ys h = inr (Elem-after a xs ys h)

Elem-before : (a : Text) (xs ys : List Text) → Elem a xs → Elem a (xs ++ ys)
Elem-before a [] ys h = absurd h
Elem-before a (x ∷ xs) ys (inl e) = inl e
Elem-before a (x ∷ xs) ys (inr m) = inr (Elem-before a xs ys m)

-- Every isolation argument is in both commands.
pub Elem-add_isolation_args :
    (config : SandboxConfig) (a : Text)
    → Elem a (add_isolation_args config)
    → Elem a (build_nspawn_command config) × Elem a (build_interactive_command config)
unfolding build_nspawn_command build_interactive_command
Elem-add_isolation_args config a h = (
  inr (
      inr (
        inr (
          Elem-after a (mount_args config.bind_mounts) _
            (Elem-before a (add_isolation_args config) _ h)))),
  inr (
      inr (
        Elem-after a (mount_args config.bind_mounts) _
          (Elem-before a (add_isolation_args config) _ h))),
)

-- With network isolation both commands have a private network; with a user namespace they have
-- private users.
pub isolation_is_passed :
    (config : SandboxConfig)
    → (config.network_isolation ≡ true
        → Elem (codes "--private-network") (build_nspawn_command config)
          × Elem (codes "--private-network") (build_interactive_command config))
      × (config.user_namespace ≡ true
          → Elem (codes "--private-users") (build_nspawn_command config)
            × Elem (codes "--private-users") (build_interactive_command config))
unfolding add_isolation_args network_args user_args
isolation_is_passed config = (
  (λ h. Elem-add_isolation_args config (codes "--private-network") (rw h (inl refl))),
  λ h.
      Elem-add_isolation_args config (codes "--private-users")
        (Elem-after (codes "--private-users") (network_args config) _ (rw h (inl refl))),
)
