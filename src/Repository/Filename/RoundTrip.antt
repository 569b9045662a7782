-- ===== src/Repository/Filename/RoundTrip.antt =====
-- The fields of a package are read back from the name of its file
-- (`parse_prot_filename` of ribosome-repository/src/repository.rs).
use lysine_os.Base.{
  ℕ, suc, ◌+◌, ◌^◌, ◌<◌, Bool, true, false, ◌&&◌, none, some, [], ◌∷◌, ◌++◌, ◌≡◌, refl, ◌∙◌, ap,
  arith, Text, if◌then◌else◌, ◌==◌, ltb, length, Lacks, ◌≢◌, append_assoc,
}
use lysine_os.Base.Decimal.{format_nat, parse_uint-format, format-Lacks, is_digit}
use lysine_os.Repository.Filename.{
  rsplit_once, take, drop, starts_numeric, last_split, extract_name, extract_version,
  release_or_one, parse_prot_filename, package_stem,
}

rsplit_once-Lacks : (sep : ℕ) (s : Text) → Lacks sep s → rsplit_once sep s ≡ none
unfolding rsplit_once
rsplit_once-Lacks sep [] h = refl
rsplit_once-Lacks sep (c ∷ s) h = ground (arith, rsplit_once-Lacks sep s)

rsplit_once-append :
    (sep : ℕ) (p s : Text) → Lacks sep s → rsplit_once sep (p ++ sep ∷ s) ≡ some (p, s)
unfolding rsplit_once
rsplit_once-append sep [] s h = rw (rsplit_once-Lacks sep s h, rsplit_once) (ground arith)
rsplit_once-append sep (c ∷ p) s h = rw (rsplit_once-append sep p s h, rsplit_once) refl

take-length : (p s : Text) → take (length p) (p ++ s) ≡ p
unfolding take
take-length [] s = refl
take-length (c ∷ p) s = ap (λ r. c ∷ r) (take-length p s)

drop-length : (p : Text) (c : ℕ) (s : Text) → drop (suc (length p)) (p ++ c ∷ s) ≡ s
unfolding drop
drop-length [] c s = refl
drop-length (d ∷ p) c s = drop-length p c s

module _ (is_numeric : ℕ → Bool) where
  -- No `-` of the text stands before a numeric character.
  unfoldable pub splits : Text → Bool
  splits [] = false
  splits (c ∷ s) =
      let rest = splits s in if c == b'-' && starts_numeric is_numeric s then true else rest

  last_split-none :
      (i last : ℕ) (s : Text) → splits s ≡ false → last_split is_numeric i last s ≡ last
  unfolding last_split splits
  last_split-none i last [] h = refl
  last_split-none i last (c ∷ s) h = ground (arith, h, last_split-none (suc i) last s)

  last_split-append :
      (i last : ℕ) (p s : Text)
      → starts_numeric is_numeric s ≡ true
      → splits s ≡ false
      → last_split is_numeric i last (p ++ b'-' ∷ s) ≡ i + length p
  unfolding last_split
  last_split-append i last [] s h k =
      rw (h, last_split, last_split-none (suc i) i s k) (omega arith)
  last_split-append i last (c ∷ p) s h k =
      last_split-append (suc i)
        (if c == b'-' && starts_numeric is_numeric (p ++ b'-' ∷ s) then i else last) p s h k
      ∙ (omega arith)

  extract-append :
      (p s : Text)
      → p ≢ []
      → starts_numeric is_numeric s ≡ true
      → splits s ≡ false
      → (extract_name is_numeric (p ++ b'-' ∷ s) ≡ p)
        × (extract_version is_numeric (p ++ b'-' ∷ s) ≡ s)
  unfolding extract_name extract_version
  extract-append [] s n h k = absurd (n refl)
  extract-append (c ∷ p) s n h k =
      let split : last_split is_numeric 0 0 ((c ∷ p) ++ b'-' ∷ s) ≡ suc (length p) =
        last_split-append 0 0 (c ∷ p) s h k ∙ omega arith in
      let positive : ltb 0 (suc (length p)) ≡ true = ground arith in
      rw (split, positive) (take-length (c ∷ p) (b'-' ∷ s), drop-length (c ∷ p) b'-' s)

  -- The name, the version, the release and the architecture are read back from the name of a
  -- package's file, if the name is not empty, the version begins with a numeric character and has
  -- no `-` before another, the release is a `u32`, and the architecture has no `-`.
  pub parse_prot_filename-package_stem :
      (name version : Text) (release : ℕ) (arch : Text)
      → name ≢ []
      → starts_numeric is_numeric version ≡ true
      → splits version ≡ false
      → release < 2 ^ 32
      → Lacks b'-' arch
      → parse_prot_filename is_numeric (package_stem name version release arch)
        ≡ record { name = name; version = version; release = release; arch = arch }
  unfolding parse_prot_filename package_stem release_or_one is_digit
  parse_prot_filename-package_stem name version release arch n numeric single fits plain =
      let whole : name ++ b'-' ∷ (version ++ b'-' ∷ (format_nat release ++ b'-' ∷ arch))
          ≡ ((name ++ b'-' ∷ version) ++ b'-' ∷ format_nat release) ++ b'-' ∷ arch =
        simp append_assoc in
      let (ename, eversion) = extract-append name version n numeric single in
      rw
        (
          whole,
          rsplit_once-append b'-' ((name ++ b'-' ∷ version) ++ b'-' ∷ format_nat release) arch
              plain,
          parse_prot_filename,
          rsplit_once-append b'-' (name ++ b'-' ∷ version) (format_nat release)
              (format-Lacks b'-' release refl),
          ename,
          eversion,
          release_or_one,
          parse_uint-format (2 ^ 32) release fits,
        )
        refl
