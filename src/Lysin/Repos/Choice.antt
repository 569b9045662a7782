-- ===== src/Lysin/Repos/Choice.antt =====
-- When an entry is an update of an installed package, and which updates the look-up finds
-- (`find_newer_version` of lysin/src/ops/update.rs, and lysin/src/ops/mod.rs).
use lysine_os.Base.{
  refl, sym, ◌∙◌, ℕ, ◌<◌, true, false, none, some, List, [], ◌∷◌, ◌≡◌, ◌↔◌, inl, inr, arith, Text,
  text_eq_iff, text_lt, ok, All, Bool-cases, Result-cases,
}
use lysine_os.Parser.Version.{Version, parse, version_lt, satisfies}
use lysine_os.Parser.Version.Order.{Before, satisfies-Before}
use lysine_os.Repository.Index.{IndexEntry, RepositoryIndex, find}
use lysine_os.Lysin.Repos.{loaded, Repo, version_is_newer, is_update, find_newer_version}
use lysine_os.Lysin.Repos.Newer.{AllIndexed, find_newer_version_sound, find_newer_version-none}

-- A version is above another in the order of the number triples; or one of the two is no version,
-- and the first is the greater text.
pub data IsLater (newer current : Text) : Type 0 where
  later_triple :
      (n c : Version)
      → parse newer ≡ ok n
      → parse current ≡ ok c
      → Before c n
      → IsLater newer current
  later_text :
      ((n c : Version) → parse newer ≡ ok n → parse current ≡ ok c → ⊥)
      → text_lt current newer ≡ true
      → IsLater newer current

-- The first version is later; or the two are the same text, and the first release is higher.
pub data IsNewer (new_version : Text) (new_release : ℕ) (version : Text) (release : ℕ)
    : Type 0 where
  newer_version : IsLater new_version version → IsNewer new_version new_release version release
  newer_release :
      new_version ≡ version
      → release < new_release
      → IsNewer new_version new_release version release

version_lt-Before : (v w : Version) → (version_lt v w ≡ true) ↔ Before v w
unfolding satisfies
version_lt-Before v w = (satisfies-Before v w).0

module _ (newer current : Text) where
  data Parses : Type 0 where
    both : (n c : Version) → parse newer ≡ ok n → parse current ≡ ok c → Parses
    some_fails :
        ((n c : Version) → parse newer ≡ ok n → parse current ≡ ok c → ⊥)
        → version_is_newer newer current ≡ text_lt current newer
        → Parses

  Parses-cases : Parses
  unfolding version_is_newer
  Parses-cases = elim (Result-cases (parse newer)) [
    | inr (e, p) ↦
        some_fails (λ n c q r. absurd (ground (arith, p, q))) (rw (p, version_is_newer) refl)
    | inl (n, p) ↦ elim (Result-cases (parse current)) [
      | inr (e, r) ↦
          some_fails (λ m c q k. absurd (ground (arith, r, k))) (rw (p, version_is_newer, r) refl)
      | inl (c, r) ↦ both n c p r
    ]
  ]

  same_version : {v w : Version} → parse newer ≡ ok v → parse newer ≡ ok w → v ≡ w
  same_version p q = cc

  on_triples :
      (n c : Version)
      → parse newer ≡ ok n
      → parse current ≡ ok c
      → version_is_newer newer current ≡ version_lt c n
  unfolding version_is_newer
  on_triples n c p r = rw (p, version_is_newer, r) refl

  version_is_newer-IsLater : (version_is_newer newer current ≡ true) ↔ IsLater newer current
  version_is_newer-IsLater = (to_later Parses-cases, from_later Parses-cases)
    where
      to_later : Parses → version_is_newer newer current ≡ true → IsLater newer current
      to_later (both n c p r) h =
          later_triple n c p r ((version_lt-Before c n).0 (sym (on_triples n c p r) ∙ h))
      to_later (some_fails f q) h = later_text f (sym q ∙ h)

      from_later : Parses → IsLater newer current → version_is_newer newer current ≡ true
      from_later ps (later_triple n c p r b) = on_triples n c p r ∙ (version_lt-Before c n).1 b
      from_later (both n c p r) (later_text f t) = absurd (f n c p r)
      from_later (some_fails g q) (later_text f t) = q ∙ t

-- The code's two tests decide whether the entry is newer.
pub is_update-IsNewer :
    (entry : IndexEntry) (version : Text) (release : ℕ)
    → (is_update entry version release ≡ true) ↔ IsNewer entry.version entry.release version release
unfolding is_update
is_update-IsNewer entry version release = (to_newer, from_newer)
  where
    to_newer :
        is_update entry version release ≡ true → IsNewer entry.version entry.release version release
    to_newer h = elim (Bool-cases (version_is_newer entry.version version)) [
      | inl q ↦ newer_version ((version_is_newer-IsLater entry.version version).0 q)
      | inr q ↦
          let same : entry.version ≡ version =
            ground (arith, h, q, text_eq_iff entry.version version) in
          newer_release same (ground (arith, h, q))
    ]

    from_newer :
        IsNewer entry.version entry.release version release → is_update entry version release ≡ true
    from_newer (newer_version l) =
        ground (arith, (version_is_newer-IsLater entry.version version).1 l)
    from_newer (newer_release e lt) = ground (arith, e, lt, text_eq_iff entry.version version)

-- If the indexes are in order: an entry that `find_newer_version` gives has the name that was asked
-- for and is newer than the installed version and release; and when it gives none, no repository
-- that was read has a newer entry under the name. An entry is newer when its version is above the
-- installed one in the order of the number triples, or is the greater text where one of the two is
-- no version, or when the two versions are the same text and its release is higher.
pub find_newer_version_correct :
    (name version : Text) (release : ℕ) (repos : List Repo)
    → AllIndexed repos
    → ((entry : IndexEntry) (root : Text)
        → find_newer_version name version release repos ≡ ok (some (entry, root))
        → (entry.name ≡ name) × IsNewer entry.version entry.release version release)
      × (find_newer_version name version release repos ≡ ok none
          → All
              (λ repo.
                (index : RepositoryIndex)
                → repo.answer ≡ loaded index
                → (entry : IndexEntry) → find index name ≡ some entry
                → ¬ IsNewer entry.version entry.release version release)
              repos)
find_newer_version_correct name version release repos h = (
  (λ entry root e.
      let (same, u) = find_newer_version_sound name version release repos entry root h e in
      (same, (is_update-IsNewer entry version release).0 u)),
  (λ e. none_newer repos (find_newer_version-none name version release repos e)),
)
  where
    none_newer :
        (rs : List Repo)
        → All
            (λ repo.
              (index : RepositoryIndex)
              → repo.answer ≡ loaded index
              → (entry : IndexEntry) → find index name ≡ some entry
              → is_update entry version release ≡ false)
            rs
        → All
            (λ repo.
              (index : RepositoryIndex)
              → repo.answer ≡ loaded index
              → (entry : IndexEntry) → find index name ≡ some entry
              → ¬ IsNewer entry.version entry.release version release)
            rs
    none_newer [] k = tt
    none_newer (r ∷ rs) (k, ks) = (
      (λ index l entry f n.
          absurd
            (ground (arith, k index l entry f, (is_update-IsNewer entry version release).1 n))),
      none_newer rs ks,
    )
