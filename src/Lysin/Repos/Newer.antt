-- ===== src/Lysin/Repos/Newer.antt =====
-- What the look-ups find (lysin/src/ops/install.rs and update.rs).
use lysine_os.Base.{
  ℕ, true, false, none, some, List, [], ◌∷◌, ◌≡◌, refl, sym, ◌∙◌, inl, inr, arith, Text, ok, All,
  Option-cases, Bool-cases,
}
use lysine_os.Repository.Index.{IndexEntry, RepositoryIndex, find}
use lysine_os.Repository.Index.Laws.{IsIndexed}
use lysine_os.Lysin.Repos.{
  RepoAnswer, absent, broken, loaded, Repo, find_package_in_repos, is_update, find_newer_version,
}

-- Every index that was read is in order.
abbrev pub AllIndexed : List Repo → Type 0
AllIndexed repos =
    All (λ repo. (index : RepositoryIndex) → repo.answer ≡ loaded index → IsIndexed index) repos

-- A repository offers the entry under the name.
abbrev pub Offers : Text → IndexEntry → Repo → Type 0
Offers name entry repo =
    (index : RepositoryIndex) × (repo.answer ≡ loaded index) × (find index name ≡ some entry)

data AnswerCase (a : RepoAnswer) : Type 0 where
  absent_case : a ≡ absent → AnswerCase a
  broken_case : (e : Text) → a ≡ broken e → AnswerCase a
  loaded_case : (index : RepositoryIndex) → a ≡ loaded index → AnswerCase a

RepoAnswer-cases : (a : RepoAnswer) → AnswerCase a
RepoAnswer-cases absent = absent_case refl
RepoAnswer-cases (broken e) = broken_case e refl
RepoAnswer-cases (loaded index) = loaded_case index refl

loaded_eq : {i j : RepositoryIndex} → loaded i ≡ loaded j → i ≡ j
loaded_eq e = cc

found_name :
    (index : RepositoryIndex)
    → IsIndexed index
    → (name : Text) (entry : IndexEntry) → find index name ≡ some entry
    → entry.name ≡ name
unfolding find
found_name index h name entry f = h.keyed name entry f

-- The entry that `find_package_in_repos` gives has the name that was asked for.
pub find_package_in_repos-name :
    (name : Text) (repos : List Repo) (entry : IndexEntry) (root : Text)
    → AllIndexed repos
    → find_package_in_repos name repos ≡ ok (entry, root)
    → entry.name ≡ name
unfolding find_package_in_repos
find_package_in_repos-name name [] entry root h e = absurd (ground arith)
find_package_in_repos-name name (repo ∷ repos) entry root (h, hs) e =
    let later = λ (q : find_package_in_repos name repos ≡ ok (entry, root)).
      find_package_in_repos-name name repos entry root hs q in
    elim (RepoAnswer-cases repo.answer) [
      | absent_case q ↦ later (rw (q, find_package_in_repos) at e)
      | broken_case x q ↦ absurd (ground (arith, rw (q, find_package_in_repos) at e))
      | loaded_case index q ↦ elim (Option-cases (find index name)) [
        | inl n ↦ later (rw (q, find_package_in_repos, n) at e)
        | inr (found, n) ↦ ground (
          arith,
          rw (q, find_package_in_repos, n) at e,
          found_name index (h index q) name found n,
        )
      ]
    ]

pub find_newer_version_sound :
    (name version : Text) (release : ℕ) (repos : List Repo) (entry : IndexEntry) (root : Text)
    → AllIndexed repos
    → find_newer_version name version release repos ≡ ok (some (entry, root))
    → (entry.name ≡ name) × (is_update entry version release ≡ true)
unfolding find_newer_version
find_newer_version_sound name version release [] entry root h e = absurd (ground arith)
find_newer_version_sound name version release (repo ∷ repos) entry root (h, hs) e =
    let later = λ (q : find_newer_version name version release repos ≡ ok (some (entry, root))).
      find_newer_version_sound name version release repos entry root hs q in
    elim (RepoAnswer-cases repo.answer) [
      | absent_case q ↦ later (rw (q, find_newer_version) at e)
      | broken_case x q ↦ absurd (ground (arith, rw (q, find_newer_version) at e))
      | loaded_case index q ↦ elim (Option-cases (find index name)) [
        | inl n ↦ later (rw (q, find_newer_version, n) at e)
        | inr (found, n) ↦ elim (Bool-cases (is_update found version release)) [
          | inl u ↦ ground (
            arith,
            rw (q, find_newer_version, n, u) at e,
            found_name index (h index q) name found n,
            u,
          )
          | inr u ↦ later (rw (q, find_newer_version, n, u) at e)
        ]
      ]
    ]

pub find_newer_version-none :
    (name version : Text) (release : ℕ) (repos : List Repo)
    → find_newer_version name version release repos ≡ ok none
    → All
        (λ repo.
          (index : RepositoryIndex)
          → repo.answer ≡ loaded index
          → (entry : IndexEntry) → find index name ≡ some entry
          → is_update entry version release ≡ false)
        repos
unfolding find_newer_version
find_newer_version-none name version release [] e = tt
find_newer_version-none name version release (repo ∷ repos) e =
    let later = λ (q : find_newer_version name version release repos ≡ ok none).
      find_newer_version-none name version release repos q in
    elim (RepoAnswer-cases repo.answer) [
      | absent_case q ↦ (
        (λ index l entry f. absurd (ground (arith, q, l))),
        later (rw (q, find_newer_version) at e),
      )
      | broken_case x q ↦ absurd (ground (arith, rw (q, find_newer_version) at e))
      | loaded_case index q ↦ elim (Option-cases (find index name)) [
        | inl n ↦ (
          (λ other l entry f. absurd (differ (sym q ∙ l) n f)),
          later (rw (q, find_newer_version, n) at e),
        )
        | inr (found, n) ↦ elim (Bool-cases (is_update found version release)) [
          | inl u ↦ absurd (ground (arith, rw (q, find_newer_version, n, u) at e))
          | inr u ↦ (
            (λ other l entry f. same (sym q ∙ l) n f u),
            later (rw (q, find_newer_version, n, u) at e),
          )
        ]
      ]
    ]
  where
    differ :
        {i j : RepositoryIndex} {entry : IndexEntry}
        → loaded i ≡ loaded j
        → find i name ≡ none
        → find j name ≡ some entry
        → ⊥
    differ l n f = ground (arith, loaded_eq l, n, f)

    same :
        {i j : RepositoryIndex} {found entry : IndexEntry}
        → loaded i ≡ loaded j
        → find i name ≡ some found
        → find j name ≡ some entry
        → is_update found version release ≡ false
        → is_update entry version release ≡ false
    same l n f u = ground (arith, loaded_eq l, n, f, u)
