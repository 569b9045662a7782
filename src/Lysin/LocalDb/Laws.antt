-- ===== src/Lysin/LocalDb/Laws.antt =====
-- What is found in the database after a change (lysin/src/db.rs).
use lysine_os.Base.{
  Bool, true, false, not, ◌&&◌, ◌||◌, none, some, List, [], ◌∷◌, ◌++◌, ◌≡◌, refl, arith, map, Text,
  text_eq, text_eq_iff, text_eq_refl, if◌then◌else◌, any, retain, distinct,
}
use lysine_os.Lysin.LocalDb.{
  InstalledPackage, LocalDb, add, find_package, find, remove_first, remove,
}

abbrev pub names : List InstalledPackage → List Text
names ps = map (λ p. p.name) ps

-- No two installed packages have the same name.
unfoldable pub has_distinct_names : LocalDb → Bool
has_distinct_names db = distinct (names db.packages)

names-kept :
    (ps : List InstalledPackage) (name other : Text)
    → any (text_eq other) (names (retain (λ p. not (text_eq p.name name)) ps))
      ≡ (not (text_eq other name) && any (text_eq other) (names ps))
unfolding retain
names-kept [] name other = ground arith
names-kept (p ∷ ps) name other = ground (
  arith,
  names-kept ps name other,
  text_eq_iff other p.name,
  text_eq_iff p.name name,
  text_eq_iff other name,
)

names-append :
    (ps : List InstalledPackage) (q : InstalledPackage) (other : Text)
    → any (text_eq other) (names (ps ++ q ∷ []))
      ≡ (any (text_eq other) (names ps) || text_eq other q.name)
names-append [] q other = ground arith
names-append (p ∷ ps) q other = ground (arith, names-append ps q other)

append-distinct :
    (ps : List InstalledPackage) (q : InstalledPackage)
    → any (text_eq q.name) (names ps) ≡ false
    → distinct (names ps) ≡ true
    → distinct (names (ps ++ q ∷ [])) ≡ true
unfolding distinct
append-distinct [] q a h = refl
append-distinct (p ∷ ps) q a h = ground (
  arith,
  append-distinct ps q,
  names-append ps q p.name,
  text_eq_iff p.name q.name,
  text_eq_iff q.name p.name,
)

kept-distinct :
    (ps : List InstalledPackage) (name : Text)
    → distinct (names ps) ≡ true
    → distinct (names (retain (λ p. not (text_eq p.name name)) ps)) ≡ true
unfolding distinct retain
kept-distinct [] name h = refl
kept-distinct (p ∷ ps) name h = ground (arith, kept-distinct ps name, names-kept ps name p.name)

find_package-append :
    (ps : List InstalledPackage) (q : InstalledPackage) (other : Text)
    → any (text_eq q.name) (names ps) ≡ false
    → find_package (ps ++ q ∷ []) other
      ≡ (if text_eq q.name other then some q else find_package ps other)
unfolding find_package
find_package-append [] q other a = refl
find_package-append (p ∷ ps) q other a = ground (
  arith,
  find_package-append ps q other,
  text_eq_iff q.name p.name,
  text_eq_iff p.name other,
  text_eq_iff q.name other,
)

find_package-kept :
    (ps : List InstalledPackage) (name other : Text)
    → text_eq name other ≡ false
    → find_package (retain (λ p. not (text_eq p.name name)) ps) other ≡ find_package ps other
unfolding find_package retain
find_package-kept [] name other ne = refl
find_package-kept (p ∷ ps) name other ne = ground (
  arith,
  find_package-kept ps name other,
  text_eq_iff p.name name,
  text_eq_iff p.name other,
  text_eq_iff name other,
)

-- After a package is added it is found under its name, every other name is found as before, and
-- if no two installed packages had the same name, then none have afterwards.
pub find-add :
    (db : LocalDb) (pkg : InstalledPackage)
    → ((other : Text)
        → find (add db pkg) other ≡ (if text_eq pkg.name other then some pkg else find db other))
      × (has_distinct_names db ≡ true → has_distinct_names (add db pkg) ≡ true)
unfolding add find has_distinct_names
find-add db pkg = (
  (λ other. ground (
    arith,
    find_package-append (retain (λ p. not (text_eq p.name pkg.name)) db.packages) pkg other absent,
    find_package-kept db.packages pkg.name other,
  )),
  (λ h.
      append-distinct (retain (λ p. not (text_eq p.name pkg.name)) db.packages) pkg absent
        (kept-distinct db.packages pkg.name h)),
)
  where
    absent :
        any (text_eq pkg.name) (names (retain (λ p. not (text_eq p.name pkg.name)) db.packages))
        ≡ false
    absent = ground (arith, names-kept db.packages pkg.name pkg.name, text_eq_refl pkg.name)

find_package-absent :
    (ps : List InstalledPackage) (name : Text)
    → any (text_eq name) (names ps) ≡ false
    → find_package ps name ≡ none
unfolding find_package
find_package-absent [] name h = refl
find_package-absent (p ∷ ps) name h =
    ground (arith, find_package-absent ps name, text_eq_iff p.name name, text_eq_iff name p.name)

find_package-remove_first :
    (ps : List InstalledPackage) (name other : Text)
    → distinct (names ps) ≡ true
    → find_package (remove_first ps name) other
      ≡ (if text_eq name other then none else find_package ps other)
unfolding find_package remove_first distinct
find_package-remove_first [] name other h = ground arith
find_package-remove_first (p ∷ ps) name other h = ground (
  arith,
  find_package-remove_first ps name other,
  find_package-absent ps other,
  text_eq_iff p.name name,
  text_eq_iff p.name other,
  text_eq_iff name other,
)

names-remove_first :
    (ps : List InstalledPackage) (name other : Text)
    → any (text_eq other) (names ps) ≡ false
    → any (text_eq other) (names (remove_first ps name)) ≡ false
unfolding remove_first
names-remove_first [] name other h = refl
names-remove_first (p ∷ ps) name other h = ground (arith, names-remove_first ps name other)

remove_first-distinct :
    (ps : List InstalledPackage) (name : Text)
    → distinct (names ps) ≡ true
    → distinct (names (remove_first ps name)) ≡ true
unfolding remove_first distinct
remove_first-distinct [] name h = refl
remove_first-distinct (p ∷ ps) name h =
    ground (arith, remove_first-distinct ps name, names-remove_first ps name p.name)

-- If no two installed packages have the same name, then after a removal the removed name is not
-- found, every other name is found as before, and still no two packages have the same name.
pub find-remove :
    (db : LocalDb) (name : Text)
    → has_distinct_names db ≡ true
    → ((other : Text)
        → find (remove db name).0 other ≡ (if text_eq name other then none else find db other))
      × (has_distinct_names (remove db name).0 ≡ true)
unfolding remove find has_distinct_names
find-remove db name h = (
  (λ other. find_package-remove_first db.packages name other h),
  remove_first-distinct db.packages name h,
)
