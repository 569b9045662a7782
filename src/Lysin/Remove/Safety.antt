-- ===== src/Lysin/Remove/Safety.antt =====
-- A removal leaves no package behind whose dependency is gone (lysin/src/ops/remove.rs).
use lysine_os.Base.{
  Elem, All, NotSpace, is_whitespace, trim_start, ◌++◌, ◌≢◌, refl, subst, inl, inr, Bool, true,
  false, none, some, List, [], ◌∷◌, ◌≡◌, sym, ◌∙◌, arith, Text, text_eq, text_eq_iff, text_eq_refl,
  if◌then◌else◌, any, retain, ok,
}
use lysine_os.Lysin.LocalDb.{InstalledPackage, LocalDb, find_package, find, remove, installed_names}
use lysine_os.Lysin.LocalDb.Laws.{names, has_distinct_names, find-remove}
use lysine_os.Lysin.Remove.{
  word, dep_name, depends_on, is_dependent, dependents, System, Removal, is_blocked, remove_package,
}

retain-none :
    (q : Text → Bool) (ns : List Text) (n : Text)
    → retain q ns ≡ []
    → any (text_eq n) ns ≡ true
    → q n ≡ false
unfolding retain
retain-none q [] n e m = absurd (ground arith)
retain-none q (k ∷ ns) n e m = ground (arith, retain-none q ns n, text_eq_iff n k)

find_package-name :
    (ps : List InstalledPackage) (name : Text) (p : InstalledPackage)
    → find_package ps name ≡ some p
    → (p.name ≡ name) × (any (text_eq name) (names ps) ≡ true)
unfolding find_package
find_package-name [] name p e = absurd (ground arith)
find_package-name (q ∷ ps) name p e =
    ground (arith, find_package-name ps name p, text_eq_iff q.name name, text_eq_iff name q.name)

outcome :
    (can_remove : Text → Bool) (saves : Bool) (sys : System) (name : Text) (r : Removal)
    → (remove_package can_remove saves sys name false).1 ≡ ok r
    → ((remove_package can_remove saves sys name false).0.saved ≡ (remove sys.saved name).0)
      × (dependents sys.saved name ≡ [])
unfolding remove_package is_blocked
outcome can_remove saves sys name r done = ground arith

independent :
    (db : LocalDb) (name : Text)
    → dependents db name ≡ []
    → (other : Text) (p : InstalledPackage)
    → (if text_eq name other then none else find db other) ≡ some p
    → depends_on p name ≡ false
unfolding dependents is_dependent find installed_names
independent db name free other p e = ground (
  arith,
  find_package-name db.packages other p,
  text_eq_iff name other,
  text_eq_iff other name,
  retain-none (is_dependent db name) (names db.packages) other free,
)

-- A text of white space, and a text that white space begins or that is empty.
abbrev pub IsSpaces : Text → Type 0
IsSpaces = All (λ c. is_whitespace c ≡ true)

abbrev pub Ends : Text → Type 0
Ends [] = Unit
Ends (c ∷ s) = is_whitespace c ≡ true

-- The first word of the dependency is the name: white space, the name, and nothing or white space
-- behind it.
abbrev pub AsksFor : Text → Text → Type 0
AsksFor dep name =
    (name ≢ [])
    × All NotSpace name
    × ((before : Text) × (after : Text) × IsSpaces before
        × Ends after
        × (dep ≡ before ++ (name ++ after)))

trim_start-IsSpaces : (before s : Text) → IsSpaces before → trim_start (before ++ s) ≡ trim_start s
unfolding trim_start
trim_start-IsSpaces [] s h = refl
trim_start-IsSpaces (c ∷ before) s (w, h) = ground (arith, w, trim_start-IsSpaces before s h)

word-append : (name after : Text) → All NotSpace name → Ends after → word (name ++ after) ≡ name
unfolding word
word-append [] [] h e = refl
word-append [] (c ∷ after) h e = ground (arith, e)
word-append (c ∷ name) after (n, h) e = ground (arith, n, word-append name after h e)

dep_name-AsksFor : (dep name : Text) → AsksFor dep name → dep_name dep ≡ name
unfolding dep_name
dep_name-AsksFor dep [] (some_char, _, _) = absurd (some_char refl)
dep_name-AsksFor dep (c ∷ name) (some_char, (n, h), (before, after, spaces, ends, e)) =
    subst (λ d. dep_name d ≡ c ∷ name) (sym e)
      (rw (dep_name, trim_start-IsSpaces before (c ∷ name ++ after) spaces, starts)
        (word-append (c ∷ name) after (n, h) ends))
  where
    starts : trim_start (c ∷ name ++ after) ≡ c ∷ name ++ after
    starts = unfold trim_start in ground (arith, n)

not-AsksFor :
    (deps : List Text) (name dep : Text)
    → any (λ d. text_eq (dep_name d) name) deps ≡ false
    → Elem dep deps
    → ¬ AsksFor dep name
not-AsksFor [] name dep h m asks = absurd m
not-AsksFor (d ∷ deps) name dep h (inl e) asks = ground (
  arith,
  h,
  text_eq_iff (dep_name d) name,
  subst (λ x. dep_name x ≡ name) e (dep_name-AsksFor dep name asks),
)
not-AsksFor (d ∷ deps) name dep h (inr m) asks =
    not-AsksFor deps name dep (ground (arith, h)) m asks

-- Without `force`, when a removal succeeds and no two installed packages had the same name: the
-- package is not installed any more, every other package is found as before, and none that is still
-- found has a dependency whose first word is the name of the removed package. A dependency is asked
-- for by its first word: one with no white space behind the name, as `glibc>=2.39`, does not count.
pub remove_package_safe :
    (can_remove : Text → Bool) (saves : Bool) (sys : System) (name : Text) (r : Removal)
    → has_distinct_names sys.saved ≡ true
    → (remove_package can_remove saves sys name false).1 ≡ ok r
    → let after = (remove_package can_remove saves sys name false).0.saved in
      (find after name ≡ none)
      × ((other : Text) → text_eq name other ≡ false → find after other ≡ find sys.saved other)
      × ((other : Text) (p : InstalledPackage)
          → find after other ≡ some p
          → (dep : Text) → Elem dep p.depends
          → ¬ AsksFor dep name)
unfolding depends_on
remove_package_safe can_remove saves sys name r unique done =
    let (same, free) = outcome can_remove saves sys name r done in
    let (others, _) = find-remove sys.saved name unique in
    rw same (
      others name ∙ ground (arith, text_eq_refl name),
      (λ other ne. others other ∙ ground (arith, ne)),
      (λ other p e dep m asks.
          not-AsksFor p.depends name dep
            (independent sys.saved name free other p (sym (others other) ∙ e)) m asks),
    )
