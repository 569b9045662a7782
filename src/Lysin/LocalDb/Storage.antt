-- ===== src/Lysin/LocalDb/Storage.antt =====
-- `load` and `save` of the database of installed packages (lysin/src/db.rs): a file with one JSON
-- object on each line.
use lysine_os.Base.{
  ◌∙◌, Bool, true, List, [], ◌∷◌, ◌++◌, ◌≡◌, refl, sym, ap, subst, Text, codes, is_empty, trim, All,
  Result, ok, err, ◌>>=◌, if◌then◌else◌, Lacks, Solid-reverse_append, trim-Solid, is_whitespace,
}
use lysine_os.Base.Lines.{lines, unlines, IsLine, lines-unlines, strip_cr, strip_cr-last}
use lysine_os.Lysin.LocalDb.{InstalledPackage, LocalDb}

-- What is used of serde_json, with the message of its error.
pub record PackageJson : Type 0 where
  pub to_string : InstalledPackage → Result Text Text
  pub from_str : Text → Result Text InstalledPackage

-- What stands at the path of the database.
pub data DbFile : Type 0 where
  missing : DbFile
  unreadable : Text → DbFile
  content : Text → DbFile

-- The answers of the system to `save`: whether the directory is made, the temporary file is
-- written, and it is renamed.
pub record DbAnswers : Type 0 where
  pub creates_dir : Bool
  pub writes : Bool
  pub renames : Bool

module _ (json : PackageJson) where
  open json use {to_string, from_str}

  -- The loop of `load`: a malformed line is skipped.
  unfoldable pub load_db_lines : List Text → List InstalledPackage
  load_db_lines [] = []
  load_db_lines (line ∷ rest) =
      let packages = load_db_lines rest in
      if is_empty (trim line)
      then packages
      else elim (from_str (trim line)) [ ok p ↦ p ∷ packages | err e ↦ packages ]

  -- The database in memory after the call, which an error leaves as it was.
  unfoldable pub load_db : LocalDb → DbFile → LocalDb × Result Text (Unit {0})
  unfolding load_db_lines
  load_db db missing = (record db { packages = [] }, ok tt)
  load_db db (unreadable e) = (db, err e)
  load_db db (content text) = (record db { packages = load_db_lines (lines text) }, ok tt)

  unfoldable pub db_content : List InstalledPackage → Result Text Text
  db_content [] = ok []
  db_content (p ∷ ps) =
      (to_string p >>= λ line. db_content ps >>= λ rest. ok (line ++ b'\n' ∷ rest))

  -- The file after the call.
  unfoldable pub save_db : DbAnswers → DbFile → LocalDb → DbFile × Result Text (Unit {0})
  unfolding db_content
  save_db answers file db =
      if answers.creates_dir
      then elim (db_content db.packages) [
        | err e ↦ (file, err e)
        | ok text ↦
            if answers.writes
            then if answers.renames
              then (content text, ok tt)
              else (file, err (codes "cannot rename"))
            else (file, err (codes "cannot write"))
      ]
      else (file, err (codes "no directory"))

-- serde_json writes the package as an object on one line, and reads it back.
pub record IsPrinted (json : PackageJson) (p : InstalledPackage) : Type 0 where
  pub line : Text
  pub inner : Text
  pub printed : json.to_string p ≡ ok line
  pub object : line ≡ b'{' ∷ inner ++ b'}' ∷ []
  pub one_line : Lacks b'\n' line
  pub read_back : json.from_str line ≡ ok p

module _ (json : PackageJson) where
  line-IsLine : (p : InstalledPackage) (w : IsPrinted json p) → IsLine w.line
  line-IsLine p w = (
    w.one_line,
    subst (λ l. strip_cr l ≡ l) (sym w.object) (strip_cr-last (b'{' ∷ w.inner) b'}' refl),
  )

  load_db_lines-IsPrinted :
      (p : InstalledPackage) (w : IsPrinted json p) (ts : List Text)
      → load_db_lines json (w.line ∷ ts) ≡ p ∷ load_db_lines json ts
  unfolding load_db_lines is_empty is_whitespace
  load_db_lines-IsPrinted p w ts =
      let object = b'{' ∷ w.inner ++ b'}' ∷ [] in
      let same : trim object ≡ object =
        trim-Solid object refl (Solid-reverse_append (b'{' ∷ w.inner) (b'}' ∷ []) refl) in
      subst (λ l. json.from_str l ≡ ok p → load_db_lines json (l ∷ ts) ≡ p ∷ load_db_lines json ts)
        (sym w.object) (λ r. rw (same, load_db_lines, r) refl) w.read_back

  db_content-IsPrinted :
      (ps : List InstalledPackage)
      → All (IsPrinted json) ps
      → (ts : List Text) × (db_content json ps ≡ ok (unlines ts))
        × All IsLine ts
        × (load_db_lines json ts ≡ ps)
  unfolding db_content unlines load_db_lines
  db_content-IsPrinted [] h = ([], refl, tt, refl)
  db_content-IsPrinted (p ∷ ps) (w, h) =
      let (ts, printed, are_lines, loads) = db_content-IsPrinted ps h in
      (
        w.line ∷ ts,
        rw (w.printed, db_content, printed) refl,
        (line-IsLine p w, are_lines),
        load_db_lines-IsPrinted p w ts ∙ ap (λ r. p ∷ r) loads,
      )

  -- If serde_json writes the packages as objects on one line and reads them back, and no call
  -- fails, then `save` succeeds, and `load` reads back the packages in their order.
  pub load_db-save_db :
      (file : DbFile) (db other : LocalDb)
      → All (IsPrinted json) db.packages
      → let answers : DbAnswers = record { creates_dir = true; writes = true; renames = true } in
        ((save_db json answers file db).1 ≡ ok tt)
        × (load_db json other (save_db json answers file db).0
            ≡ (record other { packages = db.packages }, ok tt))
  unfolding save_db load_db
  load_db-save_db file db other h =
      let (ts, printed, are_lines, loads) = db_content-IsPrinted db.packages h in
      rw (printed, save_db, lines-unlines ts are_lines, load_db, loads) (refl, refl)
