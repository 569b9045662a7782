-- ===== src/Parser/Validate/Outcome.antt =====
-- The recipes that the parser accepts, and the errors that it reports for the others
-- (ribosome-parser/src/validate.rs and lib.rs).
use lysine_os.Base.{
  Bool, true, false, List, [], ◌∷◌, ◌≡◌, refl, sym, ap, subst, ◌↔◌, inl, inr, arith, Text, Result,
  ok, err, any, retain, Result-cases, Bool-cases,
}
use lysine_os.Parser.Model.{MrnaFile}
use lysine_os.Parser.Issue.{ValidationIssue, is_error, validation}
use lysine_os.Parser.Validate.Format.{Formats}
use lysine_os.Parser.Validate.{
  collect_validation_issues, validate_mrna, apply_validation, parse_mrna,
}
use lysine_os.Parser.Validate.Rules.{Passes}
use lysine_os.Parser.Validate.Accepted.{IsAccepted, checks_iff}

same_recipe : (m n : MrnaFile) → ◌≡◌ {A = Result Text MrnaFile} (ok m) (ok n) → m ≡ n
same_recipe m n e = cc

retain-nil : {A : Type 0} (p : A → Bool) (xs : List A) → any p xs ≡ false → retain p xs ≡ []
unfolding retain
retain-nil p [] h = refl
retain-nil p (x ∷ xs) h = ground (arith, retain-nil p xs)

retain-cons :
    {A : Type 0} (p : A → Bool) (xs : List A)
    → any p xs ≡ true
    → (y : A) × (ys : List A) × (retain p xs ≡ y ∷ ys)
unfolding retain
retain-cons p [] h = absurd (ground arith)
retain-cons p (x ∷ xs) h = elim (Bool-cases (p x)) [
  | inl e ↦ (x, retain p xs, rw (e, retain) refl)
  | inr e ↦ let (y, ys, q) = retain-cons p xs (ground (arith, e, h)) in (y, ys, rw (e, retain) q)
]

module _ (formats : Formats) where
  apply_validation-ok :
      (mrna other : MrnaFile)
      → (apply_validation formats mrna ≡ ok other)
        ↔ ((mrna ≡ other) × Passes (collect_validation_issues formats mrna))
  unfolding apply_validation
  apply_validation-ok mrna other = ground arith

  -- A text is parsed to a recipe exactly when it is the YAML of that recipe, and the recipe keeps the
  -- rules of the format.
  pub parse_mrna_accepts :
      (from_str : Text → Result Text MrnaFile) (content : Text) (mrna : MrnaFile)
      → (parse_mrna formats from_str content ≡ ok mrna)
        ↔ ((from_str content ≡ ok mrna) × IsAccepted formats mrna)
  unfolding parse_mrna
  parse_mrna_accepts from_str content mrna = elim (Result-cases (from_str content)) [
    | inl (m, e) ↦ rw e (
      (λ h.
          let (q, p) = (apply_validation-ok m mrna).0 h in
          (
            ap ok q,
            (checks_iff formats mrna).0
                (subst (λ r. Passes (collect_validation_issues formats r)) q p),
          )),
      (λ (p, accepted).
          let q = same_recipe m mrna p in
          (apply_validation-ok m mrna).1 (
            q,
            subst (λ r. Passes (collect_validation_issues formats r)) (sym q)
                ((checks_iff formats mrna).1 accepted),
          )),
    )
    | inr (x, e) ↦ rw e ((λ h. absurd (ground (arith, h))), (λ (q, _). absurd (ground (arith, q))))
  ]

  reports_all :
      (mrna : MrnaFile)
      → any is_error (collect_validation_issues formats mrna) ≡ true
      → apply_validation formats mrna ≡ err (validation (collect_validation_issues formats mrna))
  unfolding apply_validation
  reports_all mrna e = rw (e, apply_validation) refl

  reports_errors :
      (mrna : MrnaFile)
      → any is_error (collect_validation_issues formats mrna) ≡ true
      → (x : ValidationIssue) × (xs : List ValidationIssue) × (retain is_error
            (collect_validation_issues formats mrna)
          ≡ x ∷ xs)
        × (validate_mrna formats mrna ≡ err (validation (x ∷ xs)))
  unfolding validate_mrna
  reports_errors mrna e =
      let (x, xs, q) = retain-cons is_error (collect_validation_issues formats mrna) e in
      (x, xs, q, rw (q, validate_mrna) refl)

  -- For a text that is the YAML of a recipe: if the recipe breaks a rule of the format, `parse_mrna`
  -- fails with the list of all issues of the recipe, warnings too, and `validate_mrna` with the
  -- errors among them, of which there is at least one; if it keeps the rules, `parse_mrna` gives it
  -- and `validate_mrna` succeeds.
  pub validate_mrna_errors :
      (from_str : Text → Result Text MrnaFile) (content : Text) (mrna : MrnaFile)
      → from_str content ≡ ok mrna
      → (¬ IsAccepted formats mrna
          → (parse_mrna formats from_str content
              ≡ err (validation (collect_validation_issues formats mrna)))
            × ((x : ValidationIssue) × (xs : List ValidationIssue) × (retain is_error
                    (collect_validation_issues formats mrna)
                  ≡ x ∷ xs)
                × (validate_mrna formats mrna ≡ err (validation (x ∷ xs)))))
        × (IsAccepted formats mrna
            → (parse_mrna formats from_str content ≡ ok mrna)
              × (validate_mrna formats mrna ≡ ok tt))
  unfolding parse_mrna
  validate_mrna_errors from_str content mrna yaml =
      let found = collect_validation_issues formats mrna in
      (
        (λ rejected. elim (Bool-cases (any is_error found)) [
          | inl e ↦ (rw (yaml, parse_mrna) (reports_all mrna e), reports_errors mrna e)
          | inr e ↦ absurd (rejected ((checks_iff formats mrna).0 e))
        ]),
        (λ accepted. (
          (parse_mrna_accepts from_str content mrna).1 (yaml, accepted),
          on_pass ((checks_iff formats mrna).1 accepted),
        )),
      )
    where
      on_pass : Passes (collect_validation_issues formats mrna) → validate_mrna formats mrna ≡ ok tt
      on_pass h =
          unfold validate_mrna in
          rw (retain-nil is_error (collect_validation_issues formats mrna) h, validate_mrna) refl
