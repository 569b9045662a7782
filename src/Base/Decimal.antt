-- ===== src/Base/Decimal.antt =====
-- Unsigned decimal numbers: `format!("{n}")` and `str::parse` of an integer below `bound`.
use lysine_os.Base.Tests.{Bool-cases, ltb, leb, ◌==◌, if◌then◌else◌}
use lysine_os.Base.Texts.{Text, is_whitespace}
use lysine_os.Base.Lists.{All, All-weaken}
use lysine_os.Base.Pieces.{Lacks, Solid, NotSpace, Solid-All}
use Prim.Native.Nat.{ℕ, zero, suc, ◌+◌, ◌-◌, ◌*◌, ◌/◌, ◌%◌, ◌<◌}
use mathlib.Core.Bool.{Bool, true, ◌&&◌, false}
use mathlib.Core.Path.{◌≡◌, ◌∙◌}
use mathlib.Core.Logic.{◌≢◌, inl, inr}
use mathlib.Core.Option.{Option, none, some}
use mathlib.Core.List.{[], ◌∷◌, reverse}
use native.Mathlib.Omega.{arith}

digits : ℕ → ℕ → Text → Text
digits zero n out = out
digits (suc f) n out =
    let out' = (b'0' + n % 10) ∷ out in
    let rest = digits f (n / 10) out' in if ltb n 10 then out' else rest

unfoldable pub format_nat : ℕ → Text
unfolding digits
format_nat n = digits (suc n) n []

unfoldable pub is_digit : ℕ → Bool
is_digit c = leb b'0' c && leb c b'9'

-- The loop of `from_str_radix`: a checked multiplication and a checked addition for each digit.
unfoldable pub scan : ℕ → Text → ℕ → Option ℕ
unfolding is_digit
scan bound [] n = some n
scan bound (c ∷ s) n =
    let m = n * 10 + (c - b'0') in
    let rest = scan bound s m in if is_digit c then if ltb m bound then rest else none else none

-- A leading `+` is accepted, and at least one digit is wanted.
unfoldable pub parse_uint : ℕ → Text → Option ℕ
unfolding scan
parse_uint bound [] = none
parse_uint bound (c ∷ []) = if c == b'+' then none else scan bound (c ∷ []) 0
parse_uint bound (c ∷ d ∷ s) = if c == b'+' then scan bound (d ∷ s) 0 else scan bound (c ∷ d ∷ s) 0

abbrev StartsDigit : Text → Type 0
StartsDigit [] = ⊥
StartsDigit (c ∷ s) = is_digit c ≡ true

digits-StartsDigit : (f n : ℕ) (out : Text) → StartsDigit out → StartsDigit (digits f n out)
unfolding digits is_digit
digits-StartsDigit zero n out h = h
digits-StartsDigit (suc f) n out h = elim (Bool-cases (ltb n 10)) [
  | inl e ↦ rw e (ground arith)
  | inr e ↦ rw e (digits-StartsDigit f (n / 10) ((b'0' + n % 10) ∷ out) (ground arith))
]

format-StartsDigit : (n : ℕ) → StartsDigit (format_nat n)
unfolding format_nat digits is_digit
format-StartsDigit n = elim (Bool-cases (ltb n 10)) [
  | inl e ↦ rw e (ground arith)
  | inr e ↦ rw e (digits-StartsDigit n (n / 10) ((b'0' + n % 10) ∷ []) (ground arith))
]

scan-digits :
    (bound f n : ℕ) (out : Text)
    → n < f
    → n < bound
    → scan bound (digits f n out) 0 ≡ scan bound out n
unfolding digits scan
scan-digits bound zero n out h fits = elim h [ ]
scan-digits bound (suc f) n out h fits = elim (Bool-cases (ltb n 10)) [
  | inl e ↦ rw e (ground arith)
  | inr e ↦ rw e (ground (arith, scan-digits bound f (n / 10) ((b'0' + n % 10) ∷ out)))
]

parse-scan : (bound : ℕ) (s : Text) → StartsDigit s → parse_uint bound s ≡ scan bound s 0
unfolding parse_uint is_digit
parse-scan bound [] h = absurd h
parse-scan bound (c ∷ []) h = ground arith
parse-scan bound (c ∷ d ∷ s) h = ground arith

-- What is printed is read back, if it is below the bound of the integer type.
pub parse_uint-format : (bound n : ℕ) → n < bound → parse_uint bound (format_nat n) ≡ some n
unfolding format_nat scan
parse_uint-format bound n h =
    parse-scan bound (format_nat n) (format-StartsDigit n)
    ∙ scan-digits bound (suc n) n [] (omega arith) h

digits-All :
    (f n : ℕ) (out : Text)
    → All (λ c. is_digit c ≡ true) out
    → All (λ c. is_digit c ≡ true) (digits f n out)
unfolding digits is_digit
digits-All zero n out h = h
digits-All (suc f) n out h = elim (Bool-cases (ltb n 10)) [
  | inl e ↦ rw e (ground arith, h)
  | inr e ↦ rw e (digits-All f (n / 10) ((b'0' + n % 10) ∷ out) (ground arith, h))
]

-- A printed number is made of digits.
pub format-All : (n : ℕ) → All (λ c. is_digit c ≡ true) (format_nat n)
unfolding format_nat
format-All n = digits-All (suc n) n [] tt

-- No printed number holds a byte that is no digit.
pub format-Lacks : (sep n : ℕ) → is_digit sep ≡ false → Lacks sep (format_nat n)
unfolding is_digit
format-Lacks sep n h =
    All-weaken (λ c. is_digit c ≡ true) (λ c. (c == sep) ≡ false) (λ c d. ground arith)
      (format_nat n) (format-All n)

digit-NotSpace : (c : ℕ) → is_digit c ≡ true → NotSpace c
unfolding is_digit is_whitespace
digit-NotSpace c h = ground arith

StartsDigit-ne-nil : (s : Text) → StartsDigit s → s ≢ []
StartsDigit-ne-nil [] h = absurd h
StartsDigit-ne-nil (c ∷ s) h = cc

pub format-ne-nil : (n : ℕ) → format_nat n ≢ []
format-ne-nil n = StartsDigit-ne-nil (format_nat n) (format-StartsDigit n)

-- A printed number neither begins nor ends with white space.
pub format-Solid : (n : ℕ) → Solid (format_nat n) × Solid (reverse (format_nat n))
format-Solid n =
    Solid-All (format_nat n)
      (All-weaken (λ c. is_digit c ≡ true) NotSpace digit-NotSpace (format_nat n) (format-All n))
      (format-ne-nil n)
