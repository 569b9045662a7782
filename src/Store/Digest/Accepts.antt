-- ===== src/Store/Digest/Accepts.antt =====
-- The digest parser accepts every hash that the validation of a recipe accepts
-- (ribosome-store/src/digest.rs and ribosome-parser/src/validate.rs).
use lysine_os.Base.{
  ℕ, zero, suc, ◌+◌, ◌*◌, true, false, Option, none, some, [], ◌∷◌, ◌≡◌, refl, inl, inr,
  Option-cases, arith, Text, all, length, strip_prefix, Result, All, All-weaken, ok, ◌==◌,
}
use lysine_os.Store.Digest.{
  Sha256Digest, parse_loop, slice_pair, from_str_radix, to_digit, byte_len, strip_scheme, parse,
}
use lysine_os.Parser.Model.{MrnaFile}
use lysine_os.Parser.Validate.Format.{Formats, is_hex_digit, IsSha256Hash}
use lysine_os.Parser.Validate.{parse_mrna}
use lysine_os.Parser.Validate.Rules.{Given}
use lysine_os.Parser.Validate.Accepted.{IsSource}
use lysine_os.Parser.Validate.Outcome.{parse_mrna_accepts}

hex-byte_len : (s : Text) → all is_hex_digit s ≡ true → byte_len s ≡ length s
unfolding byte_len is_hex_digit
hex-byte_len [] h = refl
hex-byte_len (c ∷ s) h = ground (arith, hex-byte_len s)

slice_pair-hex :
    (a b : ℕ) (s : Text)
    → is_hex_digit a ≡ true
    → is_hex_digit b ≡ true
    → slice_pair (a ∷ b ∷ s) ≡ some (a ∷ b ∷ [], s)
unfolding slice_pair is_hex_digit
slice_pair-hex a b s ha hb = ground arith

to_digit-hex :
    (c : ℕ) → is_hex_digit c ≡ true → (x : ℕ) × (to_digit c ≡ some x) × ((c == b'+') ≡ false)
unfolding to_digit is_hex_digit
to_digit-hex c h = elim (Option-cases (to_digit c)) [
  | inl e ↦ absurd (ground arith)
  | inr (x, e) ↦ (x, e, ground arith)
]

from_str_radix-hex :
    (a b : ℕ)
    → is_hex_digit a ≡ true
    → is_hex_digit b ≡ true
    → (x : ℕ) × (from_str_radix (a ∷ b ∷ []) ≡ some x)
from_str_radix-hex a b ha hb =
    let (x, ex, plus) = to_digit-hex a ha in
    let (y, ey, _) = to_digit-hex b hb in
    (x * 16 + y, (unfold from_str_radix in rw (plus, ex, ey, from_str_radix) refl))

parse_loop-hex :
    (n : ℕ) (s : Text)
    → length s ≡ 2 * n
    → all is_hex_digit s ≡ true
    → (d : Sha256Digest) × (parse_loop n s ≡ ok d)
unfolding parse_loop
parse_loop-hex zero s l h = ([], refl)
parse_loop-hex (suc n) [] l h = absurd (omega arith)
parse_loop-hex (suc n) (a ∷ []) l h = absurd (omega arith)
parse_loop-hex (suc n) (a ∷ b ∷ s) l h =
    let ha : is_hex_digit a ≡ true = ground arith in
    let hb : is_hex_digit b ≡ true = ground arith in
    let (x, ex) = from_str_radix-hex a b ha hb in
    let (d, ed) = parse_loop-hex n s (omega arith) (ground arith) in
    (x ∷ d, rw (slice_pair-hex a b s ha hb, parse_loop, ex, ed) refl)

-- A text of the form that the validation wants of a source's hash is parsed to a digest.
pub parse-IsSha256Hash : (s : Text) → IsSha256Hash s → (d : Sha256Digest) × (parse s ≡ ok d)
unfolding parse
parse-IsSha256Hash s h =
    let (d, e) = parse_loop-hex 32 h.digits (omega (arith, h.full)) h.hex in
    (d, rw (scheme, hex-byte_len h.digits h.hex, h.full) e)
  where
    scheme : strip_scheme s ≡ h.digits
    scheme = rw h.prefixed (unfold strip_scheme strip_prefix in refl)

-- A recipe that `parse_mrna` returns has only hashes of sources that the digest parser accepts.
pub parse_mrna-hashes :
    (formats : Formats) (from_str : Text → Result Text MrnaFile) (content : Text) (mrna : MrnaFile)
    → parse_mrna formats from_str content ≡ ok mrna
    → All
        (λ source. Given source.hash (λ hash. (d : Sha256Digest) × (parse hash ≡ ok d)))
        mrna.sources
parse_mrna-hashes formats from_str content mrna parsed =
    let accepted = ((parse_mrna_accepts formats from_str content mrna).0 parsed).1 in
    All-weaken (IsSource formats)
      (λ source. Given source.hash (λ hash. (d : Sha256Digest) × (parse hash ≡ ok d)))
      (λ source ok_source. given source.hash ok_source.hash) mrna.sources accepted.sources.1
  where
    given :
        (hash : Option Text)
        → Given hash IsSha256Hash
        → Given hash (λ h. (d : Sha256Digest) × (parse h ≡ ok d))
    given none h = tt
    given (some hash) h = parse-IsSha256Hash hash h
