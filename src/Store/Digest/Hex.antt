-- ===== src/Store/Digest/Hex.antt =====
-- The hexadecimal form of bytes (ribosome-store/src/digest.rs).
use lysine_os.Base.{
  ℕ, zero, suc, ◌*◌, ◌/◌, ◌%◌, ◌<◌, false, some, [], ◌∷◌, ◌++◌, ◌≡◌, refl, ap, arith, Text, ok,
  length, All, Option-cases, Result-cases, inl, inr, ◌==◌, Lacks,
}
use lysine_os.Store.Digest.{
  Sha256Digest, hex_digit, hex_byte, hex, to_digit, from_str_radix, utf8_len, byte_len, slice_pair,
  parse_loop,
}

to_digit-hex_digit : (n : ℕ) → n < 16 → to_digit (hex_digit n) ≡ some n
unfolding to_digit hex_digit
to_digit-hex_digit n h = ground arith

-- What a hexadecimal digit is not.
hex_digit-plain : (n : ℕ) → n < 16 → (hex_digit n == b'+') ≡ false
unfolding hex_digit
hex_digit-plain n h = ground arith

pub utf8_len-hex_digit : (n : ℕ) → n < 16 → utf8_len (hex_digit n) ≡ 1
unfolding utf8_len hex_digit
utf8_len-hex_digit n h = ground arith

from_str_radix-hex_byte : (b : ℕ) → b < 256 → from_str_radix (hex_byte b) ≡ some b
unfolding from_str_radix hex_byte
from_str_radix-hex_byte b h =
    rw
      (
        hex_digit-plain (b / 16) (omega arith),
        to_digit-hex_digit (b / 16) (omega arith),
        to_digit-hex_digit (b % 16) (omega arith),
      )
      (ap some (omega arith))

slice_pair-hex_byte :
    (b : ℕ) (s : Text) → b < 256 → slice_pair (hex_byte b ++ s) ≡ some (hex_byte b, s)
unfolding slice_pair hex_byte
slice_pair-hex_byte b s h = ground (arith, utf8_len-hex_digit (b / 16), utf8_len-hex_digit (b % 16))

pub byte_len-hex : (d : Sha256Digest) → All (λ b. b < 256) d → byte_len (hex d) ≡ 2 * length d
unfolding hex byte_len
byte_len-hex [] h = refl
byte_len-hex (b ∷ d) (lt, h) =
    ground (arith, utf8_len-hex_digit (b / 16), utf8_len-hex_digit (b % 16), byte_len-hex d h)

parse_loop_step :
    (n : ℕ) (s : Text) {pair s' : Text} {b : ℕ} {d : Sha256Digest}
    → slice_pair s ≡ some (pair, s')
    → from_str_radix pair ≡ some b
    → parse_loop n s' ≡ ok d
    → parse_loop (suc n) s ≡ ok (b ∷ d)
unfolding parse_loop
parse_loop_step n s p q r = ground arith

pub hex-cons : (b : ℕ) (d : Sha256Digest) → hex (b ∷ d) ≡ hex_byte b ++ hex d
unfolding hex
hex-cons b d = refl

pub parse_loop-hex :
    (n : ℕ) (d : Sha256Digest) → length d ≡ n → All (λ b. b < 256) d → parse_loop n (hex d) ≡ ok d
parse_loop-hex zero [] e h = unfold parse_loop hex in refl
parse_loop-hex zero (b ∷ d) e h = absurd (omega arith)
parse_loop-hex (suc n) [] e h = absurd (omega arith)
parse_loop-hex (suc n) (b ∷ d) e (lt, h) = rw (hex-cons b d) (
    parse_loop_step n _ (slice_pair-hex_byte b (hex d) lt) (from_str_radix-hex_byte b lt)
      (parse_loop-hex n d (omega arith) h))

-- No character of a hexadecimal text is another one: not a dot, not a dash.
pub hex-Lacks :
    (c : ℕ)
    → ((n : ℕ) → n < 16 → (hex_digit n == c) ≡ false)
    → (d : Sha256Digest) → All (λ b. b < 256) d
    → Lacks c (hex d)
unfolding hex hex_byte
hex-Lacks c other [] h = tt
hex-Lacks c other (b ∷ d) (lt, h) =
    (other (b / 16) (omega arith), (other (b % 16) (omega arith), hex-Lacks c other d h))

pub hex_digit-ne :
    (n : ℕ) → n < 16 → ((hex_digit n == b'.') ≡ false) × ((hex_digit n == b's') ≡ false)
unfolding hex_digit
hex_digit-ne n h = ground arith

-- What is read from a pair of digits is a byte.
from_str_radix-lt : (s : Text) (b : ℕ) → from_str_radix s ≡ some b → b < 256
unfolding from_str_radix to_digit
from_str_radix-lt [] b h = cc
from_str_radix-lt (a ∷ []) b h = ground arith
from_str_radix-lt (a ∷ c ∷ s) b h = ground arith

parse_loop_inv :
    (n : ℕ) (s : Text) (d : Sha256Digest)
    → parse_loop (suc n) s ≡ ok d
    → (pair s' : Text) × (b : ℕ) × (d' : Sha256Digest) × (from_str_radix pair ≡ some b)
      × (parse_loop n s' ≡ ok d')
      × (d ≡ b ∷ d')
unfolding parse_loop
parse_loop_inv n s d h = elim (Option-cases (slice_pair s)) [
  | inl e ↦ absurd (ground arith)
  | inr ((pair, s'), e) ↦ elim (Option-cases (from_str_radix pair)) [
    | inl e' ↦ absurd (ground arith)
    | inr (b, e') ↦ elim (Result-cases (parse_loop n s')) [
      | inl (d', e'') ↦ (pair, s', b, d', e', e'', ground arith)
      | inr (x, e'') ↦ absurd (ground arith)
    ]
  ]
]

pub parse_loop-IsDigest :
    (n : ℕ) (s : Text) (d : Sha256Digest)
    → parse_loop n s ≡ ok d
    → (length d ≡ n) × All (λ b. b < 256) d
parse_loop-IsDigest zero s d h = unfold parse_loop in ground arith
parse_loop-IsDigest (suc n) s d h =
    let (pair, s', b, d', radix, rest, e) = parse_loop_inv n s d h in
    rw e (cons b d' (from_str_radix-lt pair b radix) (parse_loop-IsDigest n s' d' rest))
  where
    cons :
        (b : ℕ) (d : Sha256Digest)
        → b < 256
        → (length d ≡ n) × All (λ b. b < 256) d
        → (length (b ∷ d) ≡ suc n) × All (λ b. b < 256) (b ∷ d)
    cons b d lt (e, h) = (omega arith, (lt, h))
