-- ===== src/Store/Digest.antt =====
-- ribosome/crates/ribosome-store/src/digest.rs: `Sha256Digest`, its hexadecimal form and its parser.
pub mod Hex
pub mod RoundTrip
pub mod Accepts
use lysine_os.Base.{
  ℕ, zero, suc, ◌+◌, ◌-◌, ◌*◌, ◌/◌, ◌%◌, ◌<◌, Bool, true, false, ◌&&◌, Option, none, some, List, [],
  ◌∷◌, ◌++◌, ◌≡◌, refl, Text, codes, strip_prefix, Result, ok, err, ◌>>=◌, if◌then◌else◌, ltb, leb,
  ◌==◌, length, All, text_eq,
}
use lysine_os.Base.Decimal.{format_nat}

-- The bytes of a digest. `[u8; 32]` has 32 of them, each below 256.
abbrev pub Sha256Digest : Type 0
Sha256Digest = List ℕ

abbrev pub IsDigest : Sha256Digest → Type 0
IsDigest d = (length d ≡ 32) × All (λ b. b < 256) d

-- `StoreError`, and the panic of a slice at no character boundary.
pub data Fault : Type 0 where
  io : Text → Fault
  invalid_digest : Text → Fault
  hash_mismatch : Text → Text → Fault
  gc_failed : Text → Fault
  panic : Fault

unfoldable pub hex_digit : ℕ → ℕ
hex_digit n = if ltb n 10 then b'0' + n else b'a' + (n - 10)

-- `{byte:02x}`
unfoldable pub hex_byte : ℕ → Text
unfolding hex_digit
hex_byte b = hex_digit (b / 16) ∷ hex_digit (b % 16) ∷ []

-- `LowerHex for Sha256Digest`
unfoldable pub hex : Sha256Digest → Text
unfolding hex_byte
hex [] = []
hex (b ∷ d) = hex_byte b ++ hex d

unfoldable pub to_prefixed : Sha256Digest → Text
unfolding hex
to_prefixed d = codes "sha256:" ++ hex d

-- The directory of an object, and its file name there.
unfoldable pub shard : Sha256Digest → Text
unfolding hex_byte
shard [] = []
shard (b ∷ d) = hex_byte b

unfoldable pub file_name : Sha256Digest → Text
unfolding hex
file_name [] = []
file_name (b ∷ d) = hex d

-- `char::to_digit(16)`
unfoldable pub to_digit : ℕ → Option ℕ
to_digit c =
    if leb b'0' c && leb c b'9'
    then some (c - b'0')
    else if leb b'a' c && leb c b'f'
    then some (c - b'a' + 10)
    else if leb b'A' c && leb c b'F'
    then some (c - b'A' + 10)
    else none

-- `u8::from_str_radix(s, 16)` of a slice of two bytes, which has one or two characters. A leading
-- `+` is accepted before a digit.
unfoldable pub from_str_radix : Text → Option ℕ
unfolding to_digit
from_str_radix [] = none
from_str_radix (a ∷ []) = to_digit a
from_str_radix (a ∷ b ∷ _) = if a == b'+' then to_digit b else elim (to_digit a) [
  | none ↦ none
  | some x ↦ elim (to_digit b) [ none ↦ none | some y ↦ some (x * 16 + y) ]
]

-- The length of a character in UTF-8, and of a text.
unfoldable pub utf8_len : ℕ → ℕ
utf8_len c = if ltb c 0x80 then 1 else if ltb c 0x800 then 2 else if ltb c 0x10000 then 3 else 4

unfoldable pub byte_len : Text → ℕ
unfolding utf8_len
byte_len [] = 0
byte_len (c ∷ s) = utf8_len c + byte_len s

-- `&hex[i * 2..i * 2 + 2]` and the text behind it. A slice that ends inside a character panics.
unfoldable pub slice_pair : Text → Option (Text × Text)
unfolding utf8_len
slice_pair [] = none
slice_pair (c ∷ []) = if utf8_len c == 2 then some (c ∷ [], []) else none
slice_pair (c ∷ d ∷ s) =
    if utf8_len c == 2
    then some (c ∷ [], d ∷ s)
    else if utf8_len c == 1 && utf8_len d == 1
    then some (c ∷ d ∷ [], s)
    else none

unfoldable pub invalid_hex : ℕ → Text
invalid_hex i =
    codes "invalid hex at position " ++ (format_nat i ++ codes ": invalid digit found in string")

-- The loop `for i in 0..32`, with `n` rounds left.
unfoldable pub parse_loop : ℕ → Text → Result Fault Sha256Digest
unfolding slice_pair from_str_radix
parse_loop zero s = ok []
parse_loop (suc n) s = elim (slice_pair s) [
  | none ↦ err panic
  | some (pair, s') ↦ elim (from_str_radix pair) [
    | none ↦ err (invalid_digest (invalid_hex ((31 - n) * 2)))
    | some b ↦ (parse_loop n s' >>= λ d. ok (b ∷ d))
  ]
]

-- `s.strip_prefix("sha256:").unwrap_or(s)`
unfoldable pub strip_scheme : Text → Text
unfolding strip_prefix
strip_scheme s = elim (strip_prefix (codes "sha256:") s) [ none ↦ s | some r ↦ r ]

unfoldable pub parse : Text → Result Fault Sha256Digest
unfolding parse_loop strip_scheme byte_len
parse s =
    let hex = strip_scheme s in
    if byte_len hex == 64
    then parse_loop 32 hex
    else err
        (invalid_digest (codes "expected 64 hex characters, got " ++ format_nat (byte_len hex)))
