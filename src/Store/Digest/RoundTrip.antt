-- ===== src/Store/Digest/RoundTrip.antt =====
-- A digest is read back from each of its printed forms (ribosome-store/src/digest.rs).
use lysine_os.Base.{
  ◌/◌, [], ◌∷◌, ◌++◌, ◌≡◌, refl, arith, Text, codes, ok, ◌==◌, Bool-cases, inl, inr,
}
use lysine_os.Store.Digest.{
  Sha256Digest, IsDigest, hex, shard, file_name, to_prefixed, parse, strip_scheme, byte_len,
}
use lysine_os.Store.Digest.Hex.{byte_len-hex, parse_loop-hex, hex_digit-ne, parse_loop-IsDigest}

strip_scheme-hex : (d : Sha256Digest) → IsDigest d → strip_scheme (hex d) ≡ hex d
unfolding strip_scheme hex
strip_scheme-hex [] h = absurd (omega arith)
strip_scheme-hex (b ∷ d) h = ground (arith, hex_digit-ne (b / 16))

parse-eq_loop : (s : Text) (d : Sha256Digest) → IsDigest d → strip_scheme s ≡ hex d → parse s ≡ ok d
unfolding parse
parse-eq_loop s d (n, h) e = rw (e, byte_len-hex d h, n) (parse_loop-hex 32 d n h)

strip_scheme-prefixed : (s : Text) → strip_scheme (codes "sha256:" ++ s) ≡ s
unfolding strip_scheme
strip_scheme-prefixed s = refl

-- The bare hexadecimal form, and the form with the prefix `sha256:`, are parsed to the digest.
pub parse-hex :
    (d : Sha256Digest) → IsDigest d → (parse (hex d) ≡ ok d) × (parse (to_prefixed d) ≡ ok d)
parse-hex d h = (
  parse-eq_loop (hex d) d h (strip_scheme-hex d h),
  unfold to_prefixed in
      parse-eq_loop (codes "sha256:" ++ hex d) d h (strip_scheme-prefixed (hex d)),
)

pub shard-append-file_name : (d : Sha256Digest) → shard d ++ file_name d ≡ hex d
unfolding shard file_name hex
shard-append-file_name [] = refl
shard-append-file_name (b ∷ d) = refl

-- The directory and the file name of an object, joined, are parsed to its digest: the collector
-- can recover the digest from the path.
pub parse-object_path : (d : Sha256Digest) → IsDigest d → parse (shard d ++ file_name d) ≡ ok d
parse-object_path d h = rw (shard-append-file_name d) (parse-hex d h).0

-- Every digest that the parser returns has 32 bytes.
pub parse-IsDigest : (s : Text) {d : Sha256Digest} → parse s ≡ ok d → IsDigest d
unfolding parse
parse-IsDigest s {d} h = elim (Bool-cases (byte_len (strip_scheme s) == 64)) [
  | inl e ↦ parse_loop-IsDigest 32 (strip_scheme s) d (rw (e, parse) at h)
  | inr e ↦ absurd (ground arith)
]
