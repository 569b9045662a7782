-- ===== src/Store/Gc/Objects.antt =====
-- How the collector sees the file of an object (ribosome-store/src/gc.rs).
use lysine_os.Base.{
  ℕ, ◌/◌, ◌%◌, ◌<◌, true, false, List, [], ◌∷◌, ◌++◌, ◌≡◌, arith, codes, ok, if◌then◌else◌,
  find_text-Lacks,
}
use lysine_os.Store.Digest.{Sha256Digest, IsDigest, shard, file_name, hex_byte, hex_digit, byte_len}
use lysine_os.Store.Digest.Hex.{utf8_len-hex_digit, byte_len-hex}
use lysine_os.Store.Digest.RoundTrip.{parse-object_path, shard-append-file_name}
use lysine_os.Store.Vacuole.{ObjectFile}
use lysine_os.Store.Vacuole.Content.{file_name-Lacks}
use lysine_os.Store.Gc.{is_hexdigit, is_shard_name, is_tmp, is_reachable, classify, keep, collect}

is_hexdigit-hex_digit : (n : ℕ) → n < 16 → is_hexdigit (hex_digit n) ≡ true
unfolding is_hexdigit hex_digit
is_hexdigit-hex_digit n h = ground arith

is_shard_name-hex_byte : (b : ℕ) → b < 256 → is_shard_name (hex_byte b) ≡ true
unfolding is_shard_name hex_byte
is_shard_name-hex_byte b h = rw (
  utf8_len-hex_digit (b / 16) (omega arith),
  utf8_len-hex_digit (b % 16) (omega arith),
  is_hexdigit-hex_digit (b / 16) (omega arith),
  is_hexdigit-hex_digit (b % 16) (omega arith),
)

is_shard_name-shard : (d : Sha256Digest) → IsDigest d → is_shard_name (shard d) ≡ true
unfolding shard
is_shard_name-shard [] h = absurd (omega arith)
is_shard_name-shard (b ∷ d) (n, (lt, h)) = is_shard_name-hex_byte b lt

is_tmp-file_name : (d : Sha256Digest) → IsDigest d → is_tmp (file_name d) ≡ false
unfolding is_tmp
is_tmp-file_name d h =
    rw (find_text-Lacks b'.' (codes "tmp") (file_name d) (file_name-Lacks d h), is_tmp)

byte_len-path : (d : Sha256Digest) → IsDigest d → byte_len (shard d ++ file_name d) ≡ 64
byte_len-path d h = rw (shard-append-file_name d) (omega (arith, byte_len-hex d h.1))

-- The file of a digest is kept if the digest is reachable, and is to be collected if not.
pub classify-object :
    (ds : List Sha256Digest) (d : Sha256Digest) (f : ObjectFile)
    → IsDigest d
    → f.dir ≡ shard d
    → f.name ≡ file_name d
    → classify ds f ≡ (if is_reachable ds d then ok keep else ok collect)
unfolding classify
classify-object ds d f h p q =
    rw (
      p,
      q,
      is_shard_name-shard d h,
      is_tmp-file_name d h,
      byte_len-path d h,
      parse-object_path d h,
    )
