-- ===== src/Base/Lines.antt =====
-- `str::lines`, and `str::starts_with` with a character.
use mathlib.Core.Bool.{Bool, false}
use mathlib.Core.Path.{◌≡◌, refl, ap}
use mathlib.Core.List.{List, [], ◌∷◌, ◌++◌}
use Prim.Native.Nat.{ℕ}
use native.Mathlib.Omega.{arith}
use lysine_os.Base.Tests.{◌==◌, if◌then◌else◌}
use lysine_os.Base.Texts.{Text, is_empty, split}
use lysine_os.Base.Lists.{All}
use lysine_os.Base.Pieces.{Lacks, split-append}

unfoldable pub starts_with_char : ℕ → Text → Bool
starts_with_char a [] = false
starts_with_char a (c ∷ s) = c == a

-- The line without the carriage return at its end, if there is one.
unfoldable pub strip_cr : Text → Text
strip_cr [] = []
strip_cr (c ∷ []) = if c == 13 then [] else c ∷ []
strip_cr (c ∷ d ∷ s) = c ∷ strip_cr (d ∷ s)

-- The lines of the pieces between line feeds: a last empty piece is no line.
unfoldable pub lines_of : Text → List Text → List Text
unfolding strip_cr is_empty
lines_of p [] = if is_empty p then [] else p ∷ []
lines_of p (q ∷ ps) = strip_cr p ∷ lines_of q ps

unfoldable pub lines : Text → List Text
unfolding split lines_of
lines s = lines_of (split b'\n' s).0 (split b'\n' s).1

-- The text of some lines, each with a line feed behind it.
unfoldable pub unlines : List Text → Text
unlines [] = []
unlines (t ∷ ts) = t ++ b'\n' ∷ unlines ts

-- A line that has no line feed, and no carriage return at its end.
abbrev pub IsLine : Text → Type 0
IsLine t = Lacks b'\n' t × (strip_cr t ≡ t)

-- Lines that are written with a line feed each are read back.
pub lines-unlines : (ts : List Text) → All IsLine ts → lines (unlines ts) ≡ ts
unfolding lines unlines
lines-unlines [] h = unfold split is_empty in refl
lines-unlines (t ∷ ts) ((lacks, plain), h) =
    rw (split-append b'\n' t (unlines ts) lacks, lines_of, plain)
      (ap (λ r. t ∷ r) (lines-unlines ts h))

-- A text that ends with a character other than the carriage return is not cut.
pub strip_cr-last : (s : Text) (c : ℕ) → (c == 13) ≡ false → strip_cr (s ++ c ∷ []) ≡ s ++ c ∷ []
unfolding strip_cr
strip_cr-last [] c h = ground arith
strip_cr-last (a ∷ []) c h = ground arith
strip_cr-last (a ∷ b ∷ s) c h = ap (λ r. a ∷ r) (strip_cr-last (b ∷ s) c h)
