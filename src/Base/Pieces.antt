-- ===== src/Base/Pieces.antt =====
-- How `split`, `split_once` and `trim` act on a text that was put together from pieces.
use lysine_os.Base.Tests.{◌==◌}
use lysine_os.Base.Lists.{All, All-append}
use lysine_os.Base.Texts.{
  Text, is_empty, strip_prefix, find_text, split, split_once, trim, trim_start, is_whitespace,
}
use Prim.Native.Nat.{ℕ}
use mathlib.Core.Bool.{false}
use mathlib.Core.Path.{◌≡◌, refl, sym, ◌∙◌, ap}
use mathlib.Core.Logic.{◌≢◌}
use mathlib.Core.Option.{none, some}
use mathlib.Core.List.{[], ◌∷◌, ◌++◌, reverse, reverse-append, reverse-reverse}
use native.Mathlib.Omega.{arith}

-- No character of the text is `sep`.
abbrev pub Lacks : ℕ → Text → Type 0
Lacks sep = All (λ c. (c == sep) ≡ false)

module _ (sep : ℕ) where
  pub split_once-none : (p : Text) → Lacks sep p → split_once sep p ≡ none
  unfolding split_once
  split_once-none [] h = refl
  split_once-none (c ∷ p) (n, h) = ground (arith, split_once-none p h)

  pub split_once-append : (p s : Text) → Lacks sep p → split_once sep (p ++ sep ∷ s) ≡ some (p, s)
  unfolding split_once
  split_once-append [] s h = ground arith
  split_once-append (c ∷ p) s (n, h) = ground (arith, split_once-append p s h)

  pub split-Lacks : (p : Text) → Lacks sep p → split sep p ≡ (p, [])
  unfolding split
  split-Lacks [] h = refl
  split-Lacks (c ∷ p) (n, h) = ground (arith, split-Lacks p h)

  pub split-append :
      (p s : Text) → Lacks sep p → split sep (p ++ sep ∷ s) ≡ (p, (split sep s).0 ∷ (split sep s).1)
  unfolding split
  split-append [] s h = ground arith
  split-append (c ∷ p) s (n, h) = ground (arith, split-append p s h)

-- The first character is there, and is no white space.
abbrev pub Solid : Text → Type 0
Solid [] = ⊥
Solid (c ∷ s) = is_whitespace c ≡ false

pub Solid-append : (s t : Text) → Solid s → Solid (s ++ t)
Solid-append [] t h = absurd h
Solid-append (c ∷ s) t h = h

trim_start-Solid : (s : Text) → Solid s → trim_start s ≡ s
unfolding trim_start
trim_start-Solid [] h = absurd h
trim_start-Solid (c ∷ s) h = ground arith

-- A text with no white space at its ends is not changed.
pub trim-Solid : (s : Text) → Solid s → Solid (reverse s) → trim s ≡ s
unfolding trim
trim-Solid s h k = rw (trim_start-Solid s h, trim_start-Solid (reverse s) k) (reverse-reverse s)

pub Solid-reverse_append : (s t : Text) → Solid (reverse t) → Solid (reverse (s ++ t))
Solid-reverse_append s t h = rw (reverse-append s t) (Solid-append (reverse t) (reverse s) h)

abbrev pub NotSpace : ℕ → Type 0
NotSpace c = is_whitespace c ≡ false

Solid-of_All : (s : Text) → All NotSpace s → s ≢ [] → Solid s
Solid-of_All [] h n = n refl
Solid-of_All (c ∷ s) h n = h.0

All-reverse : (s : Text) → All NotSpace s → All NotSpace (reverse s)
All-reverse [] h = tt
All-reverse (c ∷ s) (n, h) =
    rw (reverse-append (c ∷ []) s)
      (All-append NotSpace (reverse s) (c ∷ []) (All-reverse s h) (n, tt))

-- A text of characters that are no white space is solid at both ends.
pub Solid-All : (s : Text) → All NotSpace s → s ≢ [] → Solid s × Solid (reverse s)
Solid-All s h n = (
  Solid-of_All s h n,
  Solid-of_All (reverse s) (All-reverse s h) (λ e. n (sym (reverse-reverse s) ∙ ap reverse e)),
)

strip_prefix-Lacks : (a : ℕ) (q s : Text) → Lacks a s → strip_prefix (a ∷ q) s ≡ none
unfolding strip_prefix
strip_prefix-Lacks a q [] h = refl
strip_prefix-Lacks a q (c ∷ s) h = ground arith

strip_prefix-Lacks_second : (a b : ℕ) (s : Text) → Lacks b s → strip_prefix (a ∷ b ∷ []) s ≡ none
unfolding strip_prefix
strip_prefix-Lacks_second a b [] h = refl
strip_prefix-Lacks_second a b (c ∷ []) h = ground arith
strip_prefix-Lacks_second a b (c ∷ d ∷ s) h = ground arith

pub strip_prefix-append : (p s : Text) → strip_prefix p (p ++ s) ≡ some s
unfolding strip_prefix
strip_prefix-append [] s = refl
strip_prefix-append (c ∷ p) s = ground (arith, strip_prefix-append p s)

-- A pattern is not found where its first character, or the second of two, does not occur.
pub find_text-Lacks : (a : ℕ) (q s : Text) → Lacks a s → find_text (a ∷ q) s ≡ none
unfolding find_text
find_text-Lacks a q [] h = refl
find_text-Lacks a q (c ∷ s) h =
    ground (arith, strip_prefix-Lacks a q (c ∷ s), find_text-Lacks a q s)

pub find_text-Lacks_second : (a b : ℕ) (s : Text) → Lacks b s → find_text (a ∷ b ∷ []) s ≡ none
unfolding find_text
find_text-Lacks_second a b [] h = refl
find_text-Lacks_second a b (c ∷ s) h =
    ground (arith, strip_prefix-Lacks_second a b (c ∷ s), find_text-Lacks_second a b s)

strip_prefix-head : (a c : ℕ) (q s : Text) → (c == a) ≡ false → strip_prefix (a ∷ q) (c ∷ s) ≡ none
unfolding strip_prefix
strip_prefix-head a c q s h = ground arith

-- A pattern is found at its first character.
pub find_text-append :
    (a : ℕ) (q p s : Text) → Lacks a p → find_text (a ∷ q) (p ++ ((a ∷ q) ++ s)) ≡ some (p, s)
unfolding find_text
find_text-append a q [] s h = rw (strip_prefix-append (a ∷ q) s, find_text)
find_text-append a q (c ∷ p) s h =
    ground (arith, strip_prefix-head a c q (p ++ ((a ∷ q) ++ s)), find_text-append a q p s)

trim_start-space : (s : Text) → Solid s → trim_start (b' ' ∷ s) ≡ s
unfolding trim_start
trim_start-space [] h = absurd h
trim_start-space (c ∷ s) h = ground arith

-- One space at either end is trimmed.
pub trim-space_before : (s : Text) → Solid s → Solid (reverse s) → trim (b' ' ∷ s) ≡ s
unfolding trim
trim-space_before s h k =
    rw (trim_start-space s h, trim_start-Solid (reverse s) k) (reverse-reverse s)

pub trim-space_after : (s : Text) → Solid s → Solid (reverse s) → trim (s ++ b' ' ∷ []) ≡ s
unfolding trim
trim-space_after s h k =
    rw
      (
        trim_start-Solid (s ++ b' ' ∷ []) (Solid-append s (b' ' ∷ []) h),
        reverse-append s (b' ' ∷ []),
        trim_start-space (reverse s) k,
      )
      (reverse-reverse s)

pub is_empty-Solid : (s : Text) → Solid s → is_empty s ≡ false
unfolding is_empty
is_empty-Solid [] h = absurd h
is_empty-Solid (c ∷ s) h = refl
