-- ===== src/Base/Names.antt =====
-- Lists of names in which none is repeated.
use mathlib.Core.Path.{◌≡◌, refl}
use mathlib.Core.Bool.{Bool, true, false, not, ◌&&◌, ◌||◌}
use mathlib.Core.List.{List, [], ◌∷◌, ◌++◌}
use native.Mathlib.Omega.{arith}
use lysine_os.Base.Lists.{any, retain}
use lysine_os.Base.Texts.{Text, text_eq, text_eq_iff}

unfoldable pub distinct : List Text → Bool
distinct [] = true
distinct (n ∷ ns) = not (any (text_eq n) ns) && distinct ns

pub any-push :
    (ns : List Text) (n other : Text)
    → any (text_eq other) (ns ++ n ∷ []) ≡ (any (text_eq other) ns || text_eq other n)
any-push [] n other = ground arith
any-push (k ∷ ns) n other = ground (arith, any-push ns n other)

pub push-distinct :
    (ns : List Text) (n : Text)
    → any (text_eq n) ns ≡ false
    → distinct ns ≡ true
    → distinct (ns ++ n ∷ []) ≡ true
unfolding distinct
push-distinct [] n a h = refl
push-distinct (k ∷ ns) n a h =
    ground (arith, push-distinct ns n, any-push ns n k, text_eq_iff k n, text_eq_iff n k)

pub any-without :
    (ns : List Text) (n other : Text)
    → any (text_eq other) (retain (λ k. not (text_eq k n)) ns)
      ≡ (not (text_eq other n) && any (text_eq other) ns)
unfolding retain
any-without [] n other = ground arith
any-without (k ∷ ns) n other =
    ground
      (arith, any-without ns n other, text_eq_iff other k, text_eq_iff other n, text_eq_iff k n)

pub without-distinct :
    (ns : List Text) (n : Text)
    → distinct ns ≡ true
    → distinct (retain (λ k. not (text_eq k n)) ns) ≡ true
unfolding retain distinct
without-distinct [] n h = refl
without-distinct (k ∷ ns) n h = ground (arith, without-distinct ns n, any-without ns n k)
