-- ===== src/Base/Maps.antt =====
-- Hash maps with texts as keys, as association lists.
use mathlib.Core.Path.{◌≡◌, refl}
use mathlib.Core.Option.{Option, none, some}
use mathlib.Core.List.{List, [], ◌∷◌}
use native.Mathlib.Omega.{arith}
use lysine_os.Base.Tests.{if◌then◌else◌}
use lysine_os.Base.Texts.{Text, text_eq, text_eq_iff}

module _ {A : Type 0} where
  unfoldable pub map_get : List (Text × A) → Text → Option A
  map_get [] k = none
  map_get ((n, a) ∷ m) k = let rest = map_get m k in if text_eq k n then some a else rest

  unfoldable pub map_put : List (Text × A) → Text → A → List (Text × A)
  map_put [] k b = (k, b) ∷ []
  map_put ((n, a) ∷ m) k b =
      let rest = map_put m k b in if text_eq k n then (n, b) ∷ m else (n, a) ∷ rest

  pub map_get-map_put :
      (m : List (Text × A)) (k : Text) (b : A) (other : Text)
      → map_get (map_put m k b) other ≡ (if text_eq other k then some b else map_get m other)
  unfolding map_get map_put
  map_get-map_put [] k b other = refl
  map_get-map_put ((n, a) ∷ m) k b other = ground (
    arith,
    map_get-map_put m k b other,
    text_eq_iff other n,
    text_eq_iff k n,
    text_eq_iff other k,
  )
