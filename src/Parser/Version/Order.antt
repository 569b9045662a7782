-- ===== src/Parser/Version/Order.antt =====
-- The order of versions, and what the five constraints ask (ribosome-parser/src/version.rs).
use lysine_os.Base.{◌<◌, true, not, ◌≡◌, ◌⊎◌, ◌↔◌, arith, text_eq_iff}
use lysine_os.Parser.Version.{
  Version, satisfies, greater_or_equal, less_or_equal, less_than, equal, greater_than,
}

-- The order of the number triples, written out.
abbrev pub Before : Version → Version → Type 0
Before v w =
    (v.major < w.major)
    ⊎ ((v.major ≡ w.major) × ((v.minor < w.minor) ⊎ ((v.minor ≡ w.minor) × (v.patch < w.patch))))

-- `v` satisfies `< w` exactly when its number triple is lexicographically below that of `w`, and
-- `v` satisfies `> w` exactly when the triple of `w` is below that of `v`.
pub satisfies-Before :
    (v w : Version)
    → ((satisfies v (less_than w) ≡ true) ↔ Before v w)
      × ((satisfies v (greater_than w) ≡ true) ↔ Before w v)
unfolding satisfies
satisfies-Before v w = ground arith

-- Each of `>=` and `<` is the negation of the other, and so are `<=` and `>`.
pub satisfies-complement :
    (v w : Version)
    → (satisfies v (greater_or_equal w) ≡ not (satisfies v (less_than w)))
      × (satisfies v (less_or_equal w) ≡ not (satisfies v (greater_than w)))
unfolding satisfies
satisfies-complement v w = ground arith

-- Lower bounds chain: if `u` is at least `v` and `v` is at least `w`, then `u` is at least `w`.
pub satisfies_trans :
    (u v w : Version)
    → satisfies u (greater_or_equal v) ≡ true
    → satisfies v (greater_or_equal w) ≡ true
    → satisfies u (greater_or_equal w) ≡ true
unfolding satisfies
satisfies_trans u v w h k = ground arith

-- `= w` holds exactly when both `>= w` and `<= w` hold and the suffixes agree too: the order
-- does not look at the suffix, the equality does.
pub satisfies-equal :
    (v w : Version)
    → (satisfies v (equal w) ≡ true) ↔ (
        (satisfies v (greater_or_equal w) ≡ true)
        × (satisfies v (less_or_equal w) ≡ true)
        × (v.rest ≡ w.rest))
unfolding satisfies
satisfies-equal v w = ground (arith, text_eq_iff v.rest w.rest)
