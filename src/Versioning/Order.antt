-- ===== src/Versioning/Order.antt =====
-- The order of versions.
use titan_tyr.Prelude.{◌≡◌, ◌⊎◌, inl, inr, true, false, List, [], ◌∷◌, arith, All, Bool-cases}
use titan_tyr.Versioning.{Version, lt, max_from, same, stable, is_prerelease}

-- No version is below itself.
pub lt_irrefl : (v : Version) → lt v v ≡ false
unfolding lt
lt_irrefl v = ground arith

-- `<` is transitive.
pub lt_trans : (u v w : Version) → lt u v ≡ true → lt v w ≡ true → lt u w ≡ true
unfolding lt
lt_trans u v w h k = ground arith

-- Of two versions one is lower, or they are the same.
pub lt_trichotomy : (v w : Version) → (lt v w ≡ true) ⊎ ((same v w ≡ true) ⊎ (lt w v ≡ true))
unfolding lt same
lt_trichotomy v w = ground arith

-- A release candidate is below its stable version.
pub lt-stable : (v : Version) → is_prerelease v ≡ true → lt v (stable v) ≡ true
unfolding lt stable is_prerelease
lt-stable v h = ground arith

-- What is not above the greatest is below whatever is above that.
pub lt_of_not_lt : (m w v : Version) → lt m w ≡ false → lt m v ≡ true → lt w v ≡ true
unfolding lt
lt_of_not_lt m w v h k = ground arith

abbrev pub Below : Version → Version → Type 0
Below v w = lt w v ≡ true

pub max_from-Below :
    (v best : Version) (vs : List Version)
    → lt (max_from best vs) v ≡ true
    → (lt best v ≡ true) × All (Below v) vs
unfolding max_from
max_from-Below v best [] h = (h, tt)
max_from-Below v best (w ∷ vs) h = elim (Bool-cases (lt best w)) [
  | inl up ↦ let (a, b) = max_from-Below v w vs (rw up at h) in (lt_trans best w v up a, (a, b))
  | inr stay ↦
      let (a, b) = max_from-Below v best vs (rw stay at h) in (a, (lt_of_not_lt best w v stay a, b))
]

pub Below-max_from :
    (v best : Version) (vs : List Version)
    → lt best v ≡ true
    → All (Below v) vs
    → lt (max_from best vs) v ≡ true
unfolding max_from
Below-max_from v best [] h k = h
Below-max_from v best (w ∷ vs) h k = elim (Bool-cases (lt best w)) [
  | inl up ↦ rw up (Below-max_from v w vs k.0 k.1)
  | inr stay ↦ rw stay (Below-max_from v best vs h k.1)
]
