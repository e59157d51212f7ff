-- ===== src/Release/Version/Bump.antt =====
-- The order of versions, the maximum, and the bump.
use telemetry_platform.Base.{true, false, List, [], ◌∷◌, ◌≡◌, arith, All, Bool-cases, inl, inr}
use telemetry_platform.Base.Int.{ℤ, ltz, eqz, add_one, add_one-parts}
use telemetry_platform.Release.Version.{
  BumpType, major_bump, minor_bump, patch_bump, Semver, lt_rest, lt_semver, max_semver, apply_bump,
}

-- Of two numbers that are neither above, one more of the first is above the second.
ltz-add_one : (v w : ℤ) → ltz v w ≡ false → ltz w (add_one v) ≡ true
ltz-add_one v w h = ground (arith, add_one-parts v)

ltz-of_ne : (v w : ℤ) → ltz v w ≡ false → eqz v w ≡ false → ltz w v ≡ true
ltz-of_ne v w h k = ground arith

eqz_sym : (v w : ℤ) → eqz v w ≡ true → eqz w v ≡ true
eqz_sym v w h = ground arith

-- A version that is not above another is below every bump of it.
pub lt_semver-apply_bump :
    (v w : Semver) (bump : BumpType)
    → lt_semver v w ≡ false
    → lt_semver w (apply_bump v bump) ≡ true
unfolding lt_semver lt_rest apply_bump
lt_semver-apply_bump v w major_bump h = ground (arith, ltz-add_one v.major w.major)
lt_semver-apply_bump v w minor_bump h = ground (arith, ltz-add_one v.minor w.minor)
lt_semver-apply_bump v w patch_bump h = ground (arith, ltz-add_one v.patch w.patch)

pub lt_semver-irreflexive : (v : Semver) → lt_semver v v ≡ false
unfolding lt_semver lt_rest
lt_semver-irreflexive v = ground arith

-- From u ≤ m and m ≤ n to u ≤ n.
lt_rest_trans : (u m n : Semver) → lt_rest m u ≡ false → lt_rest n m ≡ false → lt_rest n u ≡ false
unfolding lt_rest
lt_rest_trans u m n h k = ground arith

lt_semver_trans :
    (u m n : Semver) → lt_semver m u ≡ false → lt_semver n m ≡ false → lt_semver n u ≡ false
unfolding lt_semver
lt_semver_trans u m n h k = ground (arith, lt_rest_trans u m n)

lt_rest-asym : (v w : Semver) → lt_rest v w ≡ true → lt_rest w v ≡ false
unfolding lt_rest
lt_rest-asym v w h = ground arith

lt_semver-asym : (v w : Semver) → lt_semver v w ≡ true → lt_semver w v ≡ false
unfolding lt_semver
lt_semver-asym v w h = ground (arith, lt_rest-asym v w)

-- The maximum is one of the versions.
pub max_semver-cases :
    (P : Semver → Type 0) (v : Semver) (ws : List Semver) → P v → All P ws → P (max_semver v ws)
unfolding max_semver
max_semver-cases P v [] p ps = p
max_semver-cases P v (w ∷ ws) p (q, ps) = elim (Bool-cases (lt_semver v w)) [
  | inl below ↦ rw below (max_semver-cases P w ws q ps)
  | inr above ↦ rw above (max_semver-cases P v ws p ps)
]

-- No version is above the maximum.
pub max_semver-All :
    (m v : Semver) (ws : List Semver)
    → m ≡ max_semver v ws
    → All (λ u. lt_semver m u ≡ false) (v ∷ ws)
unfolding max_semver
max_semver-All m v [] e = (rw e (lt_semver-irreflexive v), tt)
max_semver-All m v (w ∷ ws) e = elim (Bool-cases (lt_semver v w)) [
  | inl below ↦
      let (first, rest) = max_semver-All m w ws (rw below at e) in
      (lt_semver_trans v w m (lt_semver-asym v w below) first, (first, rest))
  | inr above ↦
      let (first, rest) = max_semver-All m v ws (rw above at e) in
      (first, (lt_semver_trans w v m above first, rest))
]
