-- ===== src/Release/Version/Next.antt =====
-- `calculate_next_version` on any list of tags.
use telemetry_platform.Base.{
  ℕ, suc, true, false, ◌||◌, Option, none, some, List, [], ◌∷◌, ◌++◌, Str, ◌==◌, eq_iff, member,
  length, drop, ok, ◌≡◌, refl, ◌∙◌, ap, arith, All, Bool-cases, inl, inr,
}
use telemetry_platform.Base.Int.{pos}
use telemetry_platform.Release.Version.{
  BumpType, major_bump, minor_bump, patch_bump, Semver, VersionResult, parse_semver, show_semver,
  matches_prefix, lt_semver, max_semver, released, cons_some, find_latest_version, latest_of,
  apply_bump, is_none, current_version, tagged, calculate_next_version, digit_first,
}
use telemetry_platform.Release.Version.Bump.{
  lt_semver-apply_bump, lt_semver-irreflexive, max_semver-All, max_semver-cases,
}
use telemetry_platform.Release.Version.Text.{
  parse_semver-show_semver, parse_semver-major, matches_prefix-show_semver, drop-length_append,
}

-- A version whose major number is not negative.
abbrev HasMajor : Semver → Type 0
HasMajor v = (n : ℕ) × (v.major ≡ pos n)

-- The version counts from the others: none of them is above, and its own major is not negative.
abbrev Current : List Semver → Semver → Type 0
Current vs current = HasMajor current × All (λ u. lt_semver current u ≡ false) vs

digit_first-major :
    (s : Str) (v : Semver) → digit_first s ≡ true → parse_semver s ≡ some v → HasMajor v
digit_first-major [] v h e = cc
digit_first-major (d ∷ s) v h e = parse_semver-major d s v h e

matches_prefix-digit_first :
    (tag_prefix t : Str)
    → matches_prefix tag_prefix t ≡ true
    → digit_first (drop t (length tag_prefix)) ≡ true
unfolding matches_prefix
matches_prefix-digit_first tag_prefix t h = ground arith

released-HasMajor : (tag_prefix : Str) (tags : List Str) → All HasMajor (released tag_prefix tags)
unfolding released
released-HasMajor tag_prefix [] = tt
released-HasMajor tag_prefix (t ∷ tags) = elim (Bool-cases (matches_prefix tag_prefix t)) [
  | inl h ↦ rw h (
      go (parse_semver (drop t (length tag_prefix))) refl
        (matches_prefix-digit_first tag_prefix t h) (released-HasMajor tag_prefix tags))
  | inr h ↦ rw h (released-HasMajor tag_prefix tags)
]
  where
    go :
        (o : Option Semver)
        → parse_semver (drop t (length tag_prefix)) ≡ o
        → digit_first (drop t (length tag_prefix)) ≡ true
        → All HasMajor (released tag_prefix tags)
        → All HasMajor (cons_some o (released tag_prefix tags))
    go none e d rest = rest
    go (some v) e d rest = (digit_first-major (drop t (length tag_prefix)) v d e, rest)

-- What holds of all released versions holds of the version of a tag.
released-All :
    (P : Semver → Type 0) (tag_prefix : Str) (tags : List Str) (t : Str) (v : Semver)
    → All P (released tag_prefix tags)
    → member t tags ≡ true
    → matches_prefix tag_prefix t ≡ true
    → parse_semver (drop t (length tag_prefix)) ≡ some v
    → P v
unfolding released member
released-All P tag_prefix [] t v ps m h e = cc
released-All P tag_prefix (u ∷ tags) t v ps m h e = elim (Bool-cases (t == u)) [
  | inl same ↦
      let is : t ≡ u = (eq_iff t u).0 same in
      let h' : matches_prefix tag_prefix u ≡ true = rw is at h in
      let e' : parse_semver (drop u (length tag_prefix)) ≡ some v = rw is at e in
      (rw (h', e') at ps).0
  | inr other ↦
      let later = rw (other, ◌||◌) at m in
      elim (Bool-cases (matches_prefix tag_prefix u)) [
        | inr n ↦ released-All P tag_prefix tags t v (rw n at ps) later h e
        | inl y ↦
            released-All P tag_prefix tags t v
              (go (parse_semver (drop u (length tag_prefix))) (rw y at ps)) later h e
      ]
]
  where
    go :
        (o : Option Semver)
        → All P (cons_some o (released tag_prefix tags))
        → All P (released tag_prefix tags)
    go none h = h
    go (some w) (p, h) = h

latest-Current :
    (vs : List Semver)
    → All HasMajor vs
    → (current : Semver) × (current_version (latest_of vs) ≡ ok current) × Current vs current
unfolding current_version
latest-Current [] h = (_, refl, ((0, refl), tt))
latest-Current (v ∷ vs) (p, ps) = (
  max_semver v vs,
  rw (parse_semver-show_semver (max_semver v vs)) refl,
  (max_semver-cases HasMajor v vs p ps, max_semver-All (max_semver v vs) v vs refl),
)

apply_bump-HasMajor : (v : Semver) (bump : BumpType) → HasMajor v → HasMajor (apply_bump v bump)
unfolding apply_bump
apply_bump-HasMajor v major_bump (n, h) = (suc n, rw h refl)
apply_bump-HasMajor v minor_bump h = h
apply_bump-HasMajor v patch_bump h = h

All-above :
    (v : Semver) (bump : BumpType) (vs : List Semver)
    → All (λ u. lt_semver v u ≡ false) vs
    → All (λ u. lt_semver u (apply_bump v bump) ≡ true) vs
All-above v bump [] h = tt
All-above v bump (u ∷ vs) (h, hs) = (lt_semver-apply_bump v u bump h, All-above v bump vs hs)

-- The tag of a version above all the released ones is not among the tags.
member-fresh :
    (tag_prefix : Str) (tags : List Str) (next : Semver)
    → HasMajor next
    → All (λ u. lt_semver u next ≡ true) (released tag_prefix tags)
    → member (tag_prefix ++ show_semver next) tags ≡ false
member-fresh tag_prefix tags next (n, h) above =
    elim (Bool-cases (member (tag_prefix ++ show_semver next) tags)) [
      | inr absent ↦ absent
      | inl present ↦
          let itself : lt_semver next next ≡ true =
            released-All (λ u. lt_semver u next ≡ true) tag_prefix tags
              (tag_prefix ++ show_semver next) next above present
              (matches_prefix-show_semver tag_prefix next n h)
              (ap parse_semver (drop-length_append tag_prefix (show_semver next))
                ∙ parse_semver-show_semver next) in
          let bad = lt_semver-irreflexive next in cc
    ]

-- Whatever tags the repository has, `calculate_next_version` returns: its guards on an unreadable
-- latest version and on an existing tag never raise. The version that it returns is above the version
-- of every tag of the prefix that has one, the full tag is the prefix with that version, and no tag of
-- the repository equals it.
pub calculate_next_version-returns :
    (tags : List Str) (tag_prefix : Str) (bump : BumpType)
    → (result : VersionResult) × (next : Semver) × (calculate_next_version tags tag_prefix bump
        ≡ ok result)
      × (result.next_version ≡ show_semver next)
      × (result.full_tag ≡ tag_prefix ++ show_semver next)
      × (member result.full_tag tags ≡ false)
      × ((t : Str) (v : Semver)
          → member t tags ≡ true
          → matches_prefix tag_prefix t ≡ true
          → parse_semver (drop t (length tag_prefix)) ≡ some v
          → lt_semver v next ≡ true)
unfolding calculate_next_version find_latest_version tagged
calculate_next_version-returns tags tag_prefix bump =
    let vs = released tag_prefix tags in
    let (current, counts, (major, above)) = latest-Current vs (released-HasMajor tag_prefix tags) in
    let next = apply_bump current bump in
    let all_below = All-above current bump vs above in
    let fresh =
      member-fresh tag_prefix tags next (apply_bump-HasMajor current bump major) all_below in
    let result : VersionResult = record {
      next_version = show_semver next;
      full_tag = tag_prefix ++ show_semver next;
      tag_prefix = tag_prefix;
      bump = bump;
      is_initial = is_none (latest_of vs);
    } in
    (
      result,
      next,
      rw (counts, fresh) refl,
      refl,
      refl,
      fresh,
      λ t v there matches parses.
          released-All (λ u. lt_semver u next ≡ true) tag_prefix tags t v all_below there matches
            parses,
    )
