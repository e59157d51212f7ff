-- ===== src/Release/Version/Text.antt =====
-- The text of a version and its parsing.
use telemetry_platform.Base.{
  ℕ, true, false, Option, none, some, List, [], ◌∷◌, ◌++◌, nat_beq, Str, starts_with, length, drop,
  ◌≡◌, refl, ◌∙◌, ap, sym, arith,
}
use telemetry_platform.Base.Decimal.{
  show_int, show_int-without, show_int-cons, py_int-show_int, py_int-nonneg,
}
use telemetry_platform.Base.Int.{ℤ, pos, is_digit, py_int}
use telemetry_platform.Base.Order.{split_char, split_char-without, split_char-append}
use telemetry_platform.Release.Version.{
  Semver, show_semver, parse_semver, semver_of, semver_of_parts, matches_prefix,
}

-- Every version, negative components included, is read back from its text.
pub parse_semver-show_semver : (v : Semver) → parse_semver (show_semver v) ≡ some v
unfolding parse_semver show_semver
parse_semver-show_semver v =
    let split =
      split_char-append b'.' (show_int v.major) (show_int v.minor ++ b'.' ∷ show_int v.patch)
        (show_int-without v.major)
      ∙ ap (λ ps. show_int v.major ∷ ps)
          (split_char-append b'.' (show_int v.minor) (show_int v.patch) (show_int-without v.minor)
            ∙ ap (λ ps. show_int v.minor ∷ ps)
                (split_char-without b'.' (show_int v.patch) (show_int-without v.patch))) in
    ap semver_of_parts split
    ∙ rw (py_int-show_int v.major, py_int-show_int v.minor, py_int-show_int v.patch) refl

-- The parts of a text that starts with a digit start with one.
parts_from :
    (d : ℕ) (parts : List Str) (v : Semver)
    → is_digit d ≡ true
    → (p : Str) (more : List Str) → parts ≡ (d ∷ p) ∷ more
    → semver_of_parts parts ≡ some v
    → (n : ℕ) × (v.major ≡ pos n)
parts_from d [] v h p more e q = cc
parts_from d (a ∷ []) v h p more e q = cc
parts_from d (a ∷ b ∷ []) v h p more e q = cc
parts_from d (a ∷ b ∷ c ∷ f ∷ rest) v h p more e q = cc
parts_from d (a ∷ b ∷ c ∷ []) v h p more e q = go (py_int a) (py_int b) (py_int c) refl q
  where
    first : a ≡ d ∷ p
    first = cc

    go : (x y z : Option ℤ) → py_int a ≡ x → semver_of x y z ≡ some v → (n : ℕ) × (v.major ≡ pos n)
    go none y z e1 e2 = cc
    go (some x) none z e1 e2 = cc
    go (some x) (some y) none e1 e2 = cc
    go (some x) (some y) (some z) e1 e2 =
        let (n, is_pos) = py_int-nonneg d p x h (ap py_int (sym first) ∙ e1) in
        (n, sym (major_of e2) ∙ is_pos)
      where
        major_of : some (record { major = x; minor = y; patch = z }) ≡ some v → x ≡ v.major
        major_of e = cc

split_char-cons :
    (d : ℕ) (s : Str)
    → nat_beq d b'.' ≡ false
    → (p : Str) × (more : List Str) × (split_char b'.' (d ∷ s) ≡ (d ∷ p) ∷ more)
unfolding split_char
split_char-cons d s h = go (split_char b'.' s) refl
  where
    go :
        (ps : List Str)
        → split_char b'.' s ≡ ps
        → (p : Str) × (more : List Str) × (split_char b'.' (d ∷ s) ≡ (d ∷ p) ∷ more)
    go [] e = ([], [], rw (h, e) refl)
    go (p ∷ ps) e = (p, ps, rw (h, e) refl)

-- A version whose text starts with a digit has a major number that is not negative.
pub parse_semver-major :
    (d : ℕ) (s : Str) (v : Semver)
    → is_digit d ≡ true
    → parse_semver (d ∷ s) ≡ some v
    → (n : ℕ) × (v.major ≡ pos n)
unfolding parse_semver is_digit
parse_semver-major d s v h e =
    let other : nat_beq d b'.' ≡ false = ground arith in
    let (p, more, split) = split_char-cons d s other in
    parts_from d (split_char b'.' (d ∷ s)) v h p more split e

starts_with-append : (p s : Str) → starts_with (p ++ s) p ≡ true
unfolding starts_with
starts_with-append [] s = refl
starts_with-append (c ∷ p) s = ground (arith, starts_with-append p s)

pub drop-length_append : (p s : Str) → drop (p ++ s) (length p) ≡ s
unfolding drop
drop-length_append [] s = refl
drop-length_append (c ∷ p) s = drop-length_append p s

-- A tag built from the prefix and such a version matches the pattern of the prefix's tags.
pub matches_prefix-show_semver :
    (tag_prefix : Str) (v : Semver) (n : ℕ)
    → v.major ≡ pos n
    → matches_prefix tag_prefix (tag_prefix ++ show_semver v) ≡ true
unfolding matches_prefix show_semver
matches_prefix-show_semver tag_prefix v n h =
    let (d, t, e, is) = show_int-cons n in
    rw
      (starts_with-append tag_prefix (show_semver v), drop-length_append tag_prefix (show_semver v))
      (rw (h, e) is)
