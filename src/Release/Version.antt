-- ===== src/Release/Version.antt =====
-- scripts/calculate_version.py: the next version of a module from the tags of its releases. A tag
-- prefix has none of the characters `*`, `?` and `[`, which the tag pattern would read as its own.
pub mod Bump
pub mod Next
pub mod Text
use telemetry_platform.Base.{
  ℕ, Bool, true, false, ◌&&◌, Option, none, some, List, [], ◌∷◌, ◌++◌, if◌then◌else◌, Str, codes,
  ◌==◌, member, starts_with, length, drop, Outcome, ok, raised, value_error, need, ◌>>=◌,
}
use telemetry_platform.Base.Decimal.{show_int}
use telemetry_platform.Base.Int.{ℤ, pos, ltz, eqz, add_one, py_int, is_digit}
use telemetry_platform.Base.Order.{split_char}

-- BumpType
pub data BumpType : Type 0 where
  major_bump minor_bump patch_bump : BumpType

-- A (major, minor, patch) tuple
pub record Semver : Type 0 where
  pub major : ℤ
  pub minor : ℤ
  pub patch : ℤ

-- VersionResult
pub record VersionResult : Type 0 where
  pub next_version : Str
  pub full_tag : Str
  pub tag_prefix : Str
  pub bump : BumpType
  pub is_initial : Bool

abbrev prefix_of : Str → Outcome Str
prefix_of [] = raised value_error
prefix_of (c ∷ path) = ok ((c ∷ path) ++ codes "/v")

-- build_tag_prefix
unfoldable pub build_tag_prefix : Str → Str → Str → Outcome Str
build_tag_prefix scope module_path config_tag_prefix =
    if scope == codes "module"
    then prefix_of module_path
    else if scope == codes "config"
    then prefix_of config_tag_prefix
    else raised value_error

-- major, minor, patch = int(parts[0]), int(parts[1]), int(parts[2])
abbrev semver_of : Option ℤ → Option ℤ → Option ℤ → Option Semver
semver_of (some a) (some b) (some c) = some (record { major = a; minor = b; patch = c })
semver_of _ _ _ = none

abbrev semver_of_parts : List Str → Option Semver
semver_of_parts (a ∷ b ∷ c ∷ []) = semver_of (py_int a) (py_int b) (py_int c)
semver_of_parts _ = none

-- _parse_semver
unfoldable pub parse_semver : Str → Option Semver
unfolding split_char py_int
parse_semver s = semver_of_parts (split_char b'.' s)

-- f"{major}.{minor}.{patch}"
unfoldable pub show_semver : Semver → Str
unfolding show_int
show_semver v = show_int v.major ++ b'.' ∷ (show_int v.minor ++ b'.' ∷ show_int v.patch)

abbrev digit_first : Str → Bool
digit_first [] = false
digit_first (c ∷ s) = is_digit c

-- fnmatch(tag, tag_prefix + "[0-9]*")
unfoldable pub matches_prefix : Str → Str → Bool
unfolding starts_with drop is_digit
matches_prefix tag_prefix tag =
    starts_with tag tag_prefix && digit_first (drop tag (length tag_prefix))

-- v < w of tuples: the first numbers decide, and where they are equal the rest does.
unfoldable pub lt_rest : Semver → Semver → Bool
lt_rest v w =
    if ltz v.minor w.minor then true else if eqz v.minor w.minor then ltz v.patch w.patch else false

unfoldable pub lt_semver : Semver → Semver → Bool
lt_semver v w =
    if ltz v.major w.major then true else if eqz v.major w.major then lt_rest v w else false

-- max(v, *ws)
unfoldable pub max_semver : Semver → List Semver → Semver
max_semver v [] = v
max_semver v (w ∷ ws) = max_semver (if lt_semver v w then w else v) ws

abbrev cons_some : Option Semver → List Semver → List Semver
cons_some none vs = vs
cons_some (some v) vs = v ∷ vs

-- The versions of the matching tags that parse.
unfoldable pub released : Str → List Str → List Semver
unfolding matches_prefix parse_semver drop
released tag_prefix [] = []
released tag_prefix (t ∷ tags) =
    let rest = released tag_prefix tags in
    if matches_prefix tag_prefix t
    then cons_some (parse_semver (drop t (length tag_prefix))) rest
    else rest

abbrev latest_of : List Semver → Option Str
latest_of [] = none
latest_of (v ∷ vs) = some (show_semver (max_semver v vs))

-- find_latest_version
unfoldable pub find_latest_version : List Str → Str → Option Str
unfolding released max_semver lt_semver lt_rest show_semver
find_latest_version tags tag_prefix = latest_of (released tag_prefix tags)

-- _apply_bump
unfoldable pub apply_bump : Semver → BumpType → Semver
unfolding add_one
apply_bump v major_bump = record { major = add_one v.major; minor = pos 0; patch = pos 0 }
apply_bump v minor_bump = record { major = v.major; minor = add_one v.minor; patch = pos 0 }
apply_bump v patch_bump = record { major = v.major; minor = v.minor; patch = add_one v.patch }

abbrev is_none : Option Str → Bool
is_none none = true
is_none (some s) = false

-- The version to count from: that of the latest tag, or 0.0.0.
unfoldable pub current_version : Option Str → Outcome Semver
unfolding parse_semver
current_version none = ok (record { major = pos 0; minor = pos 0; patch = pos 0 })
current_version (some latest) = need value_error (parse_semver latest)

-- The result, unless its tag exists.
unfoldable pub tagged : List Str → Str → BumpType → Bool → Semver → Outcome VersionResult
unfolding show_semver member
tagged existing_tags tag_prefix bump is_initial next =
    if member (tag_prefix ++ show_semver next) existing_tags
    then raised value_error
    else ok (record {
      next_version = show_semver next;
      full_tag = tag_prefix ++ show_semver next;
      tag_prefix = tag_prefix;
      bump = bump;
      is_initial = is_initial;
    })

-- calculate_next_version
unfoldable pub calculate_next_version : List Str → Str → BumpType → Outcome VersionResult
unfolding find_latest_version current_version apply_bump tagged
calculate_next_version existing_tags tag_prefix bump = do
  current ← current_version (find_latest_version existing_tags tag_prefix)
  tagged existing_tags tag_prefix bump (is_none (find_latest_version existing_tags tag_prefix))
      (apply_bump current bump)
