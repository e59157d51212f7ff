-- ===== src/Release/Title.antt =====
-- scripts/validate_pr_title.py: the parts of a pull request's title and the bump that it asks for, with
-- `derive_bump_from_api_result` and `validate_bump_agreement` of scripts/calculate_version.py; over
-- ASCII text.
pub mod Roundtrip
use telemetry_platform.Base.{
  ℕ, suc, Bool, true, false, not, ◌&&◌, Option, none, some, List, [], ◌∷◌, ◌++◌, if◌then◌else◌,
  nat_beq, leb, Str, codes, ◌==◌, member, length, drop, Outcome, ok, raised, value_error, need,
  ◌>>=◌, all,
}
use telemetry_platform.Base.Int.{strip, is_space, skip_spaces}
use telemetry_platform.Base.Order.{before, without}
use telemetry_platform.Release.Version.{BumpType, major_bump, minor_bump, patch_bump}

-- MINOR_TYPES, PATCH_TYPES and VALID_COMMIT_TYPES of scripts/constants.py
abbrev pub minor_types : List Str
minor_types =
    codes "feat"
    ∷ codes "perf"
    ∷ codes "build"
    ∷ codes "ci"
    ∷ codes "revert"
    ∷ codes "release"
    ∷ codes "meta"
    ∷ codes "module"
    ∷ []

abbrev pub patch_types : List Str
patch_types =
    codes "fix"
    ∷ codes "chore"
    ∷ codes "docs"
    ∷ codes "style"
    ∷ codes "refactor"
    ∷ codes "test"
    ∷ []

abbrev pub valid_commit_types : List Str
valid_commit_types = minor_types ++ patch_types

-- ParsedTitle
pub record ParsedTitle : Type 0 where
  pub commit_type : Str
  pub scope : Option Str
  pub breaking : Bool
  pub description : Str
  pub bump : BumpType

-- The groups of _CC_PATTERN
pub record TitleMatch : Type 0 where
  pub type_group : Str
  pub scope_group : Option Str
  pub breaking_group : Bool
  pub description_group : Str

unfoldable pub is_lower : ℕ → Bool
is_lower c = leb 97 c && leb c 122

-- [a-z]+ takes as much as there is.
unfoldable pub lower_word : Str → Str
lower_word [] = []
lower_word (c ∷ s) = let rest = lower_word s in if is_lower c then c ∷ rest else []

-- .+$ of a text that does not end in a line break: `.` stands for no line break.
abbrev description_of : Str → Option Str
description_of [] = none
description_of (c ∷ s) = if without 10 (c ∷ s) then some (c ∷ s) else none

-- \s+(?P<description>.+)$
abbrev spaced : Str → Option Str
spaced [] = none
spaced (c ∷ s) = if is_space c then description_of (skip_spaces s) else none

-- :\s+(?P<description>.+)$
abbrev after_colon : Str → Option Str
after_colon [] = none
after_colon (c ∷ s) = if nat_beq c b':' then spaced s else none

abbrev with_description : Str → Option Str → Bool → Option Str → Option TitleMatch
with_description word scope breaking none = none
with_description word scope breaking (some description) = some (record {
  type_group = word;
  scope_group = scope;
  breaking_group = breaking;
  description_group = description;
})

-- (?P<breaking>!)? and the rest
unfoldable pub match_breaking : Str → Option Str → Str → Option TitleMatch
unfolding is_space skip_spaces
match_breaking word scope [] = none
match_breaking word scope (c ∷ s) =
    if nat_beq c b'!'
    then with_description word scope true (after_colon s)
    else with_description word scope false (after_colon (c ∷ s))

-- \((?P<scope>[^)]+)\): the text inside, then what follows it
abbrev close_scope : Str → Str → Str → Option TitleMatch
close_scope word [] rest = none
close_scope word (c ∷ scope) [] = none
close_scope word (c ∷ scope) (d ∷ rest) = match_breaking word (some (c ∷ scope)) rest

unfoldable pub match_scope : Str → Str → Option TitleMatch
unfolding match_breaking before drop
match_scope word [] = none
match_scope word (c ∷ s) =
    if nat_beq c b'('
    then close_scope word (before b')' s) (drop s (length (before b')' s)))
    else match_breaking word none (c ∷ s)

abbrev match_word : Str → Str → Option TitleMatch
match_word [] s = none
match_word (c ∷ word) s = match_scope (c ∷ word) s

-- _CC_PATTERN.match of a stripped title
unfoldable pub match_title : Str → Option TitleMatch
unfolding lower_word match_scope drop
match_title s = match_word (lower_word s) (drop s (length (lower_word s)))

-- _derive_bump
unfoldable pub derive_bump : Str → Bool → BumpType
unfolding member
derive_bump commit_type breaking =
    if breaking
    then major_bump
    else if member commit_type minor_types
    then minor_bump
    else patch_bump

-- From the match to the result.
unfoldable pub parsed_of : TitleMatch → Outcome ParsedTitle
unfolding derive_bump member
parsed_of m =
    if member m.type_group valid_commit_types
    then ok (record {
      commit_type = m.type_group;
      scope = m.scope_group;
      breaking = m.breaking_group;
      description = m.description_group;
      bump = derive_bump m.type_group m.breaking_group;
    })
    else raised value_error

-- parse_pr_title; a blank title, which is tested first there, matches nothing
unfoldable pub parse_pr_title : Str → Outcome ParsedTitle
unfolding match_title parsed_of strip
parse_pr_title title = do m ← need value_error (match_title (strip title)); parsed_of m

-- derive_bump_from_api_result
unfoldable pub derive_bump_from_api_result : Option Str → Outcome BumpType
unfolding parse_pr_title
derive_bump_from_api_result api_pr_title = do
  title ← need value_error api_pr_title
  parsed ← parse_pr_title title
  ok parsed.bump

unfoldable pub same_bump : BumpType → BumpType → Bool
same_bump major_bump major_bump = true
same_bump minor_bump minor_bump = true
same_bump patch_bump patch_bump = true
same_bump _ _ = false

-- validate_bump_agreement
unfoldable pub validate_bump_agreement : BumpType → BumpType → Outcome (Unit {0})
unfolding same_bump
validate_bump_agreement api_bump squash_bump =
    if same_bump api_bump squash_bump then ok tt else raised value_error
