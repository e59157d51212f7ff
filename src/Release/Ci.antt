-- ===== src/Release/Ci.antt =====
-- scripts/ci_calculate_version.py: the version of a release from the title of its pull request. The
-- commands and json.loads are parameters, which do not change during a run.
pub mod Agreed
pub mod Immutable
mod Tests
use telemetry_platform.Base.{
  ℕ, Bool, true, false, Option, none, some, List, [], ◌∷◌, ◌++◌, map, select, if◌then◌else◌, Str,
  codes, ◌==◌, Exc, Outcome, ok, raised, runtime_error, value_error, attribute_error, need, ◌>>=◌,
}
use telemetry_platform.Base.Dict.{Dict, get}
use telemetry_platform.Base.Int.{strip}
use telemetry_platform.Base.Lines.{splitlines}
use telemetry_platform.BranchLock.{Finished, succeeded, require_env}
use telemetry_platform.Json.{Json, str, as_dict, get_or_null}
use telemetry_platform.Release.Title.{
  ParsedTitle, parse_pr_title, derive_bump_from_api_result, validate_bump_agreement,
}
use telemetry_platform.Release.Version.{
  BumpType, major_bump, minor_bump, patch_bump, VersionResult, build_tag_prefix,
  calculate_next_version,
}

-- The gh and git commands, json.loads, and the texts of monorepo-config.json and of the VERSION file,
-- where these exist.
pub record Tools : Type 0 where
  pub run : List Str → Finished
  pub loads : Str → Option Json
  pub config_text : Option Str
  pub version_text : Option Str

abbrev pub is_text : Str → Bool
is_text [] = false
is_text (c ∷ s) = true

abbrev bump_value : BumpType → Str
bump_value major_bump = codes "major"
bump_value minor_bump = codes "minor"
bump_value patch_bump = codes "patch"

abbrev bool_text : Bool → Str
bool_text true = codes "true"
bool_text false = codes "false"

-- What is written for a result, as keys and values in order.
abbrev pub outputs_of : VersionResult → List (Str × Str)
outputs_of result =
    (codes "next_version", result.next_version)
    ∷ (codes "bump_type", bump_value result.bump)
    ∷ (codes "tag_prefix", result.tag_prefix)
    ∷ (codes "full_tag", result.full_tag)
    ∷ (codes "is_initial", bool_text result.is_initial)
    ∷ []

abbrev title_or_none : Str → Option Str
title_or_none [] = none
title_or_none (c ∷ title) = if (c ∷ title) == codes "null" then none else some (c ∷ title)

abbrev stripped_or_empty : Option Str → Str
stripped_or_empty none = []
stripped_or_empty (some s) = strip s

-- sys.exit(1) where a ValueError is caught; here it is the class of every exit with 1.
abbrev exit_class : Exc → Exc
exit_class value_error = runtime_error
exit_class e = e

abbrev pub exit_on_value_error : {A : Type 0} → Outcome A → Outcome A
exit_on_value_error (ok a) = ok a
exit_on_value_error (raised e) = raised (exit_class e)

abbrev first_or : Str → List Str → Str
first_or message [] = message
first_or message (line ∷ lines) = line

-- The subject of a squash commit: its first line that is not blank.
unfoldable pub squash_subject : Str → Str
unfolding splitlines strip select
squash_subject commit_msg =
    first_or commit_msg (select (λ line. is_text (strip line)) (splitlines commit_msg))

abbrev prefix_text : Json → Outcome Str
prefix_text (str (c ∷ s)) = ok (c ∷ s)
prefix_text v = raised runtime_error

module _ (tools : Tools) where
  open tools use {run, loads, config_text}

  abbrev pulls_command : Str → Str → List Str
  pulls_command repo commit_sha =
      codes "gh"
      ∷ codes "api"
      ∷ (codes "repos/" ++ repo ++ codes "/commits/" ++ commit_sha ++ codes "/pulls")
      ∷ codes "--jq"
      ∷ codes ".[0].title"
      ∷ []

  -- _fetch_pr_title_from_api
  unfoldable pub fetch_pr_title_from_api : Str → Str → Outcome (Option Str)
  unfolding succeeded strip
  fetch_pr_title_from_api repo commit_sha =
      if succeeded (run (pulls_command repo commit_sha))
      then ok (title_or_none (strip (run (pulls_command repo commit_sha)).stdout))
      else raised runtime_error

  abbrev pub tags_command : List Str
  tags_command = codes "git" ∷ codes "tag" ∷ codes "-l" ∷ []

  -- _fetch_git_tags
  unfoldable pub fetch_git_tags : Outcome (List Str)
  unfolding succeeded strip splitlines select
  fetch_git_tags =
      if succeeded (run tags_command)
      then ok (select is_text (map strip (splitlines (run tags_command).stdout)))
      else raised runtime_error

  -- _load_config_tag_prefix
  unfoldable pub load_config_tag_prefix : Outcome Str
  unfolding get_or_null
  load_config_tag_prefix = do
    text ← need runtime_error config_text
    parsed ← need runtime_error (loads text)
    config ← need attribute_error (as_dict parsed)
    prefix_text (get_or_null (codes "config_tag_prefix") config)

  -- The bump of the pull request's title, which the subject's must equal.
  unfoldable pub agreed_bump : Str → Str → Str → Outcome BumpType
  unfolding fetch_pr_title_from_api derive_bump_from_api_result parse_pr_title
      validate_bump_agreement squash_subject
  agreed_bump repo commit_sha commit_msg = do
    api_pr_title ← fetch_pr_title_from_api repo commit_sha
    api_bump ← exit_on_value_error (derive_bump_from_api_result api_pr_title)
    squash_parsed ← exit_on_value_error (parse_pr_title (squash_subject commit_msg))
    same ← exit_on_value_error (validate_bump_agreement api_bump squash_parsed.bump)
    ok api_bump

  -- From the scope on, where it releases something.
  unfoldable pub calculate : Dict Str → Str → Outcome VersionResult
  unfolding require_env get strip load_config_tag_prefix agreed_bump build_tag_prefix fetch_git_tags
      calculate_next_version
  calculate environ scope = do
    commit_sha ← require_env (codes "COMMIT_SHA") environ
    commit_msg ← require_env (codes "COMMIT_MSG") environ
    repo ← require_env (codes "REPO") environ
    config_tag_prefix ← load_config_tag_prefix
    api_bump ← agreed_bump repo commit_sha commit_msg
    tag_prefix ← exit_on_value_error (
        build_tag_prefix scope (stripped_or_empty (get (codes "MODULE_PATH") environ))
          config_tag_prefix)
    existing_tags ← fetch_git_tags
    exit_on_value_error (calculate_next_version existing_tags tag_prefix api_bump)

  -- main: what is written to the output file; an exit with 1 is a RuntimeError here
  unfoldable pub write_version : Dict Str → Outcome (List (Str × Str))
  unfolding require_env calculate
  write_version environ = do
    scope ← require_env (codes "SCOPE") environ
    output_path ← require_env (codes "OUTPUT") environ
    if scope == codes "terragrunt"
        then ok []
        else calculate environ scope >>= λ result. ok (outputs_of result)
