-- ===== src/Release/Ci/Immutable.antt =====
-- scripts/check_version_immutability.py: no published version is used again.
use telemetry_platform.Base.{
  Bool, true, false, Option, none, some, List, [], ◌∷◌, ◌++◌, map, select, if◌then◌else◌, Str,
  codes, ◌==◌, member, Outcome, ok, raised, runtime_error, value_error, attribute_error,
  file_not_found, need, ◌>>=◌,
}
use telemetry_platform.Base.Int.{strip}
use telemetry_platform.Base.Lines.{splitlines}
use telemetry_platform.BranchLock.{succeeded}
use telemetry_platform.Json.{Json, str, as_dict, get_or_null}
use telemetry_platform.Release.Ci.{Tools, is_text, tags_command}
use telemetry_platform.Release.Version.{build_tag_prefix}

-- is_version_already_published
unfoldable pub is_version_already_published : List Str → Str → Str → Bool
unfolding member
is_version_already_published existing_tags tag_prefix version =
    member (tag_prefix ++ version) existing_tags

abbrev pub is_base : Option Str → Str → Bool
is_base none current_version = false
is_base (some base_version) current_version = current_version == base_version

-- check_version_immutability
unfoldable pub check_version_immutability : Str → Option Str → List Str → Str → Outcome (Unit {0})
unfolding is_version_already_published
check_version_immutability current_version base_version existing_tags tag_prefix =
    if is_base base_version current_version
    then ok tt
    else if is_version_already_published existing_tags tag_prefix current_version
    then raised value_error
    else ok tt

module _ (tools : Tools) where
  open tools use {run, loads, config_text, version_text}

  -- _run_git
  unfoldable pub run_git : List Str → Outcome Str
  unfolding succeeded strip
  run_git cmd = if succeeded (run cmd) then ok (strip (run cmd).stdout) else raised runtime_error

  -- _get_version_at_ref; `git cat-file -e` succeeds where the file exists at the ref
  unfoldable pub get_version_at_ref : Str → Str → Outcome (Option Str)
  unfolding run_git succeeded
  get_version_at_ref version_file base_ref =
      if succeeded
        (run (codes "git" ∷ codes "cat-file" ∷ codes "-e" ∷ (base_ref ++ b':' ∷ version_file) ∷ []))
      then (run_git (codes "git" ∷ codes "show" ∷ (base_ref ++ b':' ∷ version_file) ∷ [])
          >>= λ version. ok (some version))
      else ok none

  -- _fetch_git_tags of check_version_immutability.py
  unfoldable pub checked_tags : Outcome (List Str)
  unfolding run_git strip splitlines select
  checked_tags =
      run_git (tags_command tools) >>= λ output. ok (select is_text (map strip (splitlines output)))

  abbrev prefix_or_fail : Json → Outcome Str
  prefix_or_fail (str (c ∷ s)) = ok (c ∷ s)
  prefix_or_fail v = raised value_error

  abbrev config_prefix : Bool → Outcome Str
  config_prefix false = ok []
  config_prefix true = do
    text ← need file_not_found config_text
    parsed ← need value_error (loads text)
    config ← need attribute_error (as_dict parsed)
    prefix_or_fail (get_or_null (codes "config_tag_prefix") config)

  -- _resolve_tag_prefix
  unfoldable pub resolve_tag_prefix : Str → Str → Outcome Str
  unfolding get_or_null build_tag_prefix
  resolve_tag_prefix scope module_path = do
    config_tag_prefix ← config_prefix (scope == codes "config")
    build_tag_prefix scope module_path config_tag_prefix

  -- main_check
  unfoldable pub main_check : Str → Str → Str → Str → Outcome (Unit {0})
  unfolding strip get_version_at_ref checked_tags resolve_tag_prefix check_version_immutability
  main_check version_file base_ref module_path scope = do
    text ← need file_not_found version_text
    base_version ← get_version_at_ref version_file base_ref
    existing_tags ← checked_tags
    tag_prefix ← resolve_tag_prefix scope module_path
    check_version_immutability (strip text) base_version existing_tags tag_prefix
