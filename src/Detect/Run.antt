-- ===== src/Detect/Run.antt =====
-- `run_detect` and `main` of scripts/detect_terragrunt_units.py.
use telemetry_platform.Base.{
  ℕ, Bool, true, false, not, ◌&&◌, Option, none, some, List, [], ◌∷◌, ◌++◌, map, select,
  if◌then◌else◌, Str, codes, Outcome, ok, raised, runtime_error, ◌>>=◌,
}
use telemetry_platform.Base.Int.{pos, eqz, strip}
use telemetry_platform.Base.Lines.{splitlines}
use telemetry_platform.Base.Order.{sorted}
use telemetry_platform.Detect.{
  FilePath, Tree, Diff, union, join, parent, path_text, is_bootstrap_unit, build_include_dir_flags,
  is_deletion_only_changeset, detect_unit_dir, is_shared_parent_config,
  find_units_affected_by_parent_config, find_dependent_units,
}

abbrev filter_words : Option Str → List Str
filter_words none = []
filter_words (some diff_filter) = (codes "--diff-filter=" ++ diff_filter) ∷ []

abbrev is_text : Str → Bool
is_text [] = false
is_text (c ∷ s) = true

-- What is written for an empty scope.
abbrev pub nothing_to_do : List (Str × Str)
nothing_to_do = (codes "include_dir_flags", []) ∷ (codes "has_units", codes "false") ∷ []

module _ (tree : Tree) (terragrunt_root : FilePath) (base_ref head_ref : Str) where
  open tree use {exists, git}

  abbrev diff_command : Option Str → List Str
  diff_command diff_filter =
      (codes "git" ∷ codes "diff" ∷ codes "--name-only" ∷ filter_words diff_filter)
      ++ (base_ref ++ codes "..." ++ head_ref) ∷ []

  -- The files that a finished command names.
  unfoldable pub named_files : Diff → Outcome (List FilePath)
  unfolding splitlines strip select join
  named_files result =
      if eqz result.returncode (pos 0)
      then ok (
          map (λ stripped. join (parent terragrunt_root) stripped)
            (select is_text (map strip (splitlines result.stdout))))
      else raised runtime_error

  -- _run_git_diff_name_only, from the root of the repository
  unfoldable pub git_diff_name_only : Option Str → Outcome (List FilePath)
  unfolding named_files
  git_diff_name_only diff_filter = named_files (git (diff_command diff_filter))

  -- list_changed_files, list_deleted_files
  unfoldable pub list_changed_files : Outcome (List FilePath)
  unfolding git_diff_name_only
  list_changed_files = git_diff_name_only none

  unfoldable pub list_deleted_files : Outcome (List FilePath)
  unfolding git_diff_name_only
  list_deleted_files = git_diff_name_only (some (codes "D"))

  abbrev affected_units : FilePath → Option FilePath → List FilePath
  affected_units changed_file (some unit_dir) = unit_dir ∷ []
  affected_units changed_file none =
      if is_shared_parent_config tree terragrunt_root changed_file
      then find_units_affected_by_parent_config tree terragrunt_root changed_file
      else []

  -- The body of the loop over the changed files.
  unfoldable pub units_of : FilePath → List FilePath
  unfolding detect_unit_dir is_shared_parent_config find_units_affected_by_parent_config
  units_of changed_file =
      affected_units changed_file (detect_unit_dir tree terragrunt_root changed_file)

  unfoldable pub changed_units : List FilePath → List FilePath
  unfolding units_of union
  changed_units [] = []
  changed_units (f ∷ changed_files) = union (units_of f) (changed_units changed_files)

  unfoldable pub all_units : List FilePath → List FilePath
  unfolding changed_units find_dependent_units union
  all_units changed_files =
      union (changed_units changed_files)
        (find_dependent_units tree terragrunt_root (changed_units changed_files))

  -- The texts of the units in scope, sorted.
  unfoldable pub sorted_units : Bool → List FilePath → List Str
  unfolding all_units is_bootstrap_unit select path_text sorted
  sorted_units exclude_bootstrap changed_files = sorted (
      map path_text
        (select (λ u. not (exclude_bootstrap && is_bootstrap_unit u)) (all_units changed_files)))

  -- --exclude-bootstrap: an empty scope is no failure.
  unfoldable pub write_applyable : List Str → Outcome (List (Str × Str))
  unfolding build_include_dir_flags
  write_applyable [] = ok nothing_to_do
  write_applyable (u ∷ units) = do
    flags ← build_include_dir_flags (u ∷ units)
    ok ((codes "include_dir_flags", flags) ∷ (codes "has_units", codes "true") ∷ [])

  -- An empty scope is a failure, unless the change only deletes.
  unfoldable pub write_planned : List FilePath → List Str → Outcome (List (Str × Str))
  unfolding list_deleted_files is_deletion_only_changeset build_include_dir_flags
  write_planned changed_files [] = do
    deleted_files ← list_deleted_files
    if is_deletion_only_changeset changed_files deleted_files
        then ok nothing_to_do
        else build_include_dir_flags [] >>= λ flags. ok ((codes "include_dir_flags", flags) ∷ [])
  write_planned changed_files (u ∷ units) = do
    flags ← build_include_dir_flags (u ∷ units)
    ok ((codes "include_dir_flags", flags) ∷ [])

  -- run_detect: what is written to the output file
  unfoldable pub run_detect : Bool → Outcome (List (Str × Str))
  unfolding list_changed_files sorted_units write_applyable write_planned
  run_detect exclude_bootstrap = do
    changed_files ← list_changed_files
    if exclude_bootstrap
        then write_applyable (sorted_units true changed_files)
        else write_planned changed_files (sorted_units false changed_files)

  -- The exit code, with what was written.
  abbrev finish_run : Outcome (List (Str × Str)) → Outcome ℕ × List (Str × Str)
  finish_run (ok written) = (ok 0, written)
  finish_run (raised runtime_error) = (ok 1, [])
  finish_run (raised e) = (raised e, [])

  -- main
  unfoldable pub main : Bool → Outcome ℕ × List (Str × Str)
  unfolding run_detect
  main exclude_bootstrap =
      if exists terragrunt_root then finish_run (run_detect exclude_bootstrap) else (ok 1, [])
