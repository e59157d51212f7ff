-- ===== src/Detect.antt =====
-- scripts/detect_terragrunt_units.py: the units that a change touches. The file tree, git and
-- pathlib's `resolve` are parameters; paths are absolute, and texts are ASCII.
pub mod Outputs
pub mod Reach
pub mod References
pub mod Run
mod Tests
use mathlib.Core.List.{reverse}
use telemetry_platform.Base.{
  Bool, true, false, not, ◌&&◌, ◌||◌, Option, none, some, List, [], ◌∷◌, ◌++◌, map, if◌then◌else◌,
  Str, codes, ◌==◌, member, any, all, select, nat_beq, Outcome, ok, raised, runtime_error, ◌>>=◌,
}
use telemetry_platform.Base.Int.{ℤ, pos, eqz, strip}
use telemetry_platform.Base.Lines.{splitlines}
use telemetry_platform.Base.Order.{
  sorted, split_char, contains, ends_with, lstrip_char, rstrip_char,
}
use telemetry_platform.Accounts.Paths.{reassemble_flags}
use telemetry_platform.Detect.References.{
  dependency_paths, parent_names, anchored_paths, unit_relative_paths,
}

-- An absolute path: its parts, the last one first.
abbrev pub FilePath : Type 0
FilePath = List Str

unfoldable pub same_path : FilePath → FilePath → Bool
same_path [] [] = true
same_path (a ∷ p) (b ∷ q) = (a == b) && same_path p q
same_path _ _ = false

unfoldable pub has_path : FilePath → List FilePath → Bool
unfolding same_path
has_path p [] = false
has_path p (q ∷ qs) = same_path p q || has_path p qs

-- set.add
unfoldable pub add_path : FilePath → List FilePath → List FilePath
unfolding has_path
add_path p qs = if has_path p qs then qs else p ∷ qs

-- set.union
unfoldable pub union : List FilePath → List FilePath → List FilePath
unfolding add_path
union [] qs = qs
union (p ∷ ps) qs = add_path p (union ps qs)

abbrev is_part : Str → Bool
is_part [] = false
is_part (c ∷ s) = not ((c ∷ s) == codes ".")

-- p / s, where an absolute text stands for itself
unfoldable pub join : FilePath → Str → FilePath
unfolding split_char select
join p [] = p
join p (c ∷ s) =
    if nat_beq c b'/'
    then reverse (select is_part (split_char b'/' s))
    else reverse (select is_part (split_char b'/' (c ∷ s))) ++ p

abbrev pub parent : FilePath → FilePath
parent [] = []
parent (part ∷ p) = p

abbrev name_of : FilePath → Str
name_of [] = []
name_of (part ∷ p) = part

-- str(p) without the leading slash, as parts from the first on
abbrev join_parts : List Str → Str
join_parts [] = []
join_parts (a ∷ []) = a
join_parts (a ∷ b ∷ parts) = a ++ b'/' ∷ join_parts (b ∷ parts)

-- str(p)
unfoldable pub path_text : FilePath → Str
path_text p = b'/' ∷ join_parts (reverse p)

-- What a finished git command left.
pub record Diff : Type 0 where
  pub returncode : ℤ
  pub stdout : Str

-- The file tree and git, which do not change during a run: `hcl_files` is rglob("terragrunt.hcl").
pub record Tree : Type 0 where
  pub is_dir : FilePath → Bool
  pub exists : FilePath → Bool
  pub read_text : FilePath → Str
  pub resolve : FilePath → FilePath
  pub hcl_files : FilePath → List FilePath
  pub git : List Str → Diff

abbrev pub unit_file : Str
unit_file = codes "terragrunt.hcl"

-- _BOOTSTRAP_PATH_SEGMENT and _is_bootstrap_unit
unfoldable pub is_bootstrap_unit : FilePath → Bool
unfolding contains path_text lstrip_char rstrip_char
is_bootstrap_unit unit_dir =
    contains (codes "/bootstrap/")
      (b'/' ∷ (rstrip_char b'/' (lstrip_char b'/' (path_text unit_dir)) ++ codes "/"))

-- build_include_dir_flags, joined by spaces; its EmptyUnitScopeError is a RuntimeError
unfoldable pub build_include_dir_flags : List Str → Outcome Str
unfolding reassemble_flags
build_include_dir_flags [] = raised runtime_error
build_include_dir_flags (u ∷ units) = ok (reassemble_flags (u ∷ units))

abbrev subset : List FilePath → List FilePath → Bool
subset ps qs = all (λ p. has_path p qs) ps

-- is_deletion_only_changeset
unfoldable pub is_deletion_only_changeset : List FilePath → List FilePath → Bool
unfolding has_path
is_deletion_only_changeset [] deleted_files = false
is_deletion_only_changeset (f ∷ changed_files) deleted_files =
    subset (f ∷ changed_files) deleted_files && subset deleted_files (f ∷ changed_files)

module _ (tree : Tree) (terragrunt_root : FilePath) where
  open tree use {is_dir, exists, read_text, resolve, hcl_files, git}

  -- The loop of detect_unit_dir and of _resolve_in_parent_folders: the nearest directory from
  -- `candidate` up to the root that has the file.
  unfoldable pub nearest : Str → FilePath → Option FilePath
  unfolding join same_path
  nearest name [] = if exists (join [] name) then some [] else none
  nearest name (part ∷ candidate) =
      let above = nearest name candidate in
      if exists (join (part ∷ candidate) name)
      then some (part ∷ candidate)
      else if same_path (part ∷ candidate) terragrunt_root
      then none
      else above

  -- detect_unit_dir
  unfoldable pub detect_unit_dir : FilePath → Option FilePath
  unfolding nearest
  detect_unit_dir changed_file =
      nearest unit_file (if is_dir changed_file then changed_file else parent changed_file)

  -- _resolve_in_parent_folders
  unfoldable pub resolve_in_parent_folders : Str → FilePath → Option FilePath
  unfolding nearest join
  resolve_in_parent_folders name unit_dir = elim (nearest name (parent unit_dir)) [
    | none ↦ none
    | some candidate ↦ some (resolve (join candidate name))
  ]

  abbrev cons_some : Option FilePath → List FilePath → List FilePath
  cons_some none refs = refs
  cons_some (some p) refs = p ∷ refs

  -- find_in_parent_folders(name)
  unfoldable pub parent_references : FilePath → List Str → List FilePath
  unfolding resolve_in_parent_folders
  parent_references unit_dir [] = []
  parent_references unit_dir (name ∷ names) =
      cons_some (resolve_in_parent_folders name unit_dir) (parent_references unit_dir names)

  abbrev anchored_at : Str → Option FilePath → Option FilePath
  anchored_at rest none = none
  anchored_at rest (some anchor_path) =
      some (resolve (join (parent anchor_path) (lstrip_char b'/' rest)))

  -- ${dirname(find_in_parent_folders(anchor))}/rest
  unfoldable pub anchored_references : FilePath → List (Str × Str) → List FilePath
  unfolding resolve_in_parent_folders join lstrip_char
  anchored_references unit_dir [] = []
  anchored_references unit_dir ((anchor, rest) ∷ more) =
      cons_some (anchored_at rest (resolve_in_parent_folders anchor unit_dir))
        (anchored_references unit_dir more)

  -- ${get_terragrunt_dir()}/rest, without another interpolation in it
  unfoldable pub unit_relative_references : FilePath → List Str → List FilePath
  unfolding join lstrip_char contains
  unit_relative_references unit_dir [] = []
  unit_relative_references unit_dir (rest ∷ more) =
      let others = unit_relative_references unit_dir more in
      if contains (codes "${") rest
      then others
      else resolve (join unit_dir (lstrip_char b'/' rest)) ∷ others

  -- resolve_parent_config_references
  unfoldable pub resolve_parent_config_references : FilePath → List FilePath
  unfolding parent_references anchored_references unit_relative_references parent_names
      anchored_paths unit_relative_paths
  resolve_parent_config_references hcl_file =
      parent_references (parent hcl_file) (parent_names (read_text hcl_file))
      ++ anchored_references (parent hcl_file) (anchored_paths (read_text hcl_file))
      ++ unit_relative_references (parent hcl_file) (unit_relative_paths (read_text hcl_file))

  abbrev affected_in : FilePath → List FilePath → List FilePath
  affected_in config_resolved [] = []
  affected_in config_resolved (hcl_file ∷ more) =
      let others = affected_in config_resolved more in
      if has_path config_resolved (resolve_parent_config_references hcl_file)
      then add_path (parent hcl_file) others
      else others

  -- find_units_affected_by_parent_config
  unfoldable pub find_units_affected_by_parent_config : FilePath → List FilePath
  unfolding has_path add_path resolve_parent_config_references
  find_units_affected_by_parent_config config_file =
      affected_in (resolve config_file) (hcl_files terragrunt_root)

  -- relative_to does not raise
  unfoldable pub is_under : FilePath → FilePath → Bool
  unfolding same_path
  is_under [] top = same_path [] top
  is_under (part ∷ p) top = same_path (part ∷ p) top || is_under p top

  -- path.suffix == ".hcl"
  abbrev has_hcl_suffix : Str → Bool
  has_hcl_suffix name = ends_with name (codes ".hcl") && not (name == codes ".hcl")

  -- _is_shared_parent_config
  unfoldable pub is_shared_parent_config : FilePath → Bool
  unfolding is_under ends_with
  is_shared_parent_config changed_file =
      if name_of changed_file == unit_file
      then false
      else if has_hcl_suffix (name_of changed_file)
      then is_under (resolve changed_file) (resolve terragrunt_root)
      else false

  abbrev pub depends_on : FilePath → List FilePath → List Str → Bool
  depends_on unit_dir changed_units raw_paths =
      any
        (λ raw_dep_path.
          has_path (resolve (join unit_dir raw_dep_path)) (map resolve changed_units))
        raw_paths

  abbrev pub dependents_in : List FilePath → List FilePath → List FilePath
  dependents_in changed_units [] = []
  dependents_in changed_units (hcl_file ∷ more) =
      let others = dependents_in changed_units more in
      if has_path (parent hcl_file) changed_units
      then others
      else if depends_on (parent hcl_file) changed_units (dependency_paths (read_text hcl_file))
      then add_path (parent hcl_file) others
      else others

  -- find_dependent_units
  unfoldable pub find_dependent_units : List FilePath → List FilePath
  unfolding has_path add_path join dependency_paths
  find_dependent_units changed_units = dependents_in changed_units (hcl_files terragrunt_root)
