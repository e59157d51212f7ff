-- ===== src/Detect/Tests.antt =====
-- A tree of two units, of which one depends on the other.
use telemetry_platform.Base.{
  true, false, some, List, [], ◌∷◌, if◌then◌else◌, Str, codes, ◌==◌, member, starts_with, ok, ◌≡◌,
  refl,
}
use telemetry_platform.Base.Int.{pos}
use telemetry_platform.Accounts.Paths.{reassemble_flags}
use telemetry_platform.Detect.{
  FilePath, Tree, parent, has_path, same_path, is_bootstrap_unit, detect_unit_dir,
}
use telemetry_platform.Detect.Outputs.{Wrote, run_detect-Names}
use telemetry_platform.Detect.Reach.{Names}
use telemetry_platform.Detect.References.{
  dependency_paths, parent_names, anchored_paths, unit_relative_paths,
}
use telemetry_platform.Detect.Run.{list_changed_files, run_detect, main}

abbrev root : FilePath
root = codes "tg" ∷ codes "r" ∷ []

abbrev unit_a : FilePath
unit_a = codes "a" ∷ root

abbrev unit_b : FilePath
unit_b = codes "b" ∷ root

abbrev files : List FilePath
files = (codes "terragrunt.hcl" ∷ unit_a) ∷ (codes "terragrunt.hcl" ∷ unit_b) ∷ []

abbrev text_b : Str
text_b = codes "dependency \"a\" {\n  config_path = \"../a\"\n}\n"

-- Each `..` takes off the part before it.
unfoldable resolve : FilePath → FilePath
unfolding ◌==◌
resolve [] = []
resolve (part ∷ p) =
    let above = resolve p in if part == codes ".." then parent above else part ∷ above

abbrev tree : Tree
tree = record {
  is_dir = λ p. false;
  exists = λ p. has_path p (root ∷ files);
  read_text = λ p. if same_path p (codes "terragrunt.hcl" ∷ unit_b) then text_b else [];
  resolve = resolve;
  hcl_files = λ p. files;
  git = λ cmd. record { returncode = pos 0; stdout = codes "tg/a/main.tf\n" };
}

dependency_run : dependency_paths text_b ≡ codes "../a" ∷ []
unfolding dependency_paths
dependency_run = refl

-- The last path of a block counts.
last_dependency_run :
    dependency_paths (codes "dependency \"x\"{config_path=\"1\" config_path = \"2\"}")
    ≡ codes "2" ∷ []
unfolding dependency_paths
last_dependency_run = refl

parent_run :
    parent_names (codes "x(find_in_parent_folders( \"root.hcl\" ))") ≡ codes "root.hcl" ∷ []
unfolding parent_names
parent_run = refl

anchored_run :
    anchored_paths (codes "\"${dirname(find_in_parent_folders(\"root.hcl\"))}/_env/x.hcl\"")
    ≡ (codes "root.hcl", codes "/_env/x.hcl") ∷ []
unfolding anchored_paths
anchored_run = refl

unit_relative_run :
    unit_relative_paths (codes "\"${get_terragrunt_dir()}/../active.hcl\"")
    ≡ codes "/../active.hcl" ∷ []
unfolding unit_relative_paths
unit_relative_run = refl

detect_run : detect_unit_dir tree root (codes "main.tf" ∷ codes "m" ∷ unit_a) ≡ some unit_a
unfolding detect_unit_dir ◌==◌ has_path
detect_run = refl

bootstrap_run : is_bootstrap_unit (codes "x_role" ∷ codes "bootstrap" ∷ root) ≡ true
unfolding is_bootstrap_unit starts_with
bootstrap_run = refl

changed_run :
    list_changed_files tree root (codes "m") (codes "h") ≡ ok ((codes "main.tf" ∷ unit_a) ∷ [])
unfolding list_changed_files ◌==◌
changed_run = refl

abbrev written : List (Str × Str)
written =
    (codes "include_dir_flags", reassemble_flags (codes "/r/tg/a" ∷ codes "/r/tg/b" ∷ [])) ∷ []

detect_units_run : run_detect tree root (codes "m") (codes "h") false ≡ ok written
unfolding run_detect ◌==◌ has_path resolve reassemble_flags
detect_units_run = refl

run_detect-Names_example :
    (fs : List FilePath) × (list_changed_files tree root (codes "m") (codes "h") ≡ ok fs)
    × (units : List Str) × Names tree root (codes "m") (codes "h") false fs units
    × Wrote tree root (codes "m") (codes "h") false fs units written
run_detect-Names_example =
    run_detect-Names tree root (codes "m") (codes "h") false written detect_units_run

-- A change outside any unit fails.
abbrev outside : Tree
outside = record tree { git = λ cmd. record { returncode = pos 0; stdout = codes "README.md\n" } }

outside_run :
    main
      (record outside {
        git = λ cmd. record {
          returncode = pos 0;
          stdout = if member (codes "--diff-filter=D") cmd then [] else codes "README.md\n";
        };
      })
      root
      (codes "m")
      (codes "h")
      false
    ≡ (ok 1, [])
unfolding main ◌==◌ has_path resolve member
outside_run = refl

deleted_run :
    main outside root (codes "m") (codes "h") false
    ≡ (ok 0, (codes "include_dir_flags", []) ∷ (codes "has_units", codes "false") ∷ [])
unfolding main ◌==◌ has_path resolve
deleted_run = refl
