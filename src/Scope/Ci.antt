-- ===== src/Scope/Ci.antt =====
-- scripts/ci_detect_scope.py and scripts/check_scope_override.py: the scope of a pull request in CI, with
-- `parse_scope_config` and `discover_all_modules` of scripts/detect_scope.py. The file tree, gh and the
-- functions of json are parameters, which do not change during a run.
pub mod Written
mod Tests
use telemetry_platform.Base.{
  Bool, true, false, not, ◌&&◌, ◌||◌, Option, none, some, List, [], ◌∷◌, ◌++◌, map, all, select,
  if◌then◌else◌, nat_beq, Str, codes, ◌==◌, member, starts_with, Exc, Outcome, ok, raised,
  value_error, key_error, type_error, authorization_error, d43_violation, need, ◌>>=◌, ℕ,
}
use telemetry_platform.Base.Dict.{Dict, get}
use telemetry_platform.Base.Int.{strip}
use telemetry_platform.Base.Order.{sorted, ends_with, rstrip_char, split_char}
use telemetry_platform.BranchLock.{Finished, succeeded}
use telemetry_platform.Json.{Json, str, arr, items, iterate_or_empty}
use telemetry_platform.Scope.{
  Scope, module_scope, terragrunt_scope, config_scope, multi_module, mixed, ScopeResult, Violation,
  touched, detect_scope,
}

-- The file tree below the repository's root (the names in a directory, where it exists, and two tests),
-- the path of gh, where it is installed, the running of commands, json.loads, json.dumps of a list of texts, and str(v).
pub record Site : Type 0 where
  pub entries : Str → Option (List Str)
  pub is_dir : Str → Bool
  pub is_file : Str → Bool
  pub which_gh : Option Str
  pub run : List Str → Finished
  pub loads : Str → Option Json
  pub dumps : List Str → Str
  pub py_str : Json → Str

abbrev pub scope_text : Scope → Str
scope_text module_scope = codes "module"
scope_text terragrunt_scope = codes "terragrunt"
scope_text config_scope = codes "config"
scope_text multi_module = codes "multi-module"
scope_text mixed = codes "mixed"

-- The result of `run_ci_detect_scope`.
pub record CiResult : Type 0 where
  pub scope : Str
  pub module_path : Str
  pub modules : List Str
  pub version_only : Bool
  pub valid : Bool
  pub violations : List Violation

abbrev text_or_empty : Option Str → Str
text_or_empty none = []
text_or_empty (some s) = s

abbrev is_text : Str → Bool
is_text [] = false
is_text (c ∷ s) = true

abbrev bool_text : Bool → Str
bool_text true = codes "true"
bool_text false = codes "false"

-- A VERSION file
unfoldable pub is_version_file : Str → Bool
unfolding ends_with
is_version_file f = f == codes "VERSION" || ends_with f (codes "/VERSION")

abbrev is_module : Scope → Bool
is_module module_scope = true
is_module s = false

-- version_only
unfoldable pub is_version_only : Scope → List Str → Bool
unfolding is_version_file
is_version_only scope changed_files =
    is_module scope && (touched changed_files && all is_version_file changed_files)

module _ (site : Site) where
  open site use {entries, is_dir, is_file, which_gh, run, loads, dumps, py_str}

  abbrev roots_of : Json → Outcome (List Str)
  roots_of (arr vs) = ok (map py_str (items vs))
  roots_of v = raised value_error

  -- parse_scope_config
  unfoldable pub parse_scope_config : Dict Json → Outcome (List Str × Str)
  unfolding get
  parse_scope_config config = do
    module_roots_raw ← need key_error (get (codes "module_roots") config)
    module_roots ← roots_of module_roots_raw
    terragrunt_root ← need key_error (get (codes "terragrunt_root") config)
    ok (module_roots, py_str terragrunt_root)

  -- The modules among the names below a root.
  unfoldable pub modules_in : Str → List Str → List Str
  modules_in root [] = []
  modules_in root (name ∷ names) =
      let rest = modules_in root names in
      if is_dir (root ++ b'/' ∷ name)
      then (if is_file (root ++ b'/' ∷ (name ++ codes "/main.tf"))
          then (root ++ b'/' ∷ name) ∷ rest
          else rest)
      else rest

  abbrev names_or_none : Option (List Str) → List Str
  names_or_none none = []
  names_or_none (some names) = sorted names

  unfoldable pub modules_under : List Str → List Str
  unfolding modules_in rstrip_char sorted
  modules_under [] = []
  modules_under (root ∷ roots) =
      modules_in (rstrip_char b'/' root) (names_or_none (entries (rstrip_char b'/' root)))
      ++ modules_under roots

  -- discover_all_modules
  unfoldable pub discover_all_modules : List Str → List Str
  unfolding modules_under sorted
  discover_all_modules module_roots = sorted (modules_under module_roots)

  -- write_ci_output, as keys and values in order
  abbrev pub ci_output : Str → Str → List Str → Bool → List (Str × Str)
  ci_output scope module_path modules version_only =
      (codes "scope", scope)
      ∷ (codes "module_path", module_path)
      ∷ (codes "modules", dumps modules)
      ∷ (codes "version_only", bool_text version_only)
      ∷ []

  -- The override: every module, of which there is one.
  unfoldable pub run_override : List Str → Outcome (CiResult × List (Str × Str))
  run_override [] = raised d43_violation
  run_override (m ∷ modules) = ok (
    record {
      scope = codes "all";
      module_path = [];
      modules = m ∷ modules;
      version_only = false;
      valid = true;
      violations = [];
    },
    ci_output (codes "all") [] (m ∷ modules) false,
  )

  -- What is written for a detected scope.
  unfoldable pub run_detected : List Str → ScopeResult → CiResult × List (Str × Str)
  unfolding is_version_only
  run_detected changed_files result =
      if result.valid
      then (
        record {
          scope = scope_text result.scope;
          module_path = text_or_empty result.module_path;
          modules = [];
          version_only = is_version_only result.scope changed_files;
          valid = true;
          violations = [];
        },
        ci_output (scope_text result.scope) (text_or_empty result.module_path) []
            (is_version_only result.scope changed_files),
      )
      else (
        record {
          scope = scope_text result.scope;
          module_path = [];
          modules = [];
          version_only = false;
          valid = false;
          violations = result.violations;
        },
        ci_output (scope_text result.scope) [] [] false,
      )

  -- run_ci_detect_scope: the result, and what is written
  unfoldable pub run_ci_detect_scope :
      List Str → Bool → Dict Json → Outcome (CiResult × List (Str × Str))
  unfolding parse_scope_config discover_all_modules run_override detect_scope run_detected
  run_ci_detect_scope changed_files scope_override config = do
    roots ← parse_scope_config config
    if scope_override
        then run_override (discover_all_modules roots.0)
        else ok (run_detected changed_files (detect_scope changed_files roots.0 roots.1))

  abbrev label_texts : List Json → List Str
  label_texts labels = select is_text (map (λ label. strip (py_str label)) labels)

  -- parse_labels; the iteration is over an array, since the text begins with a bracket
  unfoldable pub parse_labels : Str → Outcome (List Str)
  unfolding strip starts_with split_char select iterate_or_empty
  parse_labels raw_labels =
      if starts_with (strip raw_labels) (codes "[")
      then (need value_error (loads (strip raw_labels)) >>= λ decoded.
          iterate_or_empty decoded >>= λ labels. ok (label_texts labels))
      else ok (select is_text (map strip (split_char b',' raw_labels)))

  abbrev role_of_answer : Finished → Outcome Bool
  role_of_answer result =
      if succeeded result
      then ok (strip result.stdout == codes "admin")
      else raised authorization_error

  -- is_admin_member
  unfoldable pub is_admin_member : Str → Str → Outcome Bool
  unfolding succeeded strip
  is_admin_member org author = do
    gh_binary ← need authorization_error which_gh
    role_of_answer (
        run (
          gh_binary
          ∷ codes "api"
          ∷ (codes "orgs/" ++ org ++ codes "/memberships/" ++ author)
          ∷ codes "--jq"
          ∷ codes ".role"
          ∷ []))

  -- check_scope_override: what is written
  unfoldable pub check_scope_override : List Str → Str → Str → Outcome (List (Str × Str))
  unfolding member is_admin_member
  check_scope_override labels author org =
      if member (codes "detect-scope-override") labels
      then (is_admin_member org author >>= λ admin.
          if admin
          then ok ((codes "scope_override", codes "true") ∷ [])
          else raised authorization_error)
      else ok ((codes "scope_override", codes "false") ∷ [])
