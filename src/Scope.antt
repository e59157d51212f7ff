-- ===== src/Scope.antt =====
-- `_find_module_path` and `detect_scope` of scripts/detect_scope.py.
pub mod Accepts
pub mod Ci
pub mod Leaf
pub mod Single
mod Tests
use telemetry_platform.Base.{
  ℕ, Bool, true, false, Option, none, some, List, [], ◌∷◌, ◌++◌, if◌then◌else◌, Str, codes,
  starts_with, length, drop, ◌≡◌,
}
use telemetry_platform.Base.Dict.{Dict, get, put, set_default, keys}
use telemetry_platform.Base.Order.{sorted, ends_with, before, rstrip_char}

-- SCOPE_MODULE, SCOPE_TERRAGRUNT, SCOPE_CONFIG, SCOPE_MULTI_MODULE, SCOPE_MIXED
pub data Scope : Type 0 where
  module_scope terragrunt_scope config_scope multi_module mixed : Scope

-- A violation message by what it names: the modules, and whether the other scopes are touched.
pub data Violation : Type 0 where
  spans_modules : List Str → Violation
  spans_mixed : List Str → Bool → Bool → Violation

pub record ScopeResult : Type 0 where
  pub scope : Scope
  pub module_path : Option Str
  pub modules : List Str
  pub valid : Bool
  pub violations : List Violation

pub record Buckets : Type 0 where
  pub terragrunt_files : List Str
  pub module_files : Dict (List Str)
  pub config_files : List Str

-- What the loop's body takes one file for.
pub data Kind : Type 0 where
  docs unit_file config_file : Kind
  in_module : Str → Kind

abbrev leaf_path : Str → Str → Option Str
leaf_path root [] = none
leaf_path root (c ∷ leaf) = some (rstrip_char b'/' root ++ codes "/" ++ c ∷ leaf)

-- _find_module_path
unfoldable pub find_module_path : Str → Str → Option Str
unfolding before rstrip_char drop
find_module_path file_path module_root =
    leaf_path module_root (before b'/' (drop file_path (length module_root)))

abbrev module_kind : Option Str → Kind
module_kind none = config_file
module_kind (some path) = in_module path

-- The loop over the module roots, and what follows it.
unfoldable pub kind_under : List Str → Str → Kind
unfolding find_module_path starts_with
kind_under [] file_path = config_file
kind_under (root ∷ roots) file_path =
    let rest = kind_under roots file_path in
    if starts_with file_path root then module_kind (find_module_path file_path root) else rest

unfoldable pub classify : List Str → Str → Str → Kind
unfolding kind_under ends_with starts_with
classify module_roots terragrunt_root file_path =
    if starts_with file_path terragrunt_root
    then (if ends_with file_path (codes ".md") then docs else unit_file)
    else kind_under module_roots file_path

-- module_files.setdefault(path, []).append(file)
abbrev files_or_empty : Option (List Str) → List Str
files_or_empty none = []
files_or_empty (some files) = files

unfoldable pub add_file : Str → Kind → Buckets → Buckets
unfolding get put
add_file f docs b = b
add_file f unit_file b = record b { terragrunt_files = b.terragrunt_files ++ f ∷ [] }
add_file f config_file b = record b { config_files = b.config_files ++ f ∷ [] }
add_file f (in_module m) b = record b {
  module_files = put m (files_or_empty (get m b.module_files) ++ f ∷ []) b.module_files;
}

unfoldable pub sort_files : List Str → Str → List Str → Buckets → Buckets
unfolding classify add_file
sort_files roots terragrunt_root [] b = b
sort_files roots terragrunt_root (f ∷ fs) b =
    sort_files roots terragrunt_root fs (add_file f (classify roots terragrunt_root f) b)

abbrev pub touched : List Str → Bool
touched [] = false
touched (f ∷ fs) = true

abbrev valid_result : Scope → Option Str → ScopeResult
valid_result scope path = record {
  scope = scope;
  module_path = path;
  modules = [];
  valid = true;
  violations = [];
}

abbrev invalid_result : Scope → Violation → ScopeResult
invalid_result scope violation = record {
  scope = scope;
  module_path = none;
  modules = [];
  valid = false;
  violations = violation ∷ [];
}

-- The decision table on the modules, and on whether a unit and a configuration file are touched.
unfoldable pub decide : List Str → Bool → Bool → ScopeResult
unfolding sorted
decide (m ∷ n ∷ ms) has_terragrunt has_config =
    invalid_result multi_module (spans_modules (sorted (m ∷ n ∷ ms)))
decide (m ∷ []) false false = valid_result module_scope (some m)
decide (m ∷ []) has_terragrunt has_config =
    invalid_result mixed (spans_mixed (m ∷ []) has_terragrunt has_config)
decide [] true true = invalid_result mixed (spans_mixed [] true true)
decide [] true false = valid_result terragrunt_scope none
decide [] false has_config = valid_result config_scope none

abbrev no_files : Buckets
no_files = record { terragrunt_files = []; module_files = []; config_files = [] }

abbrev pub decide_buckets : Buckets → ScopeResult
decide_buckets b =
    decide (keys b.module_files) (touched b.terragrunt_files) (touched b.config_files)

-- detect_scope
unfoldable pub detect_scope : List Str → List Str → Str → ScopeResult
unfolding sort_files decide
detect_scope [] module_roots terragrunt_root = valid_result config_scope none
detect_scope (f ∷ fs) module_roots terragrunt_root =
    decide_buckets (sort_files module_roots terragrunt_root (f ∷ fs) no_files)
