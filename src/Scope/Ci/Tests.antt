-- ===== src/Scope/Ci/Tests.antt =====
-- A release of one module, the override, and the theorem applied to the first.
use telemetry_platform.Base.{
  true, false, none, some, List, [], ◌∷◌, if◌then◌else◌, Str, codes, ◌==◌, member, ok, raised,
  authorization_error, d43_violation, ◌≡◌, refl,
}
use telemetry_platform.Base.Dict.{Dict}
use telemetry_platform.Base.Int.{pos}
use telemetry_platform.Json.{Json, str, arr, of_list}
use telemetry_platform.Scope.Ci.{
  Site, CiResult, ci_output, parse_scope_config, run_ci_detect_scope, parse_labels,
  check_scope_override,
}
use telemetry_platform.Scope.Ci.Written.{Detected, run_ci_detect_scope-Detected}

abbrev text_of : Json → Str
text_of (str s) = s
text_of v = []

abbrev site : Site
site = record {
  entries = λ p. some (codes "tests" ∷ codes "kms" ∷ []);
  is_dir = λ p. true;
  is_file = λ p. p == codes "mods/kms/main.tf";
  which_gh = some (codes "/bin/gh");
  run = λ cmd. record {
    returncode = pos 0;
    stdout =
        if member (codes "orgs/o/memberships/root") cmd then codes "admin\n" else codes "member\n";
    stderr = [];
  };
  loads = λ s. some (arr (of_list (str (codes "detect-scope-override") ∷ [])));
  dumps = λ ms. [];
  py_str = text_of;
}

abbrev config : Dict Json
config =
    (codes "module_roots", arr (of_list (str (codes "mods/") ∷ [])))
    ∷ (codes "terragrunt_root", str (codes "tg/"))
    ∷ []

abbrev files : List Str
files = codes "mods/kms/VERSION" ∷ []

abbrev result : CiResult
result = record {
  scope = codes "module";
  module_path = codes "mods/kms";
  modules = [];
  version_only = true;
  valid = true;
  violations = [];
}

release_run :
    run_ci_detect_scope site files false config
    ≡ ok (result, ci_output site (codes "module") (codes "mods/kms") [] true)
unfolding run_ci_detect_scope ◌==◌
release_run = refl

run_ci_detect_scope-Detected_example :
    (roots : List Str) × (terragrunt_root : Str) × (parse_scope_config site config
      ≡ ok (roots, terragrunt_root))
    × Detected site files false roots terragrunt_root result
        (ci_output site (codes "module") (codes "mods/kms") [] true)
run_ci_detect_scope-Detected_example =
    run_ci_detect_scope-Detected site files false config result
      (ci_output site (codes "module") (codes "mods/kms") [] true) release_run

override_run :
    run_ci_detect_scope site files true config
    ≡ ok (
      record {
        scope = codes "all";
        module_path = [];
        modules = codes "mods/kms" ∷ [];
        version_only = false;
        valid = true;
        violations = [];
      },
      ci_output site (codes "all") [] (codes "mods/kms" ∷ []) false,
    )
unfolding run_ci_detect_scope ◌==◌
override_run = refl

empty_run :
    run_ci_detect_scope (record site { entries = λ p. none }) files true config
    ≡ raised d43_violation
unfolding run_ci_detect_scope ◌==◌
empty_run = refl

labels_run : parse_labels site (codes " a, ,b ") ≡ ok (codes "a" ∷ codes "b" ∷ [])
unfolding parse_labels
labels_run = refl

array_run : parse_labels site (codes "[\"x\"]") ≡ ok (codes "detect-scope-override" ∷ [])
unfolding parse_labels
array_run = refl

admin_run :
    check_scope_override site (codes "detect-scope-override" ∷ []) (codes "root") (codes "o")
    ≡ ok ((codes "scope_override", codes "true") ∷ [])
unfolding check_scope_override ◌==◌ member
admin_run = refl

denied_run :
    check_scope_override site (codes "detect-scope-override" ∷ []) (codes "eve") (codes "o")
    ≡ raised authorization_error
unfolding check_scope_override ◌==◌ member
denied_run = refl
