-- ===== src/Release/Ci/Tests.antt =====
-- A release of a module, and the theorem applied to it.
use telemetry_platform.Base.{
  false, none, some, [], ◌∷◌, if◌then◌else◌, Str, codes, ◌==◌, member, ok, raised, value_error,
  runtime_error, ◌⊎◌, ◌≡◌, refl,
}
use telemetry_platform.Base.Dict.{Dict}
use telemetry_platform.Base.Int.{pos}
use telemetry_platform.BranchLock.{Finished, require_env}
use telemetry_platform.Json.{str, obj, of_dict}
use telemetry_platform.Release.Ci.{Tools, outputs_of, write_version}
use telemetry_platform.Release.Ci.Immutable.{main_check, check_version_immutability}
use telemetry_platform.Release.Ci.Agreed.{Derived, write_version-Derived}
use telemetry_platform.Release.Title.{is_lower}
use telemetry_platform.Release.Version.{VersionResult, minor_bump}

abbrev answer : Str → Finished
answer out = record { returncode = pos 0; stdout = out; stderr = [] }

abbrev tools : Tools
tools = record {
  run = λ cmd.
      if member (codes "git") cmd
      then (if member (codes "tag") cmd
          then answer (codes "m/kms/v1.2.3\nm/s3/v4.0.0\n")
          else record { returncode = pos 1; stdout = []; stderr = [] })
      else answer (codes "feat(kms): rotate\n");
  loads = λ s. some (obj (of_dict ((codes "config_tag_prefix", str (codes "conf")) ∷ [])));
  config_text = some (codes "{}");
  version_text = some (codes "1.2.3\n");
}

abbrev environ : Str → Str → Dict Str
environ scope message =
    (codes "SCOPE", scope)
    ∷ (codes "OUTPUT", codes "out")
    ∷ (codes "COMMIT_SHA", codes "abc")
    ∷ (codes "COMMIT_MSG", message)
    ∷ (codes "REPO", codes "o/r")
    ∷ (codes "MODULE_PATH", codes "m/kms")
    ∷ []

abbrev derived : VersionResult
derived = record {
  next_version = codes "1.3.0";
  full_tag = codes "m/kms/v1.3.0";
  tag_prefix = codes "m/kms/v";
  bump = minor_bump;
  is_initial = false;
}

release_run :
    write_version tools (environ (codes "module") (codes "\nperf: faster\nbody"))
    ≡ ok (outputs_of derived)
unfolding write_version ◌==◌ member is_lower
release_run = refl

forged_run :
    write_version tools (environ (codes "module") (codes "fix: rotate")) ≡ raised runtime_error
unfolding write_version ◌==◌ member is_lower
forged_run = refl

terragrunt_run : write_version tools (environ (codes "terragrunt") (codes "fix: x")) ≡ ok []
unfolding write_version ◌==◌ member
terragrunt_run = refl

reused_run :
    check_version_immutability (codes "1.0.0") none (codes "v1.0.0" ∷ []) (codes "v")
    ≡ raised value_error
unfolding check_version_immutability ◌==◌ member
reused_run = refl

-- The version file is new, and its version was derived.
main_check_run :
    main_check tools (codes "VERSION") (codes "base") (codes "m/kms") (codes "module")
    ≡ raised value_error
unfolding main_check ◌==◌ member
main_check_run = refl

write_version-Derived_example :
    ((require_env (codes "SCOPE") (environ (codes "module") (codes "\nperf: faster\nbody"))
        ≡ ok (codes "terragrunt"))
      × (outputs_of derived ≡ []))
    ⊎ ((result : VersionResult) × (outputs_of derived ≡ outputs_of result)
        × Derived tools (environ (codes "module") (codes "\nperf: faster\nbody")) result)
write_version-Derived_example =
    write_version-Derived tools (environ (codes "module") (codes "\nperf: faster\nbody"))
      (outputs_of derived) release_run
