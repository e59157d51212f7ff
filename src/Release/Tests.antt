-- ===== src/Release/Tests.antt =====
-- The gate, the next version and the title parser on samples, and the theorems applied to them.
use telemetry_platform.Base.{
  true, none, some, List, [], ◌∷◌, codes, ◌==◌, ◌≡◌, refl, ◌↔◌, All, select,
}
use telemetry_platform.Base.Dict.{keys}
use telemetry_platform.Base.{Str, false, length, drop, ok, raised, value_error, member, ◌++◌}
use telemetry_platform.Base.Int.{pos, negsuc, strip, is_space}
use telemetry_platform.Release.Version.{
  Semver, VersionResult, minor_bump, major_bump, calculate_next_version, show_semver, parse_semver,
  matches_prefix, lt_semver, build_tag_prefix,
}
use telemetry_platform.Release.Version.Next.{calculate_next_version-returns}
use telemetry_platform.Release.Version.Text.{parse_semver-show_semver}
use telemetry_platform.Release.Title.{parse_pr_title, is_lower, derive_bump}
use telemetry_platform.Release.Title.Roundtrip.{title_of, parse_pr_title-title_of}
use telemetry_platform.Release.Gate.{
  aggregate_results, aggregate_results-passes, aggregate_results-report, is_failing, report, fails,
  is_unknown, passes, Job,
}

abbrev jobs : List Job
jobs =
    (codes "lint", (codes "result", codes "success") ∷ [])
    ∷ (codes "plan", (codes "result", codes "skipped") ∷ [])
    ∷ []

abbrev odd_jobs : List Job
odd_jobs = (codes "test", []) ∷ jobs

passed : aggregate_results jobs ≡ none
unfolding aggregate_results passes is_failing ◌==◌
passed = refl

refused :
    aggregate_results odd_jobs
    ≡ some (record { failed_jobs = []; unrecognized_jobs = codes "test" ∷ [] })
unfolding aggregate_results passes is_failing ◌==◌
refused = refl

aggregate_results-passes_example :
    (aggregate_results jobs ≡ none) ↔ All (λ job. passes job ≡ true) jobs
aggregate_results-passes_example = aggregate_results-passes jobs

odd_report :
    aggregate_results odd_jobs
    ≡ report (keys (select fails odd_jobs)) (keys (select is_unknown odd_jobs))
odd_report = aggregate_results-report odd_jobs

abbrev tag_prefix : Str
tag_prefix = codes "m/kms/v"

abbrev tags : List Str
tags =
    codes "m/kms/v0.9.1"
    ∷ codes "m/kms/v0.10.0"
    ∷ codes "m/kms/vnext"
    ∷ codes "m/kms/v1.2"
    ∷ codes "m/s3/v7.0.0"
    ∷ []

next_minor :
    calculate_next_version tags tag_prefix minor_bump
    ≡ ok (record {
      next_version = codes "0.11.0";
      full_tag = codes "m/kms/v0.11.0";
      tag_prefix = tag_prefix;
      bump = minor_bump;
      is_initial = false;
    })
unfolding calculate_next_version ◌==◌
next_minor = refl

prefix_run : build_tag_prefix (codes "module") (codes "m/kms") (codes "config") ≡ ok tag_prefix
unfolding build_tag_prefix ◌==◌
prefix_run = refl

calculate_next_version-returns_example :
    (result : VersionResult) × (next : Semver) × (calculate_next_version tags tag_prefix minor_bump
      ≡ ok result)
    × (result.next_version ≡ show_semver next)
    × (result.full_tag ≡ tag_prefix ++ show_semver next)
    × (member result.full_tag tags ≡ false)
    × ((t : Str) (v : Semver)
        → member t tags ≡ true
        → matches_prefix tag_prefix t ≡ true
        → parse_semver (drop t (length tag_prefix)) ≡ some v
        → lt_semver v next ≡ true)
calculate_next_version-returns_example = calculate_next_version-returns tags tag_prefix minor_bump

parse_semver-show_semver_example :
    parse_semver (show_semver (record { major = pos 10; minor = negsuc 1; patch = pos 0 }))
    ≡ some (record { major = pos 10; minor = negsuc 1; patch = pos 0 })
parse_semver-show_semver_example =
    parse_semver-show_semver (record { major = pos 10; minor = negsuc 1; patch = pos 0 })

abbrev title : Str
title = codes " feat(kms)!: add key rotation"

parse_pr_title-title_of_example :
    parse_pr_title title
    ≡ ok (record {
      commit_type = codes "feat";
      scope = some (codes "kms");
      breaking = true;
      description = codes "add key rotation";
      bump = major_bump;
    })
unfolding strip title_of is_lower is_space derive_bump ◌==◌
parse_pr_title-title_of_example =
    parse_pr_title-title_of title b'f' (codes "eat") (some (codes "kms")) true
      (codes "add key rotation") refl (refl, (refl, (refl, (refl, tt)))) refl (refl, refl)

unknown_type : parse_pr_title (codes "feet: add") ≡ raised value_error
unfolding parse_pr_title is_lower ◌==◌
unknown_type = refl
