-- ===== src/Release/Ci/Agreed.antt =====
-- What a run of ci_calculate_version.py has established when it writes a version.
use telemetry_platform.Base.{
  true, false, Option, none, some, List, [], ◌++◌, Str, codes, ◌==◌, eq_iff, member, Outcome, ok,
  raised, value_error, need, bind-eq-ok, need-eq-ok, ok-injective, Bool-cases, inl, inr, ◌⊎◌, ◌≡◌,
  refl, ◌∙◌, ap, sym, subst,
}
use telemetry_platform.Base.Dict.{Dict}
use telemetry_platform.BranchLock.{require_env}
use telemetry_platform.Release.Ci.{
  Tools, outputs_of, exit_on_value_error, squash_subject, fetch_pr_title_from_api, fetch_git_tags,
  load_config_tag_prefix, agreed_bump, calculate, write_version,
}
use telemetry_platform.Release.Ci.Immutable.{
  is_base, is_version_already_published, check_version_immutability,
}
use telemetry_platform.Release.Title.{
  ParsedTitle, parse_pr_title, derive_bump_from_api_result, same_bump, validate_bump_agreement,
}
use telemetry_platform.Release.Version.{
  BumpType, major_bump, minor_bump, patch_bump, VersionResult, build_tag_prefix,
  calculate_next_version,
}
use telemetry_platform.Release.Version.Next.{calculate_next_version-returns}

exit_on_value_error-eq-ok :
    {A : Type 0} (r : Outcome A) {a : A} → exit_on_value_error r ≡ ok a → r ≡ ok a
exit_on_value_error-eq-ok (ok a) h = h
exit_on_value_error-eq-ok (raised e) h = cc

same_bump_sound : (b c : BumpType) → same_bump b c ≡ true → b ≡ c
unfolding same_bump
same_bump_sound major_bump major_bump h = refl
same_bump_sound major_bump minor_bump h = cc
same_bump_sound major_bump patch_bump h = cc
same_bump_sound minor_bump major_bump h = cc
same_bump_sound minor_bump minor_bump h = refl
same_bump_sound minor_bump patch_bump h = cc
same_bump_sound patch_bump major_bump h = cc
same_bump_sound patch_bump minor_bump h = cc
same_bump_sound patch_bump patch_bump h = refl

validate_bump_agreement_sound :
    (b c : BumpType) (u : Unit {0}) → validate_bump_agreement b c ≡ ok u → b ≡ c
unfolding validate_bump_agreement
validate_bump_agreement_sound b c u h = elim (Bool-cases (same_bump b c)) [
  | inl e ↦ same_bump_sound b c e
  | inr e ↦ let bad = rw e at h in cc
]

-- A new version passes the check, whatever the version at the base was.
check_version_immutability-calculate_next_version :
    (tags : List Str) (tag_prefix : Str) (bump : BumpType) (result : VersionResult)
    (base : Option Str)
    → calculate_next_version tags tag_prefix bump ≡ ok result
    → (member result.full_tag tags ≡ false)
      × (check_version_immutability result.next_version base tags tag_prefix ≡ ok tt)
unfolding check_version_immutability is_version_already_published
check_version_immutability-calculate_next_version tags tag_prefix bump result base h =
    let (made, next, is_made, text, full, fresh, above) =
      calculate_next_version-returns tags tag_prefix bump in
    let same : made ≡ result = ok-injective (sym is_made ∙ h) in
    let unused : member (tag_prefix ++ made.next_version) tags ≡ false =
      subst (λ t. member t tags ≡ false) (full ∙ ap (λ t. tag_prefix ++ t) (sym text)) fresh in
    subst
      (λ (r : VersionResult).
        (member r.full_tag tags ≡ false)
        × (check_version_immutability r.next_version base tags tag_prefix ≡ ok tt))
      same
      (
        fresh,
        elim (Bool-cases (is_base base made.next_version)) [
          | inl e ↦ rw e refl
          | inr e ↦ rw (e, unused) refl
        ],
      )

module _ (tools : Tools) where
  -- The title that GitHub names for the commit asks for this bump, and the squash subject for the same.
  abbrev pub Agreed : Str → Str → Str → BumpType → Type 0
  Agreed repo commit_sha commit_msg bump =
      (title : Str) × (parsed : ParsedTitle) × (squash : ParsedTitle) × (fetch_pr_title_from_api
          tools repo commit_sha
        ≡ ok (some title))
      × (parse_pr_title title ≡ ok parsed)
      × (parse_pr_title (squash_subject commit_msg) ≡ ok squash)
      × (parsed.bump ≡ bump)
      × (squash.bump ≡ bump)

  agreed_bump-Agreed :
      (repo commit_sha commit_msg : Str) (bump : BumpType)
      → agreed_bump tools repo commit_sha commit_msg ≡ ok bump
      → Agreed repo commit_sha commit_msg bump
  unfolding agreed_bump derive_bump_from_api_result
  agreed_bump-Agreed repo commit_sha commit_msg bump h =
      let (answer, fetched, h1) = bind-eq-ok (fetch_pr_title_from_api tools repo commit_sha) _ h in
      let (api_bump, derived, h2) =
        bind-eq-ok (exit_on_value_error (derive_bump_from_api_result answer)) _ h1 in
      let (squash, squashed, h3) =
        bind-eq-ok (exit_on_value_error (parse_pr_title (squash_subject commit_msg))) _ h2 in
      let (u, agree, h4) =
        bind-eq-ok (exit_on_value_error (validate_bump_agreement api_bump squash.bump)) _ h3 in
      let (title, named, h5) =
        bind-eq-ok (need value_error answer) _ (exit_on_value_error-eq-ok _ derived) in
      let (parsed, parses, h6) = bind-eq-ok (parse_pr_title title) _ h5 in
      let is = ok-injective h4 in
      (
        title,
        parsed,
        squash,
        fetched ∙ ap (λ a. ok a) (need-eq-ok value_error answer named),
        parses,
        exit_on_value_error-eq-ok _ squashed,
        ok-injective h6 ∙ is,
        sym (validate_bump_agreement_sound _ _ u (exit_on_value_error-eq-ok _ agree)) ∙ is,
      )

  -- What is known of a version that was derived.
  abbrev pub Derived : Dict Str → VersionResult → Type 0
  Derived environ result =
      (commit_sha : Str) × (commit_msg : Str) × (repo : Str) × (tags : List Str)
      × (tag_prefix : Str) × (bump : BumpType) × (require_env (codes "COMMIT_SHA") environ
          ≡ ok commit_sha)
      × (require_env (codes "COMMIT_MSG") environ ≡ ok commit_msg)
      × (require_env (codes "REPO") environ ≡ ok repo)
      × Agreed repo commit_sha commit_msg bump
      × (fetch_git_tags tools ≡ ok tags)
      × (calculate_next_version tags tag_prefix bump ≡ ok result)
      × (member result.full_tag tags ≡ false)
      × ((base : Option Str)
          → check_version_immutability result.next_version base tags tag_prefix ≡ ok tt)

  calculate-Derived :
      (environ : Dict Str) (scope : Str) (result : VersionResult)
      → calculate tools environ scope ≡ ok result
      → Derived environ result
  unfolding calculate
  calculate-Derived environ scope result h =
      let (commit_sha, has_sha, h1) = bind-eq-ok (require_env (codes "COMMIT_SHA") environ) _ h in
      let (commit_msg, has_msg, h2) = bind-eq-ok (require_env (codes "COMMIT_MSG") environ) _ h1 in
      let (repo, has_repo, h3) = bind-eq-ok (require_env (codes "REPO") environ) _ h2 in
      let (config_tag_prefix, loaded, h4) = bind-eq-ok (load_config_tag_prefix tools) _ h3 in
      let (bump, agrees, h5) = bind-eq-ok (agreed_bump tools repo commit_sha commit_msg) _ h4 in
      let (tag_prefix, built, h6) =
        bind-eq-ok (exit_on_value_error (build_tag_prefix scope _ config_tag_prefix)) _ h5 in
      let (tags, fetched, h7) = bind-eq-ok (fetch_git_tags tools) _ h6 in
      let made = exit_on_value_error-eq-ok _ h7 in
      let checks = λ (base : Option Str).
        check_version_immutability-calculate_next_version tags tag_prefix bump result base made in
      (
        commit_sha,
        commit_msg,
        repo,
        tags,
        tag_prefix,
        bump,
        has_sha,
        has_msg,
        has_repo,
        agreed_bump-Agreed repo commit_sha commit_msg bump agrees,
        fetched,
        made,
        (checks none).0,
        λ base. (checks base).1,
      )

  -- If the run succeeds, it has nothing to release (the scope is terragrunt) and writes nothing, or it
  -- writes a version derived from the tags by the bump that the title of the commit's pull request asks
  -- for, the subject of the squash commit asks for the same bump, the tag is new, and the version
  -- passes the immutability check whatever version the base has.
  pub write_version-Derived :
      (environ : Dict Str) (written : List (Str × Str))
      → write_version tools environ ≡ ok written
      → ((require_env (codes "SCOPE") environ ≡ ok (codes "terragrunt")) × (written ≡ []))
        ⊎ ((result : VersionResult) × (written ≡ outputs_of result) × Derived environ result)
  unfolding write_version
  write_version-Derived environ written h =
      let (scope, has_scope, h1) = bind-eq-ok (require_env (codes "SCOPE") environ) _ h in
      let (output_path, has_output, h2) = bind-eq-ok (require_env (codes "OUTPUT") environ) _ h1 in
      elim (Bool-cases (scope == codes "terragrunt")) [
        | inl e ↦ inl (
          has_scope ∙ ap (λ s. ok s) ((eq_iff scope (codes "terragrunt")).0 e),
          sym (ok-injective (rw e at h2)),
        )
        | inr e ↦
            let (result, calculated, h3) =
              bind-eq-ok (calculate tools environ scope) _ (rw e at h2) in
            inr (result, sym (ok-injective h3), calculate-Derived environ scope result calculated)
      ]
