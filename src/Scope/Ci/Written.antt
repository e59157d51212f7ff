-- ===== src/Scope/Ci/Written.antt =====
-- What `run_ci_detect_scope` writes.
use telemetry_platform.Base.{
  Bool, true, false, Option, none, some, List, [], ◌∷◌, all, Str, codes, ◌==◌, eq_iff, starts_with,
  All, ok, bind-eq-ok, ok-injective, Bool-cases, inl, inr, ◌≡◌, ◌≢◌, refl, ◌∙◌, ap, sym, subst,
  arith,
}
use mathlib.Core.List.{reverse}
use telemetry_platform.Base.Order.{ends_with}
use telemetry_platform.Base.Dict.{Dict}
use telemetry_platform.Json.{Json}
use telemetry_platform.Scope.{
  Scope, module_scope, terragrunt_scope, config_scope, multi_module, mixed, ScopeResult, Kind, docs,
  unit_file, config_file, in_module, classify, kind_under, module_kind, find_module_path, touched,
  detect_scope,
}
use telemetry_platform.Scope.Ci.{
  Site, CiResult, is_version_file, is_version_only, is_module, scope_text, text_or_empty,
  parse_scope_config, discover_all_modules, ci_output, run_override, run_detected,
  run_ci_detect_scope,
}
use telemetry_platform.Scope.Single.{Agrees, detect_scope-Agrees}

is_module_sound : (s : Scope) → is_module s ≡ true → s ≡ module_scope
is_module_sound module_scope h = refl
is_module_sound terragrunt_scope h = cc
is_module_sound config_scope h = cc
is_module_sound multi_module h = cc
is_module_sound mixed h = cc

-- A text cannot begin in two ways.
starts_with_one :
    (s : Str) → starts_with s (codes "NOISREV/") ≡ true → starts_with s (codes "dm.") ≡ false
unfolding starts_with
starts_with_one [] h = cc
starts_with_one (c ∷ s) h = ground arith

is_version_file-ends_with : (f : Str) → is_version_file f ≡ true → ends_with f (codes ".md") ≡ false
unfolding is_version_file ends_with
is_version_file-ends_with f h = elim (Bool-cases (f == codes "VERSION")) [
  | inl e ↦
      subst (λ t. ends_with t (codes ".md") ≡ false) (sym ((eq_iff f (codes "VERSION")).0 e))
        version
  | inr e ↦ starts_with_one (reverse f) (rw e at h)
]
  where
    version : ends_with (codes "VERSION") (codes ".md") ≡ false
    version = refl

module_kind-docs : (o : Option Str) → module_kind o ≢ docs
module_kind-docs none h = cc
module_kind-docs (some m) h = cc

kind_under-docs : (roots : List Str) (f : Str) → kind_under roots f ≢ docs
unfolding kind_under
kind_under-docs [] f h = cc
kind_under-docs (root ∷ roots) f h = elim (Bool-cases (starts_with f root)) [
  | inl e ↦ module_kind-docs (find_module_path f root) (rw e at h)
  | inr e ↦ kind_under-docs roots f (rw e at h)
]

-- A VERSION file is no documentation.
classify-docs :
    (roots : List Str) (terragrunt_root f : Str)
    → is_version_file f ≡ true
    → classify roots terragrunt_root f ≢ docs
unfolding classify
classify-docs roots terragrunt_root f v h =
    let no_md = is_version_file-ends_with f v in
    elim (Bool-cases (starts_with f terragrunt_root)) [
      | inl e ↦ let bad = rw (e, no_md) at h in cc
      | inr e ↦ kind_under-docs roots f (rw e at h)
    ]

-- A file that agrees with a module's scope, and is no documentation, lies in that module.
Agrees-module :
    (r : ScopeResult) (k : Kind)
    → r.scope ≡ module_scope
    → k ≢ docs
    → Agrees r k
    → k ≡ in_module (text_or_empty r.module_path)
Agrees-module r docs s other h = elim (other refl) [ ]
Agrees-module r unit_file s other h = let bad = sym s ∙ h in cc
Agrees-module r config_file s other h = let bad = sym s ∙ h in cc
Agrees-module r (in_module m) s other (h, path) = rw path refl

-- A VERSION file of this module.
abbrev pub VersionOf : List Str → Str → Str → Str → Type 0
VersionOf roots terragrunt_root module_path f =
    (is_version_file f ≡ true) × (classify roots terragrunt_root f ≡ in_module module_path)

All-VersionOf :
    (roots : List Str) (terragrunt_root : Str) (r : ScopeResult) (fs : List Str)
    → r.scope ≡ module_scope
    → all is_version_file fs ≡ true
    → All (λ f. Agrees r (classify roots terragrunt_root f)) fs
    → All (VersionOf roots terragrunt_root (text_or_empty r.module_path)) fs
All-VersionOf roots terragrunt_root r [] s h agree = tt
All-VersionOf roots terragrunt_root r (f ∷ fs) s h (a, agree) =
    let v : is_version_file f ≡ true = ground arith in
    let vs : all is_version_file fs ≡ true = ground arith in
    (
      (
        v,
        Agrees-module r (classify roots terragrunt_root f) s
            (classify-docs roots terragrunt_root f v) a,
      ),
      All-VersionOf roots terragrunt_root r fs s vs agree,
    )

module _ (site : Site) where
  -- What is known of a run of `run_ci_detect_scope` on these roots.
  abbrev pub Detected : List Str → Bool → List Str → Str → CiResult → List (Str × Str) → Type 0
  Detected changed_files scope_override roots terragrunt_root r written =
      (written ≡ ci_output site r.scope r.module_path r.modules r.version_only)
      × (scope_override ≡ true
          → (r.scope ≡ codes "all")
            × (r.modules ≡ discover_all_modules site roots)
            × (touched r.modules ≡ true))
      × (r.version_only ≡ true
          → (r.scope ≡ codes "module")
            × (touched changed_files ≡ true)
            × All (VersionOf roots terragrunt_root r.module_path) changed_files)

  run_override-Detected :
      (changed_files roots : List Str) (terragrunt_root : Str) (r : CiResult)
      (written : List (Str × Str)) (modules : List Str)
      → modules ≡ discover_all_modules site roots
      → run_override site modules ≡ ok (r, written)
      → Detected changed_files true roots terragrunt_root r written
  unfolding run_override
  run_override-Detected changed_files roots terragrunt_root r written [] is h = cc
  run_override-Detected changed_files roots terragrunt_root r written (m ∷ modules) is h =
      subst
        (λ (p : CiResult × List (Str × Str)).
          Detected changed_files true roots terragrunt_root p.0 p.1)
        (ok-injective h) (refl, (λ o. (refl, is, refl)), λ v. cc)

  run_detected-Detected :
      (changed_files roots : List Str) (terragrunt_root : Str) (d : ScopeResult)
      → (d.valid ≡ true → All (λ f. Agrees d (classify roots terragrunt_root f)) changed_files)
      → Detected changed_files false roots terragrunt_root
          (run_detected site changed_files d).0
          (run_detected site changed_files d).1
  unfolding run_detected is_version_only
  run_detected-Detected changed_files roots terragrunt_root d agree = elim (Bool-cases d.valid) [
    | inl e ↦ rw e (
      refl,
      (λ o. cc),
      λ v.
          let s = is_module_sound d.scope (ground arith) in
          let vs : all is_version_file changed_files ≡ true = ground arith in
          (
            ap scope_text s,
            ground arith,
            All-VersionOf roots terragrunt_root d changed_files s vs (agree e),
          ),
    )
    | inr e ↦ rw e (refl, (λ o. cc), λ v. cc)
  ]

  -- If the run returns, what it writes is its result. Under the override the scope is "all" and the
  -- modules are those of the file tree, of which there is one. It writes version_only=true, which
  -- skips the module's tests, only for the scope of one module and a change that is not empty and of
  -- which every file is a VERSION file of that very module.
  pub run_ci_detect_scope-Detected :
      (changed_files : List Str) (scope_override : Bool) (config : Dict Json) (r : CiResult)
      (written : List (Str × Str))
      → run_ci_detect_scope site changed_files scope_override config ≡ ok (r, written)
      → (roots : List Str) × (terragrunt_root : Str) × (parse_scope_config site config
          ≡ ok (roots, terragrunt_root))
        × Detected changed_files scope_override roots terragrunt_root r written
  unfolding run_ci_detect_scope
  run_ci_detect_scope-Detected changed_files true config r written h =
      let ((roots, terragrunt_root), parsed, rest) =
        bind-eq-ok (parse_scope_config site config) _ h in
      (
        roots,
        terragrunt_root,
        parsed,
        run_override-Detected changed_files roots terragrunt_root r written _ refl rest,
      )
  run_ci_detect_scope-Detected changed_files false config r written h =
      let ((roots, terragrunt_root), parsed, rest) =
        bind-eq-ok (parse_scope_config site config) _ h in
      let d = detect_scope changed_files roots terragrunt_root in
      (
        roots,
        terragrunt_root,
        parsed,
        subst
            (λ (p : CiResult × List (Str × Str)).
              Detected changed_files false roots terragrunt_root p.0 p.1)
            (ok-injective rest)
            (run_detected-Detected changed_files roots terragrunt_root d
              (detect_scope-Agrees roots terragrunt_root changed_files)),
      )
