-- ===== src/Scope/Single.antt =====
-- `detect_scope` accepts a set of changed files exactly when they lie in one scope.
use telemetry_platform.Base.{
  Bool, true, false, ◌||◌, some, List, [], ◌∷◌, ◌++◌, Str, ◌==◌, eq_iff, member, All, ◌≡◌, refl,
  ◌⊎◌, ◌↔◌, inl, inr, arith, ap, sym, ◌∙◌, Bool-cases,
}
use telemetry_platform.Base.Dict.{get, keys, member-keys-put}
use telemetry_platform.Scope.{
  module_scope, terragrunt_scope, config_scope, ScopeResult, Buckets, Kind, docs, unit_file,
  config_file, in_module, classify, add_file, sort_files, touched, decide, decide_buckets,
  detect_scope, files_or_empty,
}

-- A file of this kind is covered by the scope of the result.
abbrev pub Agrees : ScopeResult → Kind → Type 0
Agrees r docs = Unit
Agrees r unit_file = r.scope ≡ terragrunt_scope
Agrees r config_file = r.scope ≡ config_scope
Agrees r (in_module m) = (r.scope ≡ module_scope) × (r.module_path ≡ some m)

-- What the decision table sees holds a file of this kind.
unfoldable pub holds : List Str → Bool → Bool → Kind → Bool
unfolding member
holds ms has_terragrunt has_config docs = true
holds ms has_terragrunt has_config unit_file = has_terragrunt
holds ms has_terragrunt has_config config_file = has_config
holds ms has_terragrunt has_config (in_module m) = member m ms

-- The buckets hold a file of this kind.
unfoldable pub holds_in : Buckets → Kind → Bool
unfolding holds
holds_in b = holds (keys b.module_files) (touched b.terragrunt_files) (touched b.config_files)

touched-append : (fs : List Str) (f : Str) → touched (fs ++ f ∷ []) ≡ true
touched-append [] f = refl
touched-append (g ∷ fs) f = refl

-- Adding a file of kind j: kind j is there, and every other is as before.
pub holds_in-add_file :
    (f : Str) (j k : Kind) (b : Buckets)
    → (holds_in (add_file f j b) k ≡ true) ↔ ((k ≡ j) ⊎ (holds_in b k ≡ true))
unfolding holds_in holds add_file
holds_in-add_file f docs k b = (λ h. inr h, λ h. elim h [ inl e ↦ (rw e refl) | inr h ↦ h ])
holds_in-add_file f unit_file docs b = (λ h. inr refl, λ h. refl)
holds_in-add_file f unit_file unit_file b =
    (λ h. inl refl, λ h. touched-append b.terragrunt_files f)
holds_in-add_file f unit_file config_file b = (λ h. inr h, λ h. elim h [ inl e ↦ cc | inr h ↦ h ])
holds_in-add_file f unit_file (in_module m) b = (λ h. inr h, λ h. elim h [ inl e ↦ cc | inr h ↦ h ])
holds_in-add_file f config_file docs b = (λ h. inr refl, λ h. refl)
holds_in-add_file f config_file unit_file b = (λ h. inr h, λ h. elim h [ inl e ↦ cc | inr h ↦ h ])
holds_in-add_file f config_file config_file b =
    (λ h. inl refl, λ h. touched-append b.config_files f)
holds_in-add_file f config_file (in_module m) b =
    (λ h. inr h, λ h. elim h [ inl e ↦ cc | inr h ↦ h ])
holds_in-add_file f (in_module n) docs b = (λ h. inr refl, λ h. refl)
holds_in-add_file f (in_module n) unit_file b = (λ h. inr h, λ h. elim h [ inl e ↦ cc | inr h ↦ h ])
holds_in-add_file f (in_module n) config_file b =
    (λ h. inr h, λ h. elim h [ inl e ↦ cc | inr h ↦ h ])
holds_in-add_file f (in_module n) (in_module m) b =
    let here =
      member-keys-put n m (files_or_empty (get n b.module_files) ++ f ∷ []) b.module_files in
    elim (Bool-cases (m == n)) [
      | inl e ↦ (λ h. inl (ap (λ t. in_module t) ((eq_iff m n).0 e)), λ h. rw (e, ◌||◌) at here)
      | inr e ↦
          let same = rw (e, ◌||◌) at here in
          (
            λ h. inr (sym same ∙ h),
            λ h. elim h [
              | inl q ↦ let bad = (eq_iff m n).1 (in_module-injective q) in cc
              | inr h ↦ same ∙ h
            ],
          )
    ]
  where
    in_module-injective : {m n : Str} → in_module m ≡ in_module n → m ≡ n
    in_module-injective q = cc

-- The table accepts only what all the kinds it holds agree with.
decide-Agrees :
    (ms : List Str) (has_terragrunt has_config : Bool) (k : Kind)
    → (decide ms has_terragrunt has_config).valid ≡ true
    → holds ms has_terragrunt has_config k ≡ true
    → Agrees (decide ms has_terragrunt has_config) k
unfolding holds decide member
decide-Agrees (m ∷ n ∷ ms) t c k ok h = cc
decide-Agrees (m ∷ []) true true k ok h = cc
decide-Agrees (m ∷ []) true false k ok h = cc
decide-Agrees (m ∷ []) false true k ok h = cc
decide-Agrees (m ∷ []) false false docs ok h = tt
decide-Agrees (m ∷ []) false false unit_file ok h = cc
decide-Agrees (m ∷ []) false false config_file ok h = cc
decide-Agrees (m ∷ []) false false (in_module n) ok h =
    (refl, ap (λ t. some t) (sym ((eq_iff n m).0 (ground arith))))
decide-Agrees [] true true k ok h = cc
decide-Agrees [] true false docs ok h = tt
decide-Agrees [] true false unit_file ok h = refl
decide-Agrees [] true false config_file ok h = cc
decide-Agrees [] true false (in_module n) ok h = cc
decide-Agrees [] false c docs ok h = tt
decide-Agrees [] false c unit_file ok h = cc
decide-Agrees [] false c config_file ok h = refl
decide-Agrees [] false c (in_module n) ok h = cc

module _ (roots : List Str) (terragrunt_root : Str) where
  -- What the buckets hold is what they held, and the kinds of the files.
  keep-sort_files :
      (k : Kind) (fs : List Str) (b : Buckets)
      → holds_in b k ≡ true
      → holds_in (sort_files roots terragrunt_root fs b) k ≡ true
  unfolding sort_files
  keep-sort_files k [] b h = h
  keep-sort_files k (f ∷ fs) b h =
      keep-sort_files k fs _
        ((holds_in-add_file f (classify roots terragrunt_root f) k b).1 (inr h))

  sort_files-All :
      (fs : List Str) (b : Buckets)
      → All
          (λ f.
            holds_in (sort_files roots terragrunt_root fs b) (classify roots terragrunt_root f)
            ≡ true)
          fs
  unfolding sort_files
  sort_files-All [] b = tt
  sort_files-All (f ∷ fs) b = (
    keep-sort_files (classify roots terragrunt_root f) fs _
        ((holds_in-add_file f (classify roots terragrunt_root f) _ b).1 (inl refl)),
    sort_files-All fs _,
  )

  All-Agrees :
      (b : Buckets) (gs : List Str)
      → (decide_buckets b).valid ≡ true
      → All (λ f. holds_in b (classify roots terragrunt_root f) ≡ true) gs
      → All (λ f. Agrees (decide_buckets b) (classify roots terragrunt_root f)) gs
  unfolding holds_in
  All-Agrees b [] ok h = tt
  All-Agrees b (g ∷ gs) ok (h, hs) = (
    decide-Agrees (keys b.module_files) (touched b.terragrunt_files) (touched b.config_files) _ ok
        h,
    All-Agrees b gs ok hs,
  )

  -- A change set that `detect_scope` accepts lies in the scope that it names: every changed file is
  -- documentation under the Terragrunt tree or of that scope, and of that one module.
  pub detect_scope-Agrees :
      (files : List Str)
      → (detect_scope files roots terragrunt_root).valid ≡ true
      → All
          (λ f.
            Agrees (detect_scope files roots terragrunt_root) (classify roots terragrunt_root f))
          files
  unfolding detect_scope
  detect_scope-Agrees [] ok = tt
  detect_scope-Agrees (f ∷ fs) ok = All-Agrees _ (f ∷ fs) ok (sort_files-All (f ∷ fs) _)
