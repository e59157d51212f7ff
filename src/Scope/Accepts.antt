-- ===== src/Scope/Accepts.antt =====
-- `detect_scope` rejects no set of changed files that lies in one scope.
use telemetry_platform.Base.{
  Bool, true, false, ◌||◌, List, [], ◌∷◌, ◌++◌, Str, eq_refl, member, All, ◌≡◌, refl, ◌⊎◌, inl, inr,
  arith, sym, ◌∙◌,
}
use telemetry_platform.Base.Dict.{get, keys, Distinct, put-Distinct}
use telemetry_platform.Scope.{
  Buckets, Kind, docs, unit_file, config_file, in_module, classify, add_file, sort_files, touched,
  decide, decide_buckets, detect_scope, files_or_empty, no_files,
}
use telemetry_platform.Scope.Single.{holds, holds_in, holds_in-add_file}

member-head : (m : Str) (ms : List Str) → member m (m ∷ ms) ≡ true
unfolding member
member-head m ms = rw (eq_refl m, ◌||◌) refl

member-second : (m n : Str) (ms : List Str) → member n (m ∷ n ∷ ms) ≡ true
unfolding member
member-second m n ms = ground (arith, eq_refl n)

-- The table accepts what holds files of one kind only.
decide-valid :
    (ms : List Str) (t c : Bool) (k : Kind)
    → Distinct ms
    → ((j : Kind) → holds ms t c j ≡ true → (j ≡ docs) ⊎ (j ≡ k))
    → (decide ms t c).valid ≡ true
unfolding decide holds
decide-valid (m ∷ n ∷ ms) t c k (fresh, d) only =
    let one = only (in_module m) (member-head m (n ∷ ms)) in
    let two = only (in_module n) (member-second m n ms) in
    elim one [
      | inl e ↦ cc
      | inr e ↦ elim two [
        | inl q ↦ cc
        | inr q ↦
            let bad = rw (in_module-injective (e ∙ sym q)) at fresh in
            let good = member-head n ms in cc
      ]
    ]
  where
    in_module-injective : {m n : Str} → in_module m ≡ in_module n → m ≡ n
    in_module-injective q = cc
decide-valid (m ∷ []) true c k d only =
    clash (only (in_module m) (member-head m [])) (only unit_file refl)
  where
    clash :
        (in_module m ≡ docs) ⊎ (in_module m ≡ k)
        → (unit_file ≡ docs) ⊎ (unit_file ≡ k)
        → (decide (m ∷ []) true c).valid ≡ true
    clash (inl e) q = cc
    clash (inr e) (inl q) = cc
    clash (inr e) (inr q) = cc
decide-valid (m ∷ []) false true k d only =
    clash (only (in_module m) (member-head m [])) (only config_file refl)
  where
    clash :
        (in_module m ≡ docs) ⊎ (in_module m ≡ k)
        → (config_file ≡ docs) ⊎ (config_file ≡ k)
        → (decide (m ∷ []) false true).valid ≡ true
    clash (inl e) q = cc
    clash (inr e) (inl q) = cc
    clash (inr e) (inr q) = cc
decide-valid (m ∷ []) false false k d only = refl
decide-valid [] true true k d only = clash (only unit_file refl) (only config_file refl)
  where
    clash :
        (unit_file ≡ docs) ⊎ (unit_file ≡ k)
        → (config_file ≡ docs) ⊎ (config_file ≡ k)
        → (decide [] true true).valid ≡ true
    clash (inl e) q = cc
    clash (inr e) (inl q) = cc
    clash (inr e) (inr q) = cc
decide-valid [] true false k d only = refl
decide-valid [] false c k d only = refl

add_file-Distinct :
    (f : Str) (j : Kind) (b : Buckets)
    → Distinct (keys b.module_files)
    → Distinct (keys (add_file f j b).module_files)
unfolding add_file
add_file-Distinct f docs b d = d
add_file-Distinct f unit_file b d = d
add_file-Distinct f config_file b d = d
add_file-Distinct f (in_module m) b d =
    put-Distinct m (files_or_empty (get m b.module_files) ++ f ∷ []) b.module_files d

module _ (roots : List Str) (terragrunt_root : Str) (k : Kind) where
  abbrev OneKind : List Str → Type 0
  OneKind =
      All (λ f. (classify roots terragrunt_root f ≡ docs) ⊎ (classify roots terragrunt_root f ≡ k))

  decide-sort_files :
      (fs : List Str) (b : Buckets)
      → OneKind fs
      → Distinct (keys b.module_files)
      → ((j : Kind) → holds_in b j ≡ true → (j ≡ docs) ⊎ (j ≡ k))
      → (decide_buckets (sort_files roots terragrunt_root fs b)).valid ≡ true
  unfolding sort_files holds_in
  decide-sort_files [] b one d only =
      decide-valid (keys b.module_files) (touched b.terragrunt_files) (touched b.config_files) k d
        only
  decide-sort_files (f ∷ fs) b (is, one) d only =
      decide-sort_files fs _ one (add_file-Distinct f (classify roots terragrunt_root f) b d) λ j h.
        elim ((holds_in-add_file f (classify roots terragrunt_root f) j b).0 h) [
          | inl e ↦ elim is [ inl q ↦ inl (e ∙ q) | inr q ↦ inr (e ∙ q) ]
          | inr h ↦ only j h
        ]

  -- A change set is accepted if its files are all of one kind (a unit, a configuration file, a file of
  -- one module), documentation under the Terragrunt tree aside.
  pub detect_scope-accepts :
      (files : List Str)
      → All
          (λ f. (classify roots terragrunt_root f ≡ docs) ⊎ (classify roots terragrunt_root f ≡ k))
          files
      → (detect_scope files roots terragrunt_root).valid ≡ true
  unfolding detect_scope holds_in holds member
  detect_scope-accepts [] one = refl
  detect_scope-accepts (f ∷ fs) one = decide-sort_files (f ∷ fs) no_files one tt empty_only
    where
      empty_only : (j : Kind) → holds_in no_files j ≡ true → (j ≡ docs) ⊎ (j ≡ k)
      empty_only docs h = inl refl
      empty_only unit_file h = cc
      empty_only config_file h = cc
      empty_only (in_module m) h = cc
