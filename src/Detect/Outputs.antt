-- ===== src/Detect/Outputs.antt =====
-- What `run_detect` writes, for the change that it has found.
use telemetry_platform.Base.{
  Bool, true, false, List, [], ◌∷◌, Str, codes, ◌==◌, some, ok, bind-eq-ok, ok-injective,
  Bool-cases, inl, inr, ◌⊎◌, ◌≡◌, refl, ◌∙◌, ap, sym,
}
use telemetry_platform.Base.Dict.{get}
use telemetry_platform.Accounts.Paths.{reassemble_flags}
use telemetry_platform.Detect.{FilePath, Tree, build_include_dir_flags, is_deletion_only_changeset}
use telemetry_platform.Detect.Reach.{Names, sorted_units-Names}
use telemetry_platform.Detect.Run.{
  nothing_to_do, list_changed_files, list_deleted_files, sorted_units, write_applyable,
  write_planned, run_detect,
}

module _ (tree : Tree) (terragrunt_root : FilePath) (base_ref head_ref : Str) where
  -- Every changed file was deleted, and there is one.
  abbrev pub DeletionOnly : List FilePath → Type 0
  DeletionOnly fs =
      (deleted : List FilePath) × (list_deleted_files tree terragrunt_root base_ref head_ref
        ≡ ok deleted)
      × (is_deletion_only_changeset fs deleted ≡ true)

  -- Nothing, where that is no failure, or the flags of these units.
  abbrev pub Wrote : Bool → List FilePath → List Str → List (Str × Str) → Type 0
  Wrote exclude_bootstrap fs units written =
      ((units ≡ []) × (written ≡ nothing_to_do) × ((exclude_bootstrap ≡ true) ⊎ DeletionOnly fs))
      ⊎ ((flags : Str) × (build_include_dir_flags units ≡ ok flags)
          × (get (codes "include_dir_flags") written ≡ some flags))

  get-flags :
      (flags : Str) (more : List (Str × Str))
      → get (codes "include_dir_flags") ((codes "include_dir_flags", flags) ∷ more) ≡ some flags
  unfolding get ◌==◌
  get-flags flags more = refl

  write_applyable-Wrote :
      (fs : List FilePath) (units : List Str) (written : List (Str × Str))
      → write_applyable tree terragrunt_root base_ref head_ref units ≡ ok written
      → Wrote true fs units written
  unfolding write_applyable build_include_dir_flags
  write_applyable-Wrote fs [] written h = inl (refl, sym (ok-injective h), inl refl)
  write_applyable-Wrote fs (u ∷ units) written h = inr (
    reassemble_flags (u ∷ units),
    refl,
    ap (get (codes "include_dir_flags")) (sym (ok-injective h)) ∙ get-flags _ _,
  )

  write_planned-Wrote :
      (fs : List FilePath) (units : List Str) (written : List (Str × Str))
      → write_planned tree terragrunt_root base_ref head_ref fs units ≡ ok written
      → Wrote false fs units written
  unfolding write_planned build_include_dir_flags
  write_planned-Wrote fs [] written h =
      let (deleted, listed, rest) =
        bind-eq-ok (list_deleted_files tree terragrunt_root base_ref head_ref) _ h in
      elim (Bool-cases (is_deletion_only_changeset fs deleted)) [
        | inl e ↦ inl (refl, sym (ok-injective (rw e at rest)), inr (deleted, listed, e))
        | inr e ↦ let bad = rw e at rest in cc
      ]
  write_planned-Wrote fs (u ∷ units) written h = inr (
    reassemble_flags (u ∷ units),
    refl,
    ap (get (codes "include_dir_flags")) (sym (ok-injective h)) ∙ get-flags _ _,
  )

  -- If the detection returns, what it writes are the flags of exactly the units in scope: those of a
  -- changed file, those that refer to a changed parent configuration, and those that depend on one of
  -- these, less the bootstrap units where these are excluded. It writes an empty scope only if no unit
  -- is in scope, and then only if bootstrap units are excluded or every changed file was deleted.
  pub run_detect-Names :
      (exclude_bootstrap : Bool) (written : List (Str × Str))
      → run_detect tree terragrunt_root base_ref head_ref exclude_bootstrap ≡ ok written
      → (fs : List FilePath) × (list_changed_files tree terragrunt_root base_ref head_ref ≡ ok fs)
        × (units : List Str) × Names tree terragrunt_root base_ref head_ref exclude_bootstrap fs
            units
        × Wrote exclude_bootstrap fs units written
  unfolding run_detect
  run_detect-Names true written h =
      let (fs, listed, rest) =
        bind-eq-ok (list_changed_files tree terragrunt_root base_ref head_ref) _ h in
      (
        fs,
        listed,
        sorted_units tree terragrunt_root base_ref head_ref true fs,
        sorted_units-Names tree terragrunt_root base_ref head_ref true fs,
        write_applyable-Wrote fs _ written rest,
      )
  run_detect-Names false written h =
      let (fs, listed, rest) =
        bind-eq-ok (list_changed_files tree terragrunt_root base_ref head_ref) _ h in
      (
        fs,
        listed,
        sorted_units tree terragrunt_root base_ref head_ref false fs,
        sorted_units-Names tree terragrunt_root base_ref head_ref false fs,
        write_planned-Wrote fs _ written rest,
      )
