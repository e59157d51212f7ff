-- ===== src/Detect/Reach.antt =====
-- Which units a run names.
use telemetry_platform.Base.{
  Bool, true, not, ◌&&◌, ◌||◌, List, [], ◌∷◌, map, any, select, Str, ◌==◌, eq_iff, eq_refl, member,
  Bool-cases, inl, inr, ◌≡◌, refl, ◌∙◌, ap, sym, subst, arith,
}
use telemetry_platform.Base.Order.{member-sorted}
use telemetry_platform.Detect.{
  FilePath, Tree, same_path, has_path, add_path, union, parent, path_text, is_bootstrap_unit,
  find_dependent_units, dependents_in, depends_on,
}
use telemetry_platform.Detect.References.{dependency_paths}
use telemetry_platform.Detect.Run.{units_of, changed_units, all_units, sorted_units}

same_path_sound : (p q : FilePath) → same_path p q ≡ true → p ≡ q
unfolding same_path
same_path_sound [] [] h = refl
same_path_sound [] (b ∷ q) h = cc
same_path_sound (a ∷ p) [] h = cc
same_path_sound (a ∷ p) (b ∷ q) h = ground (arith, eq_iff a b, same_path_sound p q)

same_path_refl : (p : FilePath) → same_path p p ≡ true
unfolding same_path
same_path_refl [] = refl
same_path_refl (a ∷ p) = rw (eq_refl a, same_path_refl p) refl

has_path-add_path :
    (p q : FilePath) (qs : List FilePath)
    → has_path p (add_path q qs) ≡ (same_path p q || has_path p qs)
unfolding add_path has_path
has_path-add_path p q qs = elim (Bool-cases (has_path q qs)) [
  | inl there ↦ elim (Bool-cases (same_path p q)) [
    | inl same ↦
        let p_there = subst (λ r. has_path r qs ≡ true) (sym (same_path_sound p q same)) there in
        rw (there, same, p_there) refl
    | inr other ↦ rw (there, other) refl
  ]
  | inr new ↦ rw new refl
]

has_path-union :
    (p : FilePath) (ps qs : List FilePath)
    → has_path p (union ps qs) ≡ (has_path p ps || has_path p qs)
unfolding union has_path
has_path-union p [] qs = refl
has_path-union p (r ∷ ps) qs =
    has_path-add_path p r (union ps qs) ∙ ground (arith, has_path-union p ps qs)

has_path-select :
    (keep : FilePath → Bool) (p : FilePath) (ps : List FilePath)
    → has_path p (select keep ps) ≡ (has_path p ps && keep p)
unfolding select has_path
has_path-select keep p [] = refl
has_path-select keep p (q ∷ ps) = elim (Bool-cases (same_path p q)) [
  | inl same ↦
      subst (λ r. has_path p (select keep (r ∷ ps)) ≡ ((same_path p r || has_path p ps) && keep p))
        (same_path_sound p q same) (ground (arith, same_path_refl p, has_path-select keep p ps))
  | inr other ↦ elim (Bool-cases (keep q)) [
    | inl kept ↦ rw (kept, other, has_path-select keep p ps) refl
    | inr left ↦ rw (left, other, has_path-select keep p ps) refl
  ]
]

-- The texts of a list of paths.
member-path_text :
    (u : FilePath) (us : List FilePath)
    → has_path u us ≡ true
    → member (path_text u) (map path_text us) ≡ true
unfolding has_path member
member-path_text u [] h = cc
member-path_text u (v ∷ us) h = elim (Bool-cases (same_path u v)) [
  | inl same ↦
      let is = (eq_iff (path_text u) (path_text v)).1 (ap path_text (same_path_sound u v same)) in
      rw is refl
  | inr other ↦ let later = member-path_text u us (rw other at h) in ground arith
]

path_text-member :
    (t : Str) (us : List FilePath)
    → member t (map path_text us) ≡ true
    → (u : FilePath) × (has_path u us ≡ true) × (path_text u ≡ t)
unfolding has_path member
path_text-member t [] h = cc
path_text-member t (v ∷ us) h = elim (Bool-cases (t == path_text v)) [
  | inl e ↦ (v, rw (same_path_refl v) refl, sym ((eq_iff t (path_text v)).0 e))
  | inr e ↦ let (u, there, is) = path_text-member t us (rw e at h) in (u, ground arith, is)
]

module _ (tree : Tree) (terragrunt_root : FilePath) (base_ref head_ref : Str) where
  open tree use {hcl_files, read_text}

  -- A changed file belongs to the unit, or is a parent configuration that it refers to.
  abbrev pub touches : List FilePath → FilePath → Bool
  touches changed_files u =
      any (λ f. has_path u (units_of tree terragrunt_root base_ref head_ref f)) changed_files

  -- The unit is none of these, and depends on one of them.
  abbrev pub depends : List FilePath → FilePath → Bool
  depends changed u =
      any
        (λ hcl_file.
          same_path u (parent hcl_file)
          && (not (has_path (parent hcl_file) changed)
              && depends_on tree terragrunt_root (parent hcl_file) changed
                  (dependency_paths (read_text hcl_file))))
        (hcl_files terragrunt_root)

  has_path-changed_units :
      (u : FilePath) (fs : List FilePath)
      → has_path u (changed_units tree terragrunt_root base_ref head_ref fs) ≡ touches fs u
  unfolding changed_units has_path
  has_path-changed_units u [] = refl
  has_path-changed_units u (f ∷ fs) =
      has_path-union u (units_of tree terragrunt_root base_ref head_ref f)
        (changed_units tree terragrunt_root base_ref head_ref fs)
      ∙ ap (λ b. has_path u (units_of tree terragrunt_root base_ref head_ref f) || b)
          (has_path-changed_units u fs)

  has_path-dependents_in :
      (u : FilePath) (changed hs : List FilePath)
      → has_path u (dependents_in tree terragrunt_root changed hs)
        ≡ any
            (λ hcl_file.
              same_path u (parent hcl_file)
              && (not (has_path (parent hcl_file) changed)
                  && depends_on tree terragrunt_root
                      (parent hcl_file)
                      changed
                      (dependency_paths (read_text hcl_file))))
            hs
  unfolding has_path
  has_path-dependents_in u changed [] = refl
  has_path-dependents_in u changed (h ∷ hs) =
      let rest = has_path-dependents_in u changed hs in
      let added = has_path-add_path u (parent h) (dependents_in tree terragrunt_root changed hs) in
      elim (Bool-cases (has_path (parent h) changed)) [
        | inl e ↦ rw (e, rest) (ground arith)
        | inr e ↦
            elim (Bool-cases (
              depends_on tree terragrunt_root (parent h) changed
                (dependency_paths (read_text h)))) [
                  | inl d ↦ rw (e, d, added, rest) (ground arith)
                  | inr d ↦ rw (e, d, rest) (ground arith)
                ]
      ]

  -- The unit is in the scope of the change.
  abbrev pub in_scope : Bool → List FilePath → FilePath → Bool
  in_scope exclude_bootstrap fs u =
      (touches fs u || depends (changed_units tree terragrunt_root base_ref head_ref fs) u)
      && not (exclude_bootstrap && is_bootstrap_unit u)

  has_path-all_units :
      (u : FilePath) (fs : List FilePath)
      → has_path u (all_units tree terragrunt_root base_ref head_ref fs)
        ≡ (touches fs u || depends (changed_units tree terragrunt_root base_ref head_ref fs) u)
  unfolding all_units find_dependent_units
  has_path-all_units u fs =
      let changed = changed_units tree terragrunt_root base_ref head_ref fs in
      has_path-union u changed
        (dependents_in tree terragrunt_root changed (hcl_files terragrunt_root))
      ∙ rw
          (
            has_path-changed_units u fs,
            has_path-dependents_in u changed (hcl_files terragrunt_root),
          )
          refl

  -- The texts are exactly those of the units in scope.
  abbrev pub Names : Bool → List FilePath → List Str → Type 0
  Names exclude_bootstrap fs units =
      ((u : FilePath) → in_scope exclude_bootstrap fs u ≡ true → member (path_text u) units ≡ true)
      × ((t : Str)
          → member t units ≡ true
          → (u : FilePath) × (in_scope exclude_bootstrap fs u ≡ true) × (path_text u ≡ t))

  pub sorted_units-Names :
      (exclude_bootstrap : Bool) (fs : List FilePath)
      → Names exclude_bootstrap fs
          (sorted_units tree terragrunt_root base_ref head_ref exclude_bootstrap fs)
  unfolding sorted_units
  sorted_units-Names exclude_bootstrap fs =
      let keep : FilePath → Bool = λ u. not (exclude_bootstrap && is_bootstrap_unit u) in
      let units = all_units tree terragrunt_root base_ref head_ref fs in
      let is : (u : FilePath) → has_path u (select keep units) ≡ in_scope exclude_bootstrap fs u =
        λ u. has_path-select keep u units ∙ ap (λ b. b && keep u) (has_path-all_units u fs) in
      (
        λ u h.
            member-sorted (path_text u) (map path_text (select keep units))
            ∙ member-path_text u (select keep units) (is u ∙ h),
        λ t h.
            let (u, there, same) =
              path_text-member t (select keep units)
                (sym (member-sorted t (map path_text (select keep units))) ∙ h) in
            (u, sym (is u) ∙ there, same),
      )
