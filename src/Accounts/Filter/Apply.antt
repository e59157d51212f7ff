-- ===== src/Accounts/Filter/Apply.antt =====
-- What the filter keeps, and that the partition of what it keeps has a row for every unit.
use telemetry_platform.Base.{
  Bool, true, false, not, ◌||◌, List, [], ◌∷◌, ◌++◌, if◌then◌else◌, Str, ◌==◌, eq_iff, eq_refl,
  Outcome-cases, map, member, any, select, select-append, Outcome, ok, raised, some,
  account_not_found, need, need-eq-ok, bind-eq-ok, ok-injective, All, ◌≡◌, refl, ◌∙◌, ap, sym,
  subst, arith, append-nil, Bool-cases, inl, inr, map-append,
}
use telemetry_platform.Base.Dict.{Dict, get, keys}
use telemetry_platform.Base.Order.{sorted, member-sorted}
use telemetry_platform.Json.{Json}
use telemetry_platform.Accounts.{Config, ci_deploy_key, deploy_role_name_key}
use telemetry_platform.Accounts.Access.{account_allows_ci_apply, is_account_ci_deployable, forbid}
use telemetry_platform.Accounts.Paths.{extract_all_unit_paths}
use telemetry_platform.Accounts.Resolve.{resolve_account_id}
use telemetry_platform.Accounts.Partition.{
  apply_mode, Row, Groups, add_unit, row_of, rows_of, load_role_name, role_key, group_units,
  partition_paths, no_groups,
}
use telemetry_platform.Accounts.Partition.Grouping.{belongs, belongs-found, group_units-keys}
use telemetry_platform.Accounts.Filter.{Split, sort_unit, sort_units, partition_by_ci_deploy}

module _ (py_str : Json → Str) (same : Json → Json → Bool) (config : Config)
    (on_demand : Bool) where
  abbrev answered : Outcome Bool → Bool
  answered (ok b) = b
  answered (raised e) = false

  -- The path resolves to an account that CI may apply in this run.
  unfoldable pub deploys : Str → Bool
  deploys p = elim (resolve_account_id py_str same config p) [
    | ok unit ↦ answered (is_account_ci_deployable unit.1 config.accounts on_demand)
    | raised e ↦ false
  ]

  deploys-found :
      (p : Str) (unit : Str × Str) (b : Bool)
      → resolve_account_id py_str same config p ≡ ok unit
      → is_account_ci_deployable unit.1 config.accounts on_demand ≡ ok b
      → deploys p ≡ b
  unfolding deploys
  deploys-found p unit b found asked = rw (found, deploys, asked) refl

  abbrev paths_of : List (Str × Str) → List Str
  paths_of = map (λ pair. pair.0)

  sort_unit-deployable :
      (p a : Str) (b : Bool) (s : Split)
      → (sort_unit p a b s).deployable ≡ s.deployable ++ (if b then p ∷ [] else [])
  unfolding sort_unit
  sort_unit-deployable p a true s = refl
  sort_unit-deployable p a false s = sym (append-nil s.deployable)

  sort_unit-skipped :
      (p a : Str) (b : Bool) (s : Split)
      → paths_of (sort_unit p a b s).skipped ≡ paths_of s.skipped ++ (if not b then p ∷ [] else [])
  unfolding sort_unit
  sort_unit-skipped p a true s = sym (append-nil (paths_of s.skipped))
  sort_unit-skipped p a false s = map-append (λ pair. pair.0) s.skipped ((p, a) ∷ [])

  -- The units that are kept and those that are skipped, both in the order of the scope.
  sort_units-select :
      (ps : List Str) (s t : Split)
      → sort_units py_str same config on_demand ps s ≡ ok t
      → (t.deployable ≡ s.deployable ++ select (λ p. deploys p) ps)
        × (paths_of t.skipped ≡ paths_of s.skipped ++ select (λ p. not (deploys p)) ps)
  unfolding sort_units select
  sort_units-select [] s t e =
      let is = sym (ok-injective e) in
      (
        ap (λ u. u.deployable) is ∙ sym (append-nil s.deployable),
        ap (λ u. paths_of u.skipped) is ∙ sym (append-nil (paths_of s.skipped)),
      )
  sort_units-select (p ∷ ps) s t e =
      let (unit, found, h1) = bind-eq-ok (resolve_account_id py_str same config p) _ e in
      let (b, asked, rest) =
        bind-eq-ok (is_account_ci_deployable unit.1 config.accounts on_demand) _ h1 in
      let (kept, left) = sort_units-select ps (sort_unit p unit.1 b s) t rest in
      let is = deploys-found p unit b found asked in
      (
        kept
            ∙ ap (λ u. u ++ select (λ q. deploys q) ps) (sort_unit-deployable p unit.1 b s)
            ∙ select-append (λ q. deploys q) p ps s.deployable b is,
        left
            ∙ ap (λ u. u ++ select (λ q. not (deploys q)) ps) (sort_unit-skipped p unit.1 b s)
            ∙ select-append (λ q. not (deploys q)) p ps (paths_of s.skipped) (not b) (ap not is),
      )

  -- The path's account may be applied.
  abbrev pub Kept : Str → Type 0
  Kept p =
      (unit : Str × Str) × (resolve_account_id py_str same config p ≡ ok unit)
      × (is_account_ci_deployable unit.1 config.accounts on_demand ≡ ok true)

  All-end : (ps : List Str) (p : Str) → All Kept ps → Kept p → All Kept (ps ++ p ∷ [])
  All-end [] p h hp = (hp, tt)
  All-end (q ∷ ps) p (hq, hs) hp = (hq, All-end ps p hs hp)

  sort_units-Kept :
      (ps : List Str) (s t : Split)
      → sort_units py_str same config on_demand ps s ≡ ok t
      → All Kept s.deployable
      → All Kept t.deployable
  unfolding sort_units
  sort_units-Kept [] s t e h = subst (λ u. All Kept u.deployable) (ok-injective e) h
  sort_units-Kept (p ∷ ps) s t e h =
      let (unit, found, h1) = bind-eq-ok (resolve_account_id py_str same config p) _ e in
      let (b, asked, rest) =
        bind-eq-ok (is_account_ci_deployable unit.1 config.accounts on_demand) _ h1 in
      sort_units-Kept ps (sort_unit p unit.1 b s) t rest (sorted_in p unit b s found asked h)
    where
      sorted_in :
          (p : Str) (unit : Str × Str) (b : Bool) (s : Split)
          → resolve_account_id py_str same config p ≡ ok unit
          → is_account_ci_deployable unit.1 config.accounts on_demand ≡ ok b
          → All Kept s.deployable
          → All Kept (sort_unit p unit.1 b s).deployable
      sorted_in p unit true s found asked h = All-end s.deployable p h (unit, found, asked)
      sorted_in p unit false s found asked h = h

  -- If the filter returns, it keeps the scope's units whose account CI may apply and skips the others,
  -- each in the order of the scope.
  pub partition_by_ci_deploy-select :
      (include_dir_flags : Str) (split : Split)
      → partition_by_ci_deploy py_str same config on_demand include_dir_flags ≡ ok split
      → (paths : List Str) × (extract_all_unit_paths include_dir_flags ≡ ok paths)
        × (split.deployable ≡ select (λ p. deploys p) paths)
        × (map (λ (pair : Str × Str). pair.0) split.skipped ≡ select (λ p. not (deploys p)) paths)
  unfolding partition_by_ci_deploy
  partition_by_ci_deploy-select include_dir_flags split h =
      let (paths, read, rest) = bind-eq-ok (extract_all_unit_paths include_dir_flags) _ h in
      let (kept, left) = sort_units-select paths _ split rest in (paths, read, kept, left)

  -- The account has a role for apply mode.
  abbrev Ready : Str → Type 0
  Ready a =
      (role_name : Str) × (load_role_name py_str same config on_demand apply_mode a ≡ ok role_name)

  -- The accounts that may be applied name their role.
  abbrev pub NamesRoles : Type 0
  NamesRoles =
      (a : Str) (entry : Dict Json)
      → get a config.accounts ≡ some entry
      → account_allows_ci_apply entry on_demand ≡ ok true
      → (role : Json) × (get deploy_role_name_key entry ≡ some role)

  deployable-Ready :
      (a : Str)
      → NamesRoles
      → is_account_ci_deployable a config.accounts on_demand ≡ ok true
      → Ready a
  unfolding is_account_ci_deployable load_role_name role_key forbid
  deployable-Ready a named h =
      let (entry, found, h1) = bind-eq-ok (need account_not_found (get a config.accounts)) _ h in
      let (ci, has_ci, h2) = bind-eq-ok (need account_not_found (get ci_deploy_key entry)) _ h1 in
      let (role, has_role) =
        named a entry (need-eq-ok account_not_found (get a config.accounts) found) h2 in
      (py_str role, rw (found, has_ci, h2, has_role) refl)

  row_of-returns :
      (g : Groups) (a : Str)
      → Ready a
      → (row : Row) × (row_of py_str same config on_demand apply_mode g a ≡ ok row)
  unfolding row_of
  row_of-returns g a (role_name, loaded) =
      elim (Outcome-cases (row_of py_str same config on_demand apply_mode g a)) [
        | inl (exc, e) ↦ let bad = rw loaded at e in cc
        | inr made ↦ made
      ]

  rows_of-returns :
      (g : Groups) (accounts : List Str)
      → ((a : Str) → member a accounts ≡ true → Ready a)
      → (rows : List Row) × (rows_of py_str same config on_demand apply_mode g accounts ≡ ok rows)
  unfolding rows_of member
  rows_of-returns g [] ready = ([], refl)
  rows_of-returns g (a ∷ accounts) ready =
      let (row, made) = row_of-returns g a (ready a (ground (arith, eq_refl a))) in
      let (rows, more) = rows_of-returns g accounts (λ b h. ready b (ground (arith))) in
      (row ∷ rows, rw (made, more) refl)

  group_units-returns :
      (ps : List Str) (g : Groups)
      → All Kept ps
      → (h : Groups) × (group_units py_str same config on_demand ps g ≡ ok h)
  unfolding group_units
  group_units-returns [] g kept = (g, refl)
  group_units-returns (p ∷ ps) g ((unit, found, asked), kept) =
      let (h, made) = group_units-returns ps (add_unit p unit g) kept in (h, rw (found, made) refl)

  any-Ready :
      (ps : List Str) (a : Str)
      → NamesRoles
      → All Kept ps
      → any (λ p. belongs py_str same config on_demand a p) ps ≡ true
      → Ready a
  any-Ready [] a named kept h = cc
  any-Ready (p ∷ ps) a named ((unit, found, asked), kept) h =
      let is = belongs-found py_str same config on_demand a p unit found in
      elim (Bool-cases (unit.1 == a)) [
        | inl e ↦ subst Ready ((eq_iff unit.1 a).0 e) (deployable-Ready unit.1 named asked)
        | inr e ↦ any-Ready ps a named kept (ground arith)
      ]

  partition_paths-returns :
      (paths : List Str)
      → NamesRoles
      → All Kept paths
      → (rows : List Row) × (partition_paths py_str same config on_demand apply_mode paths
          ≡ ok rows)
  unfolding partition_paths
  partition_paths-returns paths named kept =
      let start = no_groups py_str same config on_demand in
      let (g, grouped) = group_units-returns paths start kept in
      let (rows, made) = rows_of-returns g (sorted (keys g.by_account)) (λ a here.
        any-Ready paths a named kept (
          sym (group_units-keys py_str same config on_demand paths start g a grouped ∙ or-false _)
          ∙ sym (member-sorted a (keys g.by_account))
          ∙ here)) in
      (rows, rw (grouped, made) refl)
    where
      or-false : (b : Bool) → (b || false) ≡ b
      or-false b = ground arith

  -- If the filter returns, where every account that CI may apply names its role, the partition of the
  -- units that it keeps returns in apply mode: the apply jobs are never refused an account.
  pub partition_paths-partition_by_ci_deploy :
      (include_dir_flags : Str) (split : Split)
      → NamesRoles
      → partition_by_ci_deploy py_str same config on_demand include_dir_flags ≡ ok split
      → (rows : List Row) × (partition_paths py_str same config on_demand apply_mode
            split.deployable
          ≡ ok rows)
  unfolding partition_by_ci_deploy
  partition_paths-partition_by_ci_deploy include_dir_flags split named h =
      let (paths, read, rest) = bind-eq-ok (extract_all_unit_paths include_dir_flags) _ h in
      partition_paths-returns split.deployable named (sort_units-Kept paths _ split rest tt)
