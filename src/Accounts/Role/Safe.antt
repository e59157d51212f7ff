-- ===== src/Accounts/Role/Safe.antt =====
-- The account that `resolve_deploy_role` runs in.
use telemetry_platform.Base.{
  Bool, true, not, ◌||◌, Option, some, List, [], ◌∷◌, Str, ◌==◌, eq_iff, map, member, select, ok,
  bind-eq-ok, ok-injective, ◌≡◌, refl, ◌∙◌, ap, sym, arith, All, Bool-cases, ◌⊎◌, inl, inr,
}
use telemetry_platform.Base.Dict.{Dict, get}
use telemetry_platform.Json.{Json}
use telemetry_platform.Allowlist.Dedupe.{dedupe}
use telemetry_platform.Allowlist.Dedupe.Laws.{member-dedupe}
use telemetry_platform.Accounts.{Config}
use telemetry_platform.Accounts.Access.{Permitted, load_account_entry, load_account_entry-Permitted}
use telemetry_platform.Accounts.Resolve.{resolve_account_id}
use telemetry_platform.Accounts.Role.{
  RoleOutputs, dns_owner_account_id, resolve_all, service_accounts, primary_account,
  deploy_role_arn, dns_writer_role, first_region, outputs_of, scope_paths, resolve_deploy_role,
}

member-select :
    (t : Str) (p : Str → Bool) (xs : List Str)
    → p t ≡ true
    → member t xs ≡ true
    → member t (select p xs) ≡ true
unfolding member select
member-select t p [] good h = cc
member-select t p (x ∷ xs) good h = elim (Bool-cases (t == x)) [
  | inl e ↦ let px : p x ≡ true = ap p (sym ((eq_iff t x).0 e)) ∙ good in rw (px, e, ◌||◌) refl
  | inr e ↦
      let tail = rw (e, ◌||◌) at h in
      let later = member-select t p xs good tail in
      elim (Bool-cases (p x)) [ inl px ↦ rw (px, e, ◌||◌) later | inr px ↦ rw px later ]
]

module _ (py_str : Json → Str) (same : Json → Json → Bool) (config : Config) where
  abbrev owner : Str
  owner = dns_owner_account_id py_str same config

  -- The run's own account, or the shared one with the role for DNS writes.
  abbrev pub Reached : Str → Str → Bool → Type 0
  Reached a target needs_dns_writer =
      (a ≡ target) ⊎ ((a ≡ dns_owner_account_id py_str same config) × (needs_dns_writer ≡ true))

  primary_account-Reached :
      (services : List Str) (resolved : List (Str × Str)) (primary : Str × Bool) (a : Str)
      → primary_account py_str same config services resolved ≡ ok primary
      → member a (map (λ u. u.1) resolved) ≡ true
      → (a ≡ owner) ⊎ (member a services ≡ true)
      → Reached a primary.0 primary.1
  unfolding primary_account member
  primary_account-Reached [] resolved primary a h there (inl e) =
      inl (e ∙ ap (λ t. t.0) (ok-injective h))
  primary_account-Reached [] resolved primary a h there (inr m) = cc
  primary_account-Reached (s ∷ []) resolved primary a h there (inl e) =
      inr (e, sym (ap (λ t. t.1) (ok-injective h)) ∙ rw e at there)
  primary_account-Reached (s ∷ []) resolved primary a h there (inr m) =
      inl ((eq_iff a s).0 (ground arith) ∙ ap (λ t. t.0) (ok-injective h))
  primary_account-Reached (s ∷ t ∷ more) resolved primary a h there either = cc

  service_accounts-cases :
      (resolved : List (Str × Str)) (a : Str)
      → member a (map (λ u. u.1) resolved) ≡ true
      → (a ≡ owner) ⊎ (member a (service_accounts py_str same config resolved) ≡ true)
  unfolding service_accounts
  service_accounts-cases resolved a there = elim (Bool-cases (a == owner)) [
    | inl e ↦ inl ((eq_iff a owner).0 e)
    | inr e ↦ inr (
        member-select a _ (dedupe (map (λ u. u.1) resolved)) (rw (e, not) refl)
          (member-dedupe a (map (λ u. u.1) resolved) ∙ there))
  ]

  member-second :
      (x a : Str) (accounts : List Str) → member x accounts ≡ true → member x (a ∷ accounts) ≡ true
  unfolding member
  member-second x a accounts h = ground arith

  member-first : (a : Str) (accounts : List Str) → member a (a ∷ accounts) ≡ true
  unfolding member
  member-first a accounts = ground (arith, eq_iff a a)

  resolve_all-Reached :
      (target : Str) (needs_dns_writer : Bool) (paths : List Str) (resolved : List (Str × Str))
      → resolve_all py_str same config paths ≡ ok resolved
      → ((a : Str) → member a (map (λ u. u.1) resolved) ≡ true → Reached a target needs_dns_writer)
      → All
          (λ p.
            (unit : Str × Str) × (resolve_account_id py_str same config p ≡ ok unit)
            × Reached unit.1 target needs_dns_writer)
          paths
  unfolding resolve_all
  resolve_all-Reached target needs [] resolved h reach = tt
  resolve_all-Reached target needs (p ∷ ps) resolved h reach =
      let (unit, found, h1) = bind-eq-ok (resolve_account_id py_str same config p) _ h in
      let (units, others, h2) = bind-eq-ok (resolve_all py_str same config ps) _ h1 in
      let all_units : (unit ∷ units) ≡ resolved = ok-injective h2 in
      let reach_units : (a : Str)
          → member a (map (λ u. u.1) (unit ∷ units)) ≡ true
          → Reached a target needs =
        λ a m. reach a (ap (λ r. member a (map (λ u. u.1) r)) (sym all_units) ∙ m) in
      (
        (unit, found, reach_units unit.1 (member-first unit.1 (map (λ u. u.1) units))),
        resolve_all-Reached target needs ps units others
            λ a m. reach_units a (member-second a unit.1 (map (λ u. u.1) units) m),
      )

  deploy_role_arn-Permitted :
      (on_demand : Bool) (a : Str) (arn : Str)
      → deploy_role_arn py_str same config on_demand a ≡ ok arn
      → (entry : Dict Json) × (get a config.accounts ≡ some entry) × Permitted entry on_demand
  unfolding deploy_role_arn
  deploy_role_arn-Permitted on_demand a arn h =
      let (entry, loaded, h1) = bind-eq-ok (load_account_entry a config.accounts on_demand) _ h in
      let (found, permitted) =
        load_account_entry-Permitted a config.accounts on_demand entry loaded in
      (entry, found, permitted)

  outputs_of-Reached :
      (on_demand : Bool) (resolved : List (Str × Str)) (out : RoleOutputs)
      → outputs_of py_str same config on_demand resolved ≡ ok out
      → ((a : Str)
          → member a (map (λ u. u.1) resolved) ≡ true
          → Reached a out.target_account_id out.needs_dns_writer)
        × ((entry : Dict Json) × (get out.target_account_id config.accounts ≡ some entry)
            × Permitted entry on_demand)
  unfolding outputs_of
  outputs_of-Reached on_demand resolved out h =
      let (region, first, h3) = bind-eq-ok (first_region py_str same config resolved) _ h in
      let (primary, chosen, h4) =
        bind-eq-ok
          (primary_account py_str same config (service_accounts py_str same config resolved)
            resolved)
          _ h3 in
      let (arn, role, h5) =
        bind-eq-ok (deploy_role_arn py_str same config on_demand primary.0) _ h4 in
      let (writer, writes, h6) =
        bind-eq-ok (dns_writer_role py_str same config on_demand primary.1) _ h5 in
      rw (← ok-injective h6) (
        λ a m.
            primary_account-Reached (service_accounts py_str same config resolved) resolved primary
              a chosen m (service_accounts-cases resolved a m),
        deploy_role_arn-Permitted on_demand primary.0 arn role,
      )

  -- If `resolve_deploy_role` returns, every unit of the scope resolves to the one target account, or
  -- to the shared DNS account with the role for DNS writes announced; and the target is a registered
  -- account that CI may deploy always, or on demand in a run that opted in.
  pub resolve_deploy_role-Reached :
      (unit_path include_dir_flags : Option Str) (on_demand : Bool) (paths : List Str)
      (out : RoleOutputs)
      → scope_paths py_str same config unit_path include_dir_flags ≡ ok paths
      → resolve_deploy_role py_str same config unit_path include_dir_flags on_demand ≡ ok out
      → All
          (λ p.
            (unit : Str × Str) × (resolve_account_id py_str same config p ≡ ok unit)
            × Reached unit.1 out.target_account_id out.needs_dns_writer)
          paths
        × ((entry : Dict Json) × (get out.target_account_id config.accounts ≡ some entry)
            × Permitted entry on_demand)
  unfolding resolve_deploy_role
  resolve_deploy_role-Reached unit_path flags on_demand paths out scoped h =
      let (ps, scoped2, h1) = bind-eq-ok (scope_paths py_str same config unit_path flags) _ h in
      let (resolved, units, h2) = bind-eq-ok (resolve_all py_str same config ps) _ h1 in
      let (reach, registered) = outputs_of-Reached on_demand resolved out h2 in
      let same_paths : ps ≡ paths = ok-injective (sym scoped2 ∙ scoped) in
      (
        resolve_all-Reached out.target_account_id out.needs_dns_writer paths resolved
            (ap (λ t. resolve_all py_str same config t) (sym same_paths) ∙ units) reach,
        registered,
      )
