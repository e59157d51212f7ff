-- ===== src/Accounts/Partition/Rows.antt =====
-- What the rows of `partition` say: every unit in one row, and in apply mode only permitted accounts.
use telemetry_platform.Base.{
  Bool, false, ◌||◌, some, List, [], ◌∷◌, Str, map, member, any, select, ok, account_not_found,
  need, need-eq-ok, bind-eq-ok, ◌≡◌, refl, ◌∙◌, ap, arith, All, ok-injective,
}
use telemetry_platform.Base.Dict.{Dict, get, keys, Distinct}
use telemetry_platform.Base.Order.{sorted, member-sorted, sorted-Distinct}
use telemetry_platform.Json.{Json}
use telemetry_platform.Accounts.{Config, ci_deploy_key}
use telemetry_platform.Accounts.Paths.{reassemble_flags}
use telemetry_platform.Accounts.Access.{
  Permitted, account_allows_ci_apply, account_allows_ci_apply-Permitted, forbid, forbid-eq-ok,
}
use telemetry_platform.Accounts.Partition.{
  Mode, apply_mode, Row, Groups, row_of, rows_of, load_role_name, role_key, group_units,
  partition_paths, paths_or_empty, no_groups,
}
use telemetry_platform.Accounts.Partition.Grouping.{
  belongs, Resolves, group_units-paths, group_units-keys, group_units-Distinct,
  group_units-Resolves,
}

module _ (py_str : Json → Str) (same : Json → Json → Bool) (config : Config)
    (on_demand : Bool) where
  -- A row is that of its account, with the account's units.
  row_of-account_id :
      (mode : Mode) (g : Groups) (a : Str) (row : Row)
      → row_of py_str same config on_demand mode g a ≡ ok row
      → (row.account_id ≡ a)
        × (row.include_dir_flags
            ≡ reassemble_flags (paths_or_empty (get row.account_id g.by_account)))
  unfolding row_of
  row_of-account_id mode g a row h =
      let (role_name, loaded, rest) =
        bind-eq-ok (load_role_name py_str same config on_demand mode a) _ h in
      rw (← ok-injective rest) (refl, refl)

  rows_of-account_ids :
      (mode : Mode) (g : Groups) (accounts : List Str) (rows : List Row)
      → rows_of py_str same config on_demand mode g accounts ≡ ok rows
      → (map (λ (r : Row). r.account_id) rows ≡ accounts)
        × All
            (λ (r : Row).
              r.include_dir_flags
              ≡ reassemble_flags (paths_or_empty (get r.account_id g.by_account)))
            rows
  unfolding rows_of
  rows_of-account_ids mode g [] rows h = rw (← ok-injective h) (refl, tt)
  rows_of-account_ids mode g (a ∷ accounts) rows h =
      let (row, made, h1) = bind-eq-ok (row_of py_str same config on_demand mode g a) _ h in
      let (more, others, h2) =
        bind-eq-ok (rows_of py_str same config on_demand mode g accounts) _ h1 in
      let (is, flags) = row_of-account_id mode g a row made in
      let (ids, all_flags) = rows_of-account_ids mode g accounts more others in
      rw (← ok-injective h2) (rw (is, ids) refl, (flags, all_flags))

  All-flags :
      (g : Groups) (paths : List Str) (rows : List Row)
      → ((a : Str)
          → paths_or_empty (get a g.by_account)
            ≡ select (λ p. belongs py_str same config on_demand a p) paths)
      → All
          (λ (r : Row).
            r.include_dir_flags ≡ reassemble_flags (paths_or_empty (get r.account_id g.by_account)))
          rows
      → All
          (λ (r : Row).
            r.include_dir_flags
            ≡ reassemble_flags
                (select (λ p. belongs py_str same config on_demand r.account_id p) paths))
          rows
  All-flags g paths [] same_paths h = tt
  All-flags g paths (r ∷ rows) same_paths (h, hs) =
      (h ∙ ap reassemble_flags (same_paths r.account_id), All-flags g paths rows same_paths hs)

  -- If the partition of the unit paths returns, every path resolves to an account, no account has two
  -- rows, an account has a row exactly when a path resolves to it, and the row's flags name exactly
  -- the account's paths, in their order: no unit is lost, and none is run in another's account.
  pub partition_paths-Distinct :
      (mode : Mode) (paths : List Str) (rows : List Row)
      → partition_paths py_str same config on_demand mode paths ≡ ok rows
      → All (Resolves py_str same config on_demand) paths
        × Distinct (map (λ (r : Row). r.account_id) rows)
        × ((a : Str)
            → member a (map (λ (r : Row). r.account_id) rows)
              ≡ any (λ p. belongs py_str same config on_demand a p) paths)
        × All
            (λ (r : Row).
              r.include_dir_flags
              ≡ reassemble_flags
                  (select (λ p. belongs py_str same config on_demand r.account_id p) paths))
            rows
  unfolding partition_paths member
  partition_paths-Distinct mode paths rows h =
      let (g, grouped, h1) =
        bind-eq-ok
          (group_units py_str same config on_demand paths (no_groups py_str same config on_demand))
          _ h in
      let (ids, flags) = rows_of-account_ids mode g (sorted (keys g.by_account)) rows h1 in
      (
        group_units-Resolves py_str same config on_demand paths _ g grouped,
        rw ids (
            sorted-Distinct (keys g.by_account)
              (group_units-Distinct py_str same config on_demand paths _ g grouped tt)),
        λ a.
            ap (λ t. member a t) ids
            ∙ member-sorted a (keys g.by_account)
            ∙ group_units-keys py_str same config on_demand paths _ g a grouped
            ∙ or-false _,
        All-flags g paths rows
            (λ a. group_units-paths py_str same config on_demand paths _ g a grouped) flags,
      )
    where
      or-false : (b : Bool) → (b || false) ≡ b
      or-false b = ground arith

  role_key-Permitted :
      (entry : Dict Json) (key : Str)
      → role_key apply_mode entry on_demand ≡ ok key
      → Permitted entry on_demand
  unfolding role_key
  role_key-Permitted entry key h =
      let (allowed, asked, h1) = bind-eq-ok (account_allows_ci_apply entry on_demand) _ h in
      let (u, passed, h2) = bind-eq-ok (forbid allowed) _ h1 in
      let yes = forbid-eq-ok allowed u passed in
      account_allows_ci_apply-Permitted entry on_demand (rw yes at asked)

  -- The account is registered, and may be applied in this run.
  abbrev pub Registered : Str → Type 0
  Registered a =
      (entry : Dict Json) × (get a config.accounts ≡ some entry) × Permitted entry on_demand

  row_of-Registered :
      (g : Groups) (a : Str) (row : Row)
      → row_of py_str same config on_demand apply_mode g a ≡ ok row
      → Registered a
  unfolding row_of load_role_name
  row_of-Registered g a row h =
      let (role_name, loaded, h0) =
        bind-eq-ok (load_role_name py_str same config on_demand apply_mode a) _ h in
      let (entry, found, h1) =
        bind-eq-ok (need account_not_found (get a config.accounts)) _ loaded in
      let (deploys, has_deploys, h2) =
        bind-eq-ok (need account_not_found (get ci_deploy_key entry)) _ h1 in
      let (key, chosen, h3) = bind-eq-ok (role_key apply_mode entry on_demand) _ h2 in
      (
        entry,
        need-eq-ok account_not_found (get a config.accounts) found,
        role_key-Permitted entry key chosen,
      )

  rows_of-Registered :
      (g : Groups) (accounts : List Str) (rows : List Row)
      → rows_of py_str same config on_demand apply_mode g accounts ≡ ok rows
      → All Registered accounts
  unfolding rows_of
  rows_of-Registered g [] rows h = tt
  rows_of-Registered g (a ∷ accounts) rows h =
      let (row, made, h1) = bind-eq-ok (row_of py_str same config on_demand apply_mode g a) _ h in
      let (more, others, h2) =
        bind-eq-ok (rows_of py_str same config on_demand apply_mode g accounts) _ h1 in
      (row_of-Registered g a row made, rows_of-Registered g accounts more others)

  -- In apply mode every row is that of a registered account that is deployable by CI, or that is
  -- eligible for the on-demand lane in a run that opted into it.
  pub partition_paths-Registered :
      (paths : List Str) (rows : List Row)
      → partition_paths py_str same config on_demand apply_mode paths ≡ ok rows
      → All Registered (map (λ (r : Row). r.account_id) rows)
  unfolding partition_paths
  partition_paths-Registered paths rows h =
      let (g, grouped, h1) =
        bind-eq-ok
          (group_units py_str same config on_demand paths (no_groups py_str same config on_demand))
          _ h in
      let (ids, flags) = rows_of-account_ids apply_mode g (sorted (keys g.by_account)) rows h1 in
      rw ids (rows_of-Registered g (sorted (keys g.by_account)) rows h1)
