-- ===== src/Accounts/Role.antt =====
-- `resolve_deploy_role`: the role and the region that a run assumes.
pub mod Safe
use telemetry_platform.Base.{
  ℕ, Bool, true, false, not, ◌&&◌, Option, none, some, List, [], ◌∷◌, ◌++◌, if◌then◌else◌, map, Str,
  codes, ◌==◌, member, select, Outcome, ok, raised, account_not_found, mixed_account,
  path_parse_error, index_error, need, ◌>>=◌,
}
use telemetry_platform.Base.Dict.{Dict, get}
use telemetry_platform.Json.{Json}
use telemetry_platform.Allowlist.Dedupe.{dedupe}
use telemetry_platform.Accounts.{Config, deploy_role_name_key}
use telemetry_platform.Accounts.Paths.{extract_all_unit_paths}
use telemetry_platform.Accounts.Access.{load_account_entry}
use telemetry_platform.Accounts.Resolve.{resolve_account_id}

-- build_role_arn
unfoldable pub build_role_arn : Str → Str → Str
build_role_arn account_id role_name =
    codes "arn:aws:iam::" ++ account_id ++ codes ":role/" ++ role_name

-- The outputs, in the order in which they are written.
pub record RoleOutputs : Type 0 where
  pub role_arn : Str
  pub aws_region : Str
  pub target_account_id : Str
  pub needs_dns_writer : Bool
  pub dns_writer_arn : Str

module _ (py_str : Json → Str) (same : Json → Json → Bool) (config : Config) where
  abbrev text_of_option : Option Json → Str
  text_of_option none = []
  text_of_option (some v) = py_str v

  -- str(env_accounts.get("dns_owner", {}).get("account_id", ""))
  unfoldable pub dns_owner_account_id : Str
  unfolding get
  dns_owner_account_id = text_of_option (get (codes "account_id") config.dns_owner)

  -- [resolve_account_id(p, …) for p in paths]
  unfoldable pub resolve_all : List Str → Outcome (List (Str × Str))
  unfolding resolve_account_id
  resolve_all [] = ok []
  resolve_all (p ∷ ps) = do
    unit ← resolve_account_id py_str same config p
    units ← resolve_all ps
    ok (unit ∷ units)

  -- The accounts of the scope, the shared one left out.
  unfoldable pub service_accounts : List (Str × Str) → List Str
  unfolding dedupe select dns_owner_account_id
  service_accounts resolved =
      select (λ a. not (a == dns_owner_account_id)) (dedupe (map (λ u. u.1) resolved))

  -- The account to run in, and whether the role for DNS writes is needed.
  unfoldable pub primary_account : List Str → List (Str × Str) → Outcome (Str × Bool)
  unfolding dns_owner_account_id member
  primary_account [] resolved = ok (dns_owner_account_id, false)
  primary_account (a ∷ []) resolved = ok (a, member dns_owner_account_id (map (λ u. u.1) resolved))
  primary_account (a ∷ b ∷ more) resolved = raised mixed_account

  -- load_deploy_role_name, then build_role_arn
  unfoldable pub deploy_role_arn : Bool → Str → Outcome Str
  unfolding get load_account_entry build_role_arn
  deploy_role_arn on_demand account_id = do
    entry ← load_account_entry account_id config.accounts on_demand
    role ← need account_not_found (get deploy_role_name_key entry)
    ok (build_role_arn account_id (py_str role))

  unfoldable pub dns_writer_role : Bool → Bool → Outcome Str
  unfolding deploy_role_arn dns_owner_account_id
  dns_writer_role on_demand true = deploy_role_arn on_demand dns_owner_account_id
  dns_writer_role on_demand false = ok []

  abbrev first_region : List (Str × Str) → Outcome Str
  first_region [] = raised index_error
  first_region (u ∷ us) = ok u.0

  -- From the resolved units to the outputs.
  unfoldable pub outputs_of : Bool → List (Str × Str) → Outcome RoleOutputs
  unfolding service_accounts primary_account deploy_role_arn dns_writer_role
  outputs_of on_demand resolved = do
    region ← first_region resolved
    primary ← primary_account (service_accounts resolved) resolved
    role_arn ← deploy_role_arn on_demand primary.0
    dns_writer_arn ← dns_writer_role on_demand primary.1
    ok (record {
      role_arn = role_arn;
      aws_region = region;
      target_account_id = primary.0;
      needs_dns_writer = primary.1;
      dns_writer_arn = dns_writer_arn;
    })

  unfoldable pub scope_paths : Option Str → Option Str → Outcome (List Str)
  unfolding extract_all_unit_paths
  scope_paths unit_path (some flags) = extract_all_unit_paths flags
  scope_paths none none = raised path_parse_error
  scope_paths (some p) none = ok (p ∷ [])

  -- resolve_deploy_role, which writes what it returns here
  unfoldable pub resolve_deploy_role : Option Str → Option Str → Bool → Outcome RoleOutputs
  unfolding scope_paths resolve_all outputs_of
  resolve_deploy_role unit_path include_dir_flags on_demand = do
    paths ← scope_paths unit_path include_dir_flags
    resolved ← resolve_all paths
    outputs_of on_demand resolved
