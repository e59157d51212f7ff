-- ===== src/Accounts/Partition.antt =====
-- scripts/partition_units_by_account.py: one row of the matrix for each account of the scope.
pub mod Grouping
pub mod Rows
use telemetry_platform.Base.{
  ℕ, Bool, true, false, ◌&&◌, Option, none, some, List, [], ◌∷◌, ◌++◌, if◌then◌else◌, Str, ◌==◌,
  Outcome, ok, raised, codes, account_not_found, partition_error, need, ◌>>=◌,
}
use telemetry_platform.Base.Dict.{Dict, get, put, set_default, keys}
use telemetry_platform.Base.Int.{strip}
use telemetry_platform.Base.Order.{sorted}
use telemetry_platform.Json.{Json}
use telemetry_platform.Accounts.{Config, ci_deploy_key, deploy_role_name_key, plan_role_name_key}
use telemetry_platform.Accounts.Paths.{extract_all_unit_paths, reassemble_flags}
use telemetry_platform.Accounts.Access.{account_allows_ci_apply, forbid}
use telemetry_platform.Accounts.Resolve.{resolve_account_id}
use telemetry_platform.Accounts.Role.{build_role_arn, dns_owner_account_id}

-- MODE_PLAN, MODE_APPLY
pub data Mode : Type 0 where
  plan_mode apply_mode : Mode

unfoldable pub mode_of : Str → Option Mode
mode_of mode =
    if mode == codes "plan"
    then some plan_mode
    else if mode == codes "apply"
    then some apply_mode
    else none

abbrev pub is_apply : Mode → Bool
is_apply plan_mode = false
is_apply apply_mode = true

-- "true" if needs_dns_writer else "false"
abbrev pub dns_writer_text : Bool → Str
dns_writer_text true = codes "true"
dns_writer_text false = codes "false"

pub record Row : Type 0 where
  pub account_id : Str
  pub role_arn : Str
  pub needs_dns_writer : Str
  pub aws_region : Str
  pub include_dir_flags : Str

-- The unit paths of each account, and the region of its first one.
pub record Groups : Type 0 where
  pub by_account : Dict (List Str)
  pub region_by_account : Dict Str

abbrev pub paths_or_empty : Option (List Str) → List Str
paths_or_empty none = []
paths_or_empty (some paths) = paths

-- by_account.setdefault(a, []).append(p); region_by_account.setdefault(a, region)
unfoldable pub add_unit : Str → Str × Str → Groups → Groups
unfolding get put set_default
add_unit p unit g = record {
  by_account = put unit.1 (paths_or_empty (get unit.1 g.by_account) ++ p ∷ []) g.by_account;
  region_by_account = set_default unit.1 unit.0 g.region_by_account;
}

-- _load_role_name: the name of the role's key, when the account may be used in this mode
unfoldable pub role_key : Mode → Dict Json → Bool → Outcome Str
unfolding account_allows_ci_apply forbid
role_key plan_mode entry on_demand = ok plan_role_name_key
role_key apply_mode entry on_demand = do
  allowed ← account_allows_ci_apply entry on_demand
  passed ← forbid allowed
  ok deploy_role_name_key

module _ (py_str : Json → Str) (same : Json → Json → Bool) (config : Config)
    (on_demand : Bool) where
  -- _load_role_name
  unfoldable pub load_role_name : Mode → Str → Outcome Str
  unfolding get role_key
  load_role_name mode account_id = do
    entry ← need account_not_found (get account_id config.accounts)
    deploys ← need account_not_found (get ci_deploy_key entry)
    key ← role_key mode entry on_demand
    role ← need account_not_found (get key entry)
    ok (py_str role)

  -- The loop over the unit paths.
  unfoldable pub group_units : List Str → Groups → Outcome Groups
  unfolding resolve_account_id add_unit
  group_units [] g = ok g
  group_units (p ∷ ps) g = do
    unit ← resolve_account_id py_str same config p
    group_units ps (add_unit p unit g)

  abbrev text_or_empty : Option Str → Str
  text_or_empty none = []
  text_or_empty (some s) = s

  -- The body of the loop over the accounts, of which every one has a region.
  unfoldable pub row_of : Mode → Groups → Str → Outcome Row
  unfolding get load_role_name build_role_arn dns_owner_account_id reassemble_flags
  row_of mode g account_id = do
    role_name ← load_role_name mode account_id
    ok (record {
      account_id = account_id;
      role_arn = build_role_arn account_id role_name;
      needs_dns_writer =
          dns_writer_text
            (is_apply mode && (account_id == dns_owner_account_id py_str same config));
      aws_region = text_or_empty (get account_id g.region_by_account);
      include_dir_flags = reassemble_flags (paths_or_empty (get account_id g.by_account));
    })

  unfoldable pub rows_of : Mode → Groups → List Str → Outcome (List Row)
  unfolding row_of
  rows_of mode g [] = ok []
  rows_of mode g (a ∷ accounts) = do
    row ← row_of mode g a
    rows ← rows_of mode g accounts
    ok (row ∷ rows)

  abbrev pub no_groups : Groups
  no_groups = record { by_account = []; region_by_account = [] }

  -- The rows of a scope that is not empty.
  unfoldable pub partition_paths : Mode → List Str → Outcome (List Row)
  unfolding group_units rows_of sorted
  partition_paths mode paths = do
    g ← group_units paths no_groups
    rows_of mode g (sorted (keys g.by_account))

  abbrev partition_stripped : Mode → Str → Str → Outcome (List Row)
  partition_stripped mode include_dir_flags [] = ok []
  partition_stripped mode include_dir_flags (c ∷ s) = do
    paths ← extract_all_unit_paths include_dir_flags
    partition_paths mode paths

  -- partition
  unfoldable pub partition : Str → Str → Outcome (List Row)
  unfolding mode_of strip extract_all_unit_paths partition_paths
  partition include_dir_flags mode_text = do
    mode ← need partition_error (mode_of mode_text)
    partition_stripped mode include_dir_flags (strip include_dir_flags)
