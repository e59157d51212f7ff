-- ===== src/Accounts.antt =====
-- The unit paths and the configuration of scripts/resolve_deploy_role.py.
pub mod Access
pub mod Filter
pub mod Partition
pub mod Paths
pub mod Resolve
pub mod Role
pub mod Select
pub mod State
mod Tests
use telemetry_platform.Base.{Str, codes, Option, none, some}
use telemetry_platform.Base.Dict.{Dict}
use telemetry_platform.Json.{Json}

-- The parsed env_accounts.json, domains.json and accounts.json, whose rows are objects; a missing
-- `envs` or `dns_owner` is empty.
pub record Config : Type 0 where
  pub envs : Dict (Dict Json)
  pub dns_owner : Dict Json
  pub domains : Dict (Dict Json)
  pub accounts : Dict (Dict Json)

-- CI_DEPLOY_KEY, CI_DEPLOY_ON_DEMAND_KEY, DEPLOY_ROLE_NAME_KEY, PLAN_ROLE_NAME_KEY
abbrev pub ci_deploy_key : Str
ci_deploy_key = codes "ci_deploy"

abbrev pub ci_deploy_on_demand_key : Str
ci_deploy_on_demand_key = codes "ci_deploy_on_demand"

abbrev pub deploy_role_name_key : Str
deploy_role_name_key = codes "deploy_role_name"

abbrev pub plan_role_name_key : Str
plan_role_name_key = codes "plan_role_name"
