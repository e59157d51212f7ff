-- ===== src/Accounts/Resolve.antt =====
-- `resolve_account_id`: the account that a unit path belongs to.
use telemetry_platform.Base.{
  Bool, [], ◌∷◌, if◌then◌else◌, Str, codes, ◌==◌, member, length, take, ◌-◌, Outcome, ok, raised,
  path_parse_error, account_resolution, need, key_error, ◌>>=◌,
}
use telemetry_platform.Base.Dict.{Dict, get}
use telemetry_platform.Base.Order.{before, ends_with, split_char}
use telemetry_platform.Json.{Json, get_or_null}
use telemetry_platform.Accounts.{Config}
use telemetry_platform.Accounts.Paths.{parse_unit_path}

-- role_dir without the suffix "_role"
unfoldable pub role_of : Str → Str
unfolding ends_with take
role_of role_dir =
    if ends_with role_dir (codes "_role") then take role_dir (length role_dir - 5) else role_dir

-- `py_str` is str(v); `same` is equality of two parsed values.
module _ (py_str : Json → Str) (same : Json → Json → Bool) (config : Config) where
  -- _envs_account
  unfoldable pub envs_account : Str → Outcome Str
  unfolding get
  envs_account env = do
    row ← need account_resolution (get env config.envs)
    account_id ← need key_error (get (codes "account_id") row)
    ok (py_str account_id)

  -- _dns_owner_account
  unfoldable pub dns_owner_account : Outcome Str
  unfolding get
  dns_owner_account = do
    account_id ← need account_resolution (get (codes "account_id") config.dns_owner)
    ok (py_str account_id)

  unfoldable pub bootstrap_account : Str → Outcome Str
  unfolding envs_account dns_owner_account role_of
  bootstrap_account [] = raised path_parse_error
  bootstrap_account (c ∷ role_dir) =
      if role_of (c ∷ role_dir) == codes "dns_owner"
      then dns_owner_account
      else envs_account (role_of (c ∷ role_dir))

  -- pretty_in_env_zone
  unfoldable pub in_env_zone : Dict Json → Bool
  unfolding get_or_null
  in_env_zone dom =
      same (get_or_null (codes "dns_pretty_apex") dom) (get_or_null (codes "dns_service_apex") dom)

  unfoldable pub pretty_account : Str → Outcome Str
  unfolding get in_env_zone envs_account dns_owner_account
  pretty_account env = need account_resolution (get env config.domains) >>= λ dom.
      if in_env_zone dom then envs_account env else dns_owner_account

  unfoldable pub tier_account : Str → Str → Outcome Str
  unfolding bootstrap_account pretty_account before split_char member
  tier_account first rest =
      if first == codes "bootstrap"
      then bootstrap_account (before b'/' rest)
      else if member (codes "dns_owner") (split_char b'/' rest)
      then dns_owner_account
      else if member (codes "pretty") (split_char b'/' rest)
      then pretty_account first
      else envs_account first

  -- resolve_account_id
  unfoldable pub resolve_account_id : Str → Outcome (Str × Str)
  unfolding parse_unit_path tier_account
  resolve_account_id unit_path = do
    unit ← parse_unit_path unit_path
    account_id ← tier_account unit.1 unit.2
    ok (unit.0, account_id)
