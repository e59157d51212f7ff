-- ===== src/Accounts/Access/Agree.antt =====
-- The filter's test and the resolver's gate.
use telemetry_platform.Base.{
  Bool, true, false, Option, none, some, Str, Outcome, ok, raised, account_not_found, need, ◌≡◌,
  refl, ◌↔◌, ◌>>=◌,
}
use telemetry_platform.Base.Dict.{Dict, get}
use telemetry_platform.Json.{Json}
use telemetry_platform.Accounts.{ci_deploy_key, deploy_role_name_key}
use telemetry_platform.Accounts.Access.{
  account_allows_ci_apply, is_account_ci_deployable, load_account_entry, forbid,
}

-- For a registered account with a deploy role, the test that keeps a unit in the scope and the gate
-- that gives out the role agree: the test answers yes exactly when the gate returns the row.
pub is_account_ci_deployable-load_account_entry :
    (account_id : Str) (accounts : Dict (Dict Json)) (on_demand : Bool) (entry : Dict Json)
    (role : Json)
    → get account_id accounts ≡ some entry
    → get deploy_role_name_key entry ≡ some role
    → (is_account_ci_deployable account_id accounts on_demand ≡ ok true)
      ↔ (load_account_entry account_id accounts on_demand ≡ ok entry)
unfolding is_account_ci_deployable load_account_entry
is_account_ci_deployable-load_account_entry account_id accounts on_demand entry role found
      has_role =
    rw (found, has_role) (go (get ci_deploy_key entry) (account_allows_ci_apply entry on_demand))
  where
    go :
        (deploys : Option Json) (allowed : Outcome Bool)
        → ((need account_not_found deploys >>= λ d. allowed) ≡ ok true) ↔ (
            (need account_not_found deploys >>= λ d. allowed >>= λ b. forbid b >>= λ u. ok entry)
            ≡ ok entry)
    go none allowed = (λ h. cc, λ h. cc)
    go (some d) (raised e) = (λ h. cc, λ h. cc)
    go (some d) (ok true) = (λ h. refl, λ h. refl)
    go (some d) (ok false) = (λ h. cc, λ h. cc)
