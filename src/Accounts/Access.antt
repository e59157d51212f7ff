-- ===== src/Accounts/Access.antt =====
-- `on_demand_opt_in`, `account_allows_ci_apply`, `is_account_ci_deployable` and `load_account_entry`.
pub mod Agree
use telemetry_platform.Base.{
  Bool, true, false, ◌&&◌, Option, none, some, [], ◌∷◌, if◌then◌else◌, map, leb, ◌+◌, Str, codes,
  member, Outcome, ok, raised, key_error, account_not_found, ci_deploy_forbidden, need, ◌>>=◌, ◌≡◌,
  refl, arith, bind-eq-ok, need-eq-ok, ok-injective, ◌⊎◌, ◌∙◌, ap, subst,
}
use telemetry_platform.Base.Dict.{Dict, get}
use telemetry_platform.Base.Int.{strip}
use telemetry_platform.Json.{Json, truthy}
use telemetry_platform.Accounts.{ci_deploy_key, ci_deploy_on_demand_key, deploy_role_name_key}

-- s.lower(), over ASCII text
unfoldable pub lower : Str → Str
lower = map (λ c. if leb 65 c && leb c 90 then c + 32 else c)

abbrev text_or_empty : Option Str → Str
text_or_empty none = []
text_or_empty (some s) = s

-- on_demand_opt_in
unfoldable pub on_demand_opt_in : Dict Str → Bool
unfolding get strip lower member
on_demand_opt_in environ =
    member (lower (strip (text_or_empty (get (codes "TT_ON_DEMAND_APPLY") environ))))
      (codes "1" ∷ codes "true" ∷ codes "yes" ∷ codes "on" ∷ [])

abbrev truthy_or_false : Option Json → Bool
truthy_or_false none = false
truthy_or_false (some v) = truthy v

-- account_allows_ci_apply, whose caller has found the key
unfoldable pub account_allows_ci_apply : Dict Json → Bool → Outcome Bool
unfolding get truthy
account_allows_ci_apply entry on_demand = do
  deploys ← need key_error (get ci_deploy_key entry)
  ok (
      if truthy deploys
      then true
      else on_demand && truthy_or_false (get ci_deploy_on_demand_key entry))

-- is_account_ci_deployable
unfoldable pub is_account_ci_deployable : Str → Dict (Dict Json) → Bool → Outcome Bool
unfolding get account_allows_ci_apply
is_account_ci_deployable account_id accounts on_demand = do
  entry ← need account_not_found (get account_id accounts)
  deploys ← need account_not_found (get ci_deploy_key entry)
  account_allows_ci_apply entry on_demand

-- What both role look-ups do with the answer.
unfoldable pub forbid : Bool → Outcome (Unit {0})
forbid true = ok tt
forbid false = raised ci_deploy_forbidden

-- load_account_entry, on the parsed accounts.json
unfoldable pub load_account_entry : Str → Dict (Dict Json) → Bool → Outcome (Dict Json)
unfolding get account_allows_ci_apply forbid
load_account_entry account_id accounts on_demand = do
  entry ← need account_not_found (get account_id accounts)
  role ← need account_not_found (get deploy_role_name_key entry)
  deploys ← need account_not_found (get ci_deploy_key entry)
  allowed ← account_allows_ci_apply entry on_demand
  passed ← forbid allowed
  ok entry

-- An account that may be applied: it is always deployable, or the run opted in and it is eligible.
abbrev pub Permitted : Dict Json → Bool → Type 0
Permitted entry on_demand =
    (deploys : Json) × (get ci_deploy_key entry ≡ some deploys)
    × ((truthy deploys ≡ true)
        ⊎ ((on_demand ≡ true) × (truthy_or_false (get ci_deploy_on_demand_key entry) ≡ true)))

pub account_allows_ci_apply-Permitted :
    (entry : Dict Json) (on_demand : Bool)
    → account_allows_ci_apply entry on_demand ≡ ok true
    → Permitted entry on_demand
unfolding account_allows_ci_apply
account_allows_ci_apply-Permitted entry on_demand h =
    let (deploys, got, rest) = bind-eq-ok (need key_error (get ci_deploy_key entry)) _ h in
    (deploys, need-eq-ok key_error (get ci_deploy_key entry) got, ground arith)

pub forbid-eq-ok : (b : Bool) (u : Unit {0}) → forbid b ≡ ok u → b ≡ true
unfolding forbid
forbid-eq-ok true u h = refl
forbid-eq-ok false u h = cc

-- `load_account_entry` gives out only the row of a registered account that may be applied.
pub load_account_entry-Permitted :
    (account_id : Str) (accounts : Dict (Dict Json)) (on_demand : Bool) (row : Dict Json)
    → load_account_entry account_id accounts on_demand ≡ ok row
    → (get account_id accounts ≡ some row) × Permitted row on_demand
unfolding load_account_entry
load_account_entry-Permitted account_id accounts on_demand row h =
    let (entry, found, h1) = bind-eq-ok (need account_not_found (get account_id accounts)) _ h in
    let (role, has_role, h2) =
      bind-eq-ok (need account_not_found (get deploy_role_name_key entry)) _ h1 in
    let (deploys, has_deploys, h3) =
      bind-eq-ok (need account_not_found (get ci_deploy_key entry)) _ h2 in
    let (allowed, asked, h4) = bind-eq-ok (account_allows_ci_apply entry on_demand) _ h3 in
    let (u, passed, h5) = bind-eq-ok (forbid allowed) _ h4 in
    let same = ok-injective h5 in
    let yes = forbid-eq-ok allowed u passed in
    (
      need-eq-ok account_not_found (get account_id accounts) found ∙ ap (λ r. some r) same,
      subst (λ r. Permitted r on_demand) same
          (account_allows_ci_apply-Permitted entry on_demand (rw yes at asked)),
    )
