-- ===== src/Allowlist/Run.antt =====
-- `resolve_web_acl`, `apply_allowlist`, `remove_allowlist`, `run` and the exit codes of `main`, with
-- `discover_waf_web_acl` of scripts/perf_report.py.
pub mod AclCalls
pub mod Order
use telemetry_platform.Base.{
  ℕ, zero, suc, Bool, true, false, ◌&&◌, ◌||◌, Option, none, some, List, [], ◌∷◌, ◌++◌,
  if◌then◌else◌, Str, codes, ◌==◌, starts_with, find_first, Exc, Outcome, ok, raised, usage_error,
}
use telemetry_platform.Base.Int.{ℤ}
use telemetry_platform.Base.Order.{contains}
use telemetry_platform.Allowlist.Client.{Waf, AclSummary, SetSummary, Call, ◌>>=◌, pure, fail}
use telemetry_platform.Allowlist.Dedupe.{dedupe}
use telemetry_platform.Allowlist.IpSet.{ensure_ip_set, delete_set}
use telemetry_platform.Allowlist.Rule.{ensure_allow_rule, remove_allow_rule}

abbrev sole_name : List AclSummary → Option Str
sole_name (a ∷ []) = some a.name
sole_name _ = none

unfoldable pub is_collector_acl : AclSummary → Bool
unfolding contains starts_with
is_collector_acl a = contains (codes "adot") a.name && contains (codes "waf") a.name

-- The choice of discover_waf_web_acl.
unfoldable pub discovered_name : List AclSummary → Option Str
unfolding is_collector_acl find_first
discovered_name acls = elim (find_first is_collector_acl acls) [
  | some a ↦ some a.name
  | none ↦ sole_name acls
]

module _ (waf : Waf) where
  open waf use {Server, list_web_acls}

  -- discover_waf_web_acl
  unfoldable pub discover_waf_web_acl : Call Server (Option Str)
  unfolding discovered_name
  discover_waf_web_acl = list_web_acls >>= λ acls. pure (discovered_name acls)

  -- The look-up of a name, which must be a text that is not empty.
  unfoldable pub resolve_name : Option Str → Call Server AclSummary
  unfolding find_first
  resolve_name none = fail usage_error
  resolve_name (some []) = fail usage_error
  resolve_name (some (c ∷ cs)) = list_web_acls >>= λ acls.
      elim (find_first (λ (a : AclSummary). a.name == (c ∷ cs)) acls) [
        | none ↦ fail usage_error
        | some found ↦ pure (record { name = c ∷ cs; id = found.id })
      ]

  -- resolve_web_acl: `web_acl_name or discover_waf_web_acl(wafv2)`
  unfoldable pub resolve_web_acl : Option Str → Call Server AclSummary
  unfolding resolve_name discover_waf_web_acl
  resolve_web_acl (some (c ∷ cs)) = resolve_name (some (c ∷ cs))
  resolve_web_acl _ = discover_waf_web_acl >>= resolve_name

  -- The evidence of both actions.
  pub record Evidence : Type 0 where
    pub target : AclSummary
    pub ip_set_name : Str
    pub ip_set_arn : Option Str
    pub allow_rule_name : Str
    pub added_cidrs : List Str
    pub rule_changed : Bool
    pub ip_set_deleted : Bool

  -- apply_allowlist
  unfoldable pub apply_allowlist : ℤ → Option Str → Str → Str → ℕ → List Str → Call Server Evidence
  unfolding resolve_web_acl ensure_ip_set ensure_allow_rule dedupe
  apply_allowlist retries web_acl_name ipset_name rule_name priority add_cidrs = do
    target ← resolve_web_acl web_acl_name
    ip_set ← ensure_ip_set waf retries ipset_name add_cidrs
    rule_added ← ensure_allow_rule waf retries target rule_name priority ip_set.arn
    pure (record {
      target = target;
      ip_set_name = ipset_name;
      ip_set_arn = some ip_set.arn;
      allow_rule_name = rule_name;
      added_cidrs = dedupe add_cidrs;
      rule_changed = rule_added;
      ip_set_deleted = false;
    })

  -- remove_allowlist
  unfoldable pub remove_allowlist : ℤ → Option Str → Str → Str → Call Server Evidence
  unfolding resolve_web_acl remove_allow_rule delete_set
  remove_allowlist retries web_acl_name ipset_name rule_name = do
    target ← resolve_web_acl web_acl_name
    rule_removed ← remove_allow_rule waf retries target rule_name
    ip_set_deleted ← delete_set waf retries ipset_name
    pure (record {
      target = target;
      ip_set_name = ipset_name;
      ip_set_arn = none;
      allow_rule_name = rule_name;
      added_cidrs = [];
      rule_changed = rule_removed;
      ip_set_deleted = ip_set_deleted;
    })

pub data Action : Type 0 where
  apply remove : Action

-- The parsed command line, without what only builds the client.
pub record Args : Type 0 where
  pub action : Action
  pub web_acl_name : Option Str
  pub ipset_name : Option Str
  pub allow_rule_name : Str
  pub allow_rule_priority : ℕ
  pub add_cidrs : List Str
  pub lock_retries : ℤ

-- _default_ipset_name
unfoldable pub default_ipset_name : Option Str → Str → Str
default_ipset_name (some (c ∷ cs)) rule_name = (c ∷ cs) ++ codes "-ipset"
default_ipset_name _ rule_name = rule_name ++ codes "-ipset"

-- args.ipset_name or _default_ipset_name(…)
unfoldable pub ipset_name_of : Args → Str
unfolding default_ipset_name
ipset_name_of args = elim args.ipset_name [
  | some (c ∷ cs) ↦ c ∷ cs
  | _ ↦ default_ipset_name args.web_acl_name args.allow_rule_name
]

-- run
unfoldable pub run : (waf : Waf) → Args → Call (Waf.Server waf) (Evidence waf)
unfolding ipset_name_of apply_allowlist remove_allowlist
run waf args = elim args.action [
  | apply ↦
      apply_allowlist waf args.lock_retries args.web_acl_name (ipset_name_of args)
        args.allow_rule_name args.allow_rule_priority args.add_cidrs
  | remove ↦
      remove_allowlist waf args.lock_retries args.web_acl_name (ipset_name_of args)
        args.allow_rule_name
]

-- The exit code of `main` once the client is built.
unfoldable pub exit_code {ℓ} : {A : Type ℓ} → Outcome A → ℕ
exit_code (ok a) = 0
exit_code (raised usage_error) = 2
exit_code (raised e) = 1
