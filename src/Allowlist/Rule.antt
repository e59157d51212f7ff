-- ===== src/Allowlist/Rule.antt =====
-- `build_allow_rule`, `ensure_allow_rule` and `remove_allow_rule`.
pub mod Contract
pub mod Gone
pub mod Laws
pub mod Lists
use telemetry_platform.Base.{
  ℕ, Bool, true, false, not, Option, none, some, List, [], ◌∷◌, ◌++◌, if◌then◌else◌, nat_beq, leb,
  Str, ◌==◌, length, select, Exc, Outcome, ok, raised, usage_error,
}
use telemetry_platform.Base.Int.{ℤ}
use telemetry_platform.Allowlist.Client.{
  Waf, WebAcl, AclSummary, Rule, Body, allow_ip_set, foreign, Call, ◌>>=◌, pure, fail,
  webacl_update_kwargs,
}
use telemetry_platform.Allowlist.Retry.{with_lock_retry}

-- _RATE_RULE_PRIORITY
abbrev pub rate_rule_priority : ℕ
rate_rule_priority = 100

-- build_allow_rule
unfoldable pub build_allow_rule : Str → ℕ → Str → Rule
build_allow_rule rule_name priority ipset_arn = record {
  name = rule_name;
  priority = priority;
  body = allow_ip_set ipset_arn rule_name;
}

-- What the scan of the rules finds: the rule is there, its priority is taken, or neither.
pub data Scan : Type 0 where
  present collision absent : Scan

unfoldable pub scan : Str → ℕ → List Rule → Scan
scan rule_name priority [] = absent
scan rule_name priority (existing ∷ rules) =
    let rest = scan rule_name priority rules in
    if existing.name == rule_name
    then present
    else if nat_beq existing.priority priority
    then collision
    else rest

-- [r for r in rules if r.get("Name") != rule_name]
unfoldable pub keep_others : Str → List Rule → List Rule
unfolding select
keep_others rule_name = select (λ (r : Rule). not (r.name == rule_name))

module _ (waf : Waf) where
  open waf use {Server, get_web_acl, update_web_acl}

  -- What an attempt does after the scan.
  unfoldable pub add_scanned : AclSummary → Str → ℕ → Str → WebAcl → Str → Scan → Call Server Bool
  unfolding webacl_update_kwargs build_allow_rule
  add_scanned target rule_name priority ipset_arn acl lock present = pure false
  add_scanned target rule_name priority ipset_arn acl lock collision = fail usage_error
  add_scanned target rule_name priority ipset_arn acl lock absent =
      update_web_acl (
        webacl_update_kwargs acl target.name target.id
          (acl.rules ++ build_allow_rule rule_name priority ipset_arn ∷ []) lock)
      >>= λ _. pure true

  -- _attempt of ensure_allow_rule
  unfoldable pub add_attempt : AclSummary → Str → ℕ → Str → Call Server Bool
  unfolding add_scanned scan
  add_attempt target rule_name priority ipset_arn = do
    resp ← get_web_acl target.name target.id
    add_scanned target rule_name priority ipset_arn resp.0 resp.1
        (scan rule_name priority resp.0.rules)

  -- ensure_allow_rule
  unfoldable pub ensure_allow_rule : ℤ → AclSummary → Str → ℕ → Str → Call Server Bool
  unfolding with_lock_retry add_attempt
  ensure_allow_rule retries target rule_name priority ipset_arn =
      if leb rate_rule_priority priority
      then fail usage_error
      else with_lock_retry (add_attempt target rule_name priority ipset_arn) retries

  -- `if len(kept) == len(rules): return`, else the update; True when the rule was removed
  unfoldable pub write_kept : AclSummary → List Rule → WebAcl → Str → Bool → Call Server Bool
  unfolding webacl_update_kwargs
  write_kept target kept acl lock true = pure false
  write_kept target kept acl lock false =
      update_web_acl (webacl_update_kwargs acl target.name target.id kept lock) >>= λ _. pure true

  -- _attempt of remove_allow_rule
  unfoldable pub remove_attempt : AclSummary → Str → Call Server Bool
  unfolding keep_others write_kept
  remove_attempt target rule_name = do
    resp ← get_web_acl target.name target.id
    write_kept target (keep_others rule_name resp.0.rules) resp.0 resp.1
        (nat_beq (length (keep_others rule_name resp.0.rules)) (length resp.0.rules))

  -- remove_allow_rule
  unfoldable pub remove_allow_rule : ℤ → AclSummary → Str → Call Server Bool
  unfolding with_lock_retry remove_attempt
  remove_allow_rule retries target rule_name =
      with_lock_retry (remove_attempt target rule_name) retries
