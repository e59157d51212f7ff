-- ===== src/Allowlist/Rule/Gone.antt =====
-- What `remove_allow_rule` leaves, whether there was something to remove or not.
use telemetry_platform.Base.{
  ◌≡◌, ◌≢◌, refl, ap, Bool, true, false, nat_beq, Str, length, ok, arith, All,
}
use telemetry_platform.Base.Int.{ℤ}
use telemetry_platform.Allowlist.Client.{
  Waf, WebAcl, AclSummary, Rule, pure, webacl_update_kwargs, then-eq-ok,
}
use telemetry_platform.Allowlist.Retry.{with_lock_retry, retry-returns, tries}
use telemetry_platform.Allowlist.Rule.{keep_others, write_kept, remove_attempt, remove_allow_rule}
use telemetry_platform.Allowlist.Rule.Lists.{keep_others-free, length-keep_others, has_rule-free}
use telemetry_platform.Allowlist.Rule.Contract.{IsOptimistic}

module _ (waf : Waf) (target : AclSummary) (acl_of : Waf.Server waf → WebAcl)
    (locking : IsOptimistic waf target acl_of) (rule_name : Str) where
  open waf use {Server, get_web_acl, update_web_acl}

  -- No rule of the WebACL has the name.
  abbrev pub IsGone : Server → Type 0
  IsGone s = All (λ (r : Rule). r.name ≢ rule_name) (acl_of s).rules

  write_kept-IsGone :
      (start read s' : Server) (acl : WebAcl) (lock : Str) (nothing_to_do removed : Bool)
      → get_web_acl target.name target.id start ≡ (ok (acl, lock), read)
      → nat_beq (length (keep_others rule_name acl.rules)) (length acl.rules) ≡ nothing_to_do
      → write_kept waf target (keep_others rule_name acl.rules) acl lock nothing_to_do read
        ≡ (ok removed, s')
      → IsGone s'
  unfolding write_kept webacl_update_kwargs
  write_kept-IsGone start read s' acl lock true removed got equal h =
      let is_current : acl ≡ acl_of read = locking.reads start read acl lock got in
      rw (← ap (λ r. r.1) h, ← is_current)
        (has_rule-free rule_name acl.rules (ground (arith, length-keep_others rule_name acl.rules)))
  write_kept-IsGone start read s' acl lock false removed got equal h =
      let (_, u, put, finished) =
        then-eq-ok
          (update_web_acl
            (webacl_update_kwargs acl target.name target.id (keep_others rule_name acl.rules) lock))
          (λ _. pure true) read s' h in
      let (before, same, left) = locking.swaps start read u acl _ got put in
      rw (← ap (λ r. r.1) finished, left) (keep_others-free rule_name acl.rules)

  -- Once `remove_allow_rule` returns, the WebACL has no rule of that name.
  pub remove_allow_rule-IsGone :
      (retries : ℤ) (s s' : Server) (removed : Bool)
      → remove_allow_rule waf retries target rule_name s ≡ (ok removed, s')
      → IsGone s'
  unfolding remove_allow_rule with_lock_retry remove_attempt
  remove_allow_rule-IsGone retries s s' removed h =
      retry-returns (remove_attempt waf target rule_name) (λ b t. IsGone t) once (tries retries) s
        s' removed h
    where
      once :
          (s s' : Server) (removed : Bool)
          → remove_attempt waf target rule_name s ≡ (ok removed, s')
          → IsGone s'
      once s s' removed h =
          let (resp, t, got, rest) =
            then-eq-ok (get_web_acl target.name target.id)
              (λ resp.
                write_kept waf target (keep_others rule_name resp.0.rules) resp.0 resp.1
                  (nat_beq (length (keep_others rule_name resp.0.rules)) (length resp.0.rules)))
              s s' h in
          write_kept-IsGone s t s' resp.0 resp.1 _ removed got refl rest
