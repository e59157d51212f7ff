-- ===== src/Allowlist/Rule/Laws.antt =====
-- What the rule is added to and removed from, other clients at work or not.
use telemetry_platform.Base.{
  ℕ, ◌≡◌, ◌≢◌, refl, sym, ap, Bool, true, false, not, select, ◌==◌, List, [], ◌∷◌, ◌++◌, nat_beq,
  Str, length, ok, arith, All,
}
use telemetry_platform.Base.Int.{ℤ}
use telemetry_platform.Allowlist.Client.{
  Waf, WebAcl, AclSummary, Rule, pure, webacl_update_kwargs, echo, passthrough_keys, then-eq-ok,
}
use telemetry_platform.Allowlist.Retry.{with_lock_retry, tries, Retried, retry-Retried}
use telemetry_platform.Allowlist.Rule.{
  build_allow_rule, keep_others, write_kept, remove_attempt, remove_allow_rule,
}
use telemetry_platform.Allowlist.Rule.Lists.{IsFree, keep_others-free, has_rule, length-keep_others}
use telemetry_platform.Allowlist.Rule.Contract.{IsOptimistic}

module _ (waf : Waf) (target : AclSummary) (acl_of : Waf.Server waf → WebAcl)
    (locking : IsOptimistic waf target acl_of) where
  open waf use {Server, get_web_acl, update_web_acl}

  -- The WebACL before the update that succeeded, and after it.
  pub record Replaced (rules_after : List Rule → List Rule) (s' : Server) : Type 0 where
    pub before : Server
    pub rules : (acl_of s').rules ≡ rules_after (acl_of before).rules
    pub default_action : (acl_of s').default_action ≡ (acl_of before).default_action
    pub visibility_config : (acl_of s').visibility_config ≡ (acl_of before).visibility_config
    pub others : (acl_of s').others ≡ echo passthrough_keys (acl_of before).others

  module _ (rule_name : Str) (priority : ℕ) (ipset_arn : Str) where
    abbrev pub with_rule : List Rule → List Rule
    with_rule rules = rules ++ build_allow_rule rule_name priority ipset_arn ∷ []

    pub record Added (s' : Server) : Type 0 where
      pub replaced : Replaced with_rule s'
      pub was_free : IsFree rule_name priority (acl_of replaced.before).rules

  module _ (rule_name : Str) where
    abbrev without_rule : List Rule → List Rule
    without_rule = select (λ (r : Rule). not (r.name == rule_name))

    -- The attempt that took the rule out, the ones before it having failed: what its read gave, the
    -- update that it sent, and the WebACL that the update left.
    pub record Removed (s s' : Server) : Type 0 where
      pub start : Server
      pub tried : Retried (remove_attempt waf target rule_name) s start
      pub read : Server
      pub lock : Str
      pub got : get_web_acl target.name target.id start ≡ (ok (acl_of read, lock), read)
      pub had : has_rule rule_name (acl_of read).rules ≡ true
      pub put :
          update_web_acl
            (webacl_update_kwargs
              (acl_of read)
              target.name
              target.id
              (without_rule (acl_of read).rules)
              lock)
            read
          ≡ (ok tt, s')
      pub rules : (acl_of s').rules ≡ without_rule (acl_of read).rules
      pub default_action : (acl_of s').default_action ≡ (acl_of read).default_action
      pub visibility_config : (acl_of s').visibility_config ≡ (acl_of read).visibility_config
      pub kept_fields : (acl_of s').others ≡ echo passthrough_keys (acl_of read).others
      pub gone : All (λ (r : Rule). r.name ≢ rule_name) (acl_of s').rules

    write_kept-Removed :
        (s start read s' : Server) (acl : WebAcl) (lock : Str) (nothing_to_do : Bool)
        → Retried (remove_attempt waf target rule_name) s start
        → get_web_acl target.name target.id start ≡ (ok (acl, lock), read)
        → nat_beq (length (keep_others rule_name acl.rules)) (length acl.rules) ≡ nothing_to_do
        → write_kept waf target (keep_others rule_name acl.rules) acl lock nothing_to_do read
          ≡ (ok true, s')
        → Removed s s'
    unfolding write_kept keep_others webacl_update_kwargs
    write_kept-Removed s start read s' acl lock true tried got equal h = cc
    write_kept-Removed s start read s' acl lock false tried got equal h =
        let (_, u, put, finished) =
          then-eq-ok
            (update_web_acl (
              webacl_update_kwargs acl target.name target.id (keep_others rule_name acl.rules)
                lock))
            (λ _. pure true) read s' h in
        let is_current = locking.reads start read acl lock got in
        let left_by_put : s' ≡ u = sym (ap (λ r. r.1) finished) in
        let sent : update_web_acl
              (webacl_update_kwargs acl target.name target.id (without_rule acl.rules) lock) read
            ≡ (ok tt, s') =
          rw left_by_put put in
        let (before, same, left) = locking.swaps start read s' acl _ got sent in
        record {
          start = start;
          tried = tried;
          read = read;
          lock = lock;
          got = rw (← is_current) got;
          had = rw (← is_current) (ground (arith, length-keep_others rule_name acl.rules));
          put = rw (← is_current) sent;
          rules = rw (left, ← is_current) refl;
          default_action = rw (left, ← is_current) refl;
          visibility_config = rw (left, ← is_current) refl;
          kept_fields = rw (left, ← is_current) refl;
          gone = rw left (keep_others-free rule_name acl.rules);
        }

    -- Under WAFv2's optimistic locking of the WebACL: if `remove_allow_rule` reports that it removed the
    -- rule, then an attempt, each attempt before it having failed retryably, read a WebACL that had a
    -- rule of that name and sent back with the token of that read exactly its other rules, in their
    -- order: the WebACL holds these now and no rule of that name, with the default action, the
    -- visibility and the pass-through fields of that read.
    pub remove_allow_rule-Removed :
        (retries : ℤ) (s s' : Server)
        → remove_allow_rule waf retries target rule_name s ≡ (ok true, s')
        → Removed s s'
    unfolding remove_allow_rule with_lock_retry remove_attempt
    remove_allow_rule-Removed retries s s' h =
        let (start, tried, did) =
          retry-Retried (remove_attempt waf target rule_name) (tries retries) s s' true h in
        let (resp, t, got, rest) =
          then-eq-ok (get_web_acl target.name target.id)
            (λ resp.
              write_kept waf target (keep_others rule_name resp.0.rules) resp.0 resp.1
                (nat_beq (length (keep_others rule_name resp.0.rules)) (length resp.0.rules)))
            start s' did in
        write_kept-Removed s start t s' resp.0 resp.1 _ tried got refl rest
