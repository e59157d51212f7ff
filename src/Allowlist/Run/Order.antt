-- ===== src/Allowlist/Run/Order.antt =====
-- The order of the steps of `apply_allowlist` and `remove_allowlist`.
use telemetry_platform.Base.{
  ℕ, ◌≡◌, ◌≢◌, ◌≤◌, refl, sym, ap, ◌∙◌, true, Option, List, Str, leb, Exc, Outcome, ok, raised,
  usage_error, arith, Answer-cases, inl, inr, All, ◌⊎◌,
}
use telemetry_platform.Base.Int.{ℤ}
use telemetry_platform.Allowlist.Client.{
  Waf, WebAcl, Rule, AclSummary, SetSummary, ok-then, raised-then, then-pure,
}
use telemetry_platform.Allowlist.IpSet.{ensure_ip_set, delete_set}
use telemetry_platform.Allowlist.Rule.{ensure_allow_rule, remove_allow_rule, rate_rule_priority}
use telemetry_platform.Allowlist.Rule.Contract.{IsOptimistic}
use telemetry_platform.Allowlist.Rule.Gone.{remove_allow_rule-IsGone}
use telemetry_platform.Allowlist.Run.AclCalls.{
  AclCalls, AclCalls-trans, resolve_web_acl-CallsAcl, remove_allow_rule-CallsAcl,
}
use telemetry_platform.Allowlist.Run.{
  Evidence, resolve_web_acl, apply_allowlist, remove_allowlist, exit_code,
}

module _ (waf : Waf) (retries : ℤ) (web_acl_name : Option Str) (ipset_name rule_name : Str)
    (s t : Waf.Server waf) (target : AclSummary)
    (resolved : resolve_web_acl waf web_acl_name s ≡ (ok target, t)) where
  open waf use {Server}

  -- A priority that is not below the rate rule's ends `apply` with exit code 2, but only after the IP
  -- set was created or merged: the server is left as that step left it.
  pub apply_allowlist-bad_priority :
      (priority : ℕ) (add_cidrs : List Str) (ip_set : SetSummary) (u : Server)
      → ensure_ip_set waf retries ipset_name add_cidrs t ≡ (ok ip_set, u)
      → rate_rule_priority ≤ priority
      → (apply_allowlist waf retries web_acl_name ipset_name rule_name priority add_cidrs s
          ≡ (raised usage_error, u))
        × (exit_code
              (apply_allowlist waf retries web_acl_name ipset_name rule_name priority add_cidrs s).0
            ≡ 2)
  unfolding apply_allowlist ensure_allow_rule exit_code
  apply_allowlist-bad_priority priority add_cidrs ip_set u ensured high =
      let too_high : leb rate_rule_priority priority ≡ true = ground arith in
      let stopped : apply_allowlist waf retries web_acl_name ipset_name rule_name priority add_cidrs
            s
          ≡ (raised usage_error, u) =
        ok-then (resolve_web_acl waf web_acl_name) _ s t target resolved
        ∙ ok-then (ensure_ip_set waf retries ipset_name add_cidrs) _ t u ip_set ensured
        ∙ raised-then (ensure_allow_rule waf retries target rule_name priority ip_set.arn) _ u u
            usage_error (rw too_high refl) in
      (stopped, ap (λ r. exit_code r.0) stopped)

module _ (waf : Waf) (acl_of : AclSummary → Waf.Server waf → WebAcl)
    (locking : (target : AclSummary) → IsOptimistic waf target (acl_of target)) (retries : ℤ)
    (web_acl_name : Option Str) (ipset_name rule_name : Str) where
  open waf use {Server}

  -- The server at which the deletion of the IP set starts, if it ends in `u`.
  pub record SetLast (s u : Server) : Type 0 where
    pub target : AclSummary
    pub moment : Server
    pub resolved : (t : Server) × (resolve_web_acl waf web_acl_name s ≡ (ok target, t))
    pub only_acl_calls : AclCalls waf s moment
    pub gone : All (λ (r : Rule). r.name ≢ rule_name) (acl_of target moment).rules
    pub set_deletion : (delete_set waf retries ipset_name moment).1 ≡ u

  -- Under WAFv2's optimistic locking of the WebACLs, however `remove_allowlist` ends: either it raised
  -- after calls on WebACLs only, so that no call has touched an IP set, or there was a moment, after
  -- calls on WebACLs only, when the WebACL it works on had no rule of the name, and the deletion of the
  -- IP set ran from that moment to the end.
  pub remove_allowlist-rule_first :
      (s u : Server) (r : Outcome (Evidence waf))
      → remove_allowlist waf retries web_acl_name ipset_name rule_name s ≡ (r, u)
      → ((e : Exc) × (r ≡ raised e) × AclCalls waf s u) ⊎ SetLast s u
  unfolding remove_allowlist
  remove_allowlist-rule_first s u r h = elim (Answer-cases (resolve_web_acl waf web_acl_name s)) [
    | inl (e, failed) ↦
        let ended = sym (raised-then (resolve_web_acl waf web_acl_name) _ s _ e failed) ∙ h in
        inl (
          e,
          sym (ap (λ a. a.0) ended),
          rw (← ap (λ a. a.1) ended) (resolve_web_acl-CallsAcl waf web_acl_name s),
        )
    | inr (target, resolved) ↦
        let t = (resolve_web_acl waf web_acl_name s).1 in
        let rest = sym (ok-then (resolve_web_acl waf web_acl_name) _ s t target resolved) ∙ h in
        let calls = resolve_web_acl-CallsAcl waf web_acl_name s in
        elim (Answer-cases (remove_allow_rule waf retries target rule_name t)) [
          | inl (e, failed) ↦
              let ended =
                sym (raised-then (remove_allow_rule waf retries target rule_name) _ t _ e failed)
                ∙ rest in
              inl (
                e,
                sym (ap (λ a. a.0) ended),
                rw (← ap (λ a. a.1) ended) (
                    AclCalls-trans waf calls
                      (remove_allow_rule-CallsAcl waf retries target rule_name t)),
              )
          | inr (removed, did) ↦
              let moment = (remove_allow_rule waf retries target rule_name t).1 in
              let ended =
                sym
                  (ok-then (remove_allow_rule waf retries target rule_name) _ t moment removed did)
                ∙ rest in
              inr (record {
                target = target;
                moment = moment;
                resolved = (t, resolved);
                only_acl_calls =
                    AclCalls-trans waf calls
                      (remove_allow_rule-CallsAcl waf retries target rule_name t);
                gone =
                    remove_allow_rule-IsGone waf target (acl_of target) (locking target) rule_name
                      retries t moment removed did;
                set_deletion =
                    sym (then-pure (delete_set waf retries ipset_name) _ moment)
                    ∙ ap (λ a. a.1) ended;
              })
        ]
  ]
