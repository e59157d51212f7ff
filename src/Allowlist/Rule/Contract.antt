-- ===== src/Allowlist/Rule/Contract.antt =====
-- What the allowlist relies on of WAFv2's optimistic locking of a WebACL: a read gives the WebACL as
-- it is when the read returns; an update with the token of a read succeeds only where it finds the
-- WebACL as that read gave it, whatever other clients did in between, and leaves what it was given.
use telemetry_platform.Base.{◌≡◌, ok, Str}
use telemetry_platform.Allowlist.Client.{Waf, WebAcl, AclSummary, AclUpdate}

abbrev pub updated : AclUpdate → WebAcl
updated u = record {
  default_action = u.default_action;
  rules = u.rules;
  visibility_config = u.visibility_config;
  others = u.echoed;
}

module _ (waf : Waf) (target : AclSummary) where
  open waf use {Server, get_web_acl, update_web_acl}

  pub record IsOptimistic (acl_of : Server → WebAcl) : Type 0 where
    pub reads :
        (s t : Server) (acl : WebAcl) (lock : Str)
        → get_web_acl target.name target.id s ≡ (ok (acl, lock), t)
        → acl ≡ acl_of t
    pub swaps :
        (s t s' : Server) (acl : WebAcl) (u : AclUpdate)
        → get_web_acl target.name target.id s ≡ (ok (acl, u.lock_token), t)
        → update_web_acl u t ≡ (ok tt, s')
        → (before : Server) × (acl_of before ≡ acl) × (acl_of s' ≡ updated u)
