-- ===== src/Allowlist/Samples.antt =====
-- A WAFv2 server with one WebACL and one IP set, where another client may get in before an update.
use telemetry_platform.Base.{
  ℕ, ◌+◌, ◌≡◌, sym, ap, ◌∙◌, Bool, true, false, List, [], ◌∷◌, if◌then◌else◌, Str, codes, ◌==◌,
  Outcome, ok, raised, optimistic_lock, nonexistent_item, ok-injective, Bool-cases, inl, inr,
}
use telemetry_platform.Json.{null}
use telemetry_platform.Allowlist.Client.{
  Waf, WebAcl, AclSummary, SetSummary, AclUpdate, Rule, foreign,
}
use telemetry_platform.Allowlist.Rule.Contract
use telemetry_platform.Allowlist.Rule.Contract.{updated}
use telemetry_platform.Allowlist.IpSet.Merge

-- `contended` holds while another client is about to change the WebACL and the set.
pub record State : Type 0 where
  pub acl : WebAcl
  pub addresses : List Str
  pub version : ℕ
  pub contended : Bool

abbrev pub other_rule : Str → ℕ → Rule
other_rule name priority = record { name = name; priority = priority; body = foreign null }

abbrev token : State → Str
token s = s.version ∷ []

-- The other client adds a rule and an address.
abbrev interfere : State → State
interfere s = record s {
  acl = record (s.acl) { rules = other_rule (codes "theirs") 7 ∷ s.acl.rules };
  addresses = codes "9.9.9.9/32" ∷ s.addresses;
  version = s.version + 1;
  contended = false;
}

abbrev update_acl : AclUpdate → State → Outcome (Unit {0}) × State
update_acl u s =
    if s.contended
    then (raised optimistic_lock, interfere s)
    else if u.lock_token == token s
    then (ok tt, record s { acl = updated u; version = s.version + 1 })
    else (raised optimistic_lock, s)

abbrev update_set : List Str → Str → State → Outcome (Unit {0}) × State
update_set merged lock s =
    if s.contended
    then (raised optimistic_lock, interfere s)
    else if lock == token s
    then (ok tt, record s { addresses = merged; version = s.version + 1 })
    else (raised optimistic_lock, s)

abbrev pub collector : AclSummary
collector = record { name = codes "ns-adot-waf"; id = codes "1" }

abbrev pub ip_set : SetSummary
ip_set = record { name = codes "set"; id = codes "2"; arn = codes "arn:2" }

abbrev pub server : Waf
server = record {
  Server = State;
  list_web_acls = λ s. (ok (collector ∷ []), s);
  get_web_acl = λ n i s. (ok (s.acl, token s), s);
  update_web_acl = update_acl;
  list_ip_sets = λ s. (ok (ip_set ∷ []), s);
  create_ip_set = λ n a s. (ok ip_set, s);
  get_ip_set = λ n i s. (ok (s.addresses, token s), s);
  update_ip_set = λ n i merged lock s. update_set merged lock s;
  delete_ip_set = λ n i lock s. (raised nonexistent_item, s);
}

abbrev pub acl_of : State → WebAcl
acl_of s = s.acl

abbrev pub addresses_of : State → List Str
addresses_of s = s.addresses

abbrev pub start : State
start = record {
  acl = record {
    default_action = null;
    rules = other_rule (codes "RateLimitPerIP") 100 ∷ [];
    visibility_config = null;
    others = [];
  };
  addresses = codes "1.1.1.1/32" ∷ [];
  version = 0;
  contended = true;
}

-- An update that succeeds found the state as it is given here.
update_acl-ok : (u : AclUpdate) (t s' : State) → update_acl u t ≡ (ok tt, s') → s'.acl ≡ updated u
update_acl-ok u t s' put = elim (Bool-cases t.contended) [
  | inl busy ↦ let stop = rw busy at put in cc
  | inr quiet ↦
      let tried = rw quiet at put in
      elim (Bool-cases (u.lock_token == token t)) [
        | inl same ↦ let done = rw same at tried in sym (ap (λ r. acl_of r.1) done)
        | inr stale ↦ let stop = rw stale at tried in cc
      ]
]

update_set-ok :
    (merged : List Str) (lock : Str) (t s' : State)
    → update_set merged lock t ≡ (ok tt, s')
    → s'.addresses ≡ merged
update_set-ok merged lock t s' put = elim (Bool-cases t.contended) [
  | inl busy ↦ let stop = rw busy at put in cc
  | inr quiet ↦
      let tried = rw quiet at put in
      elim (Bool-cases (lock == token t)) [
        | inl same ↦ let done = rw same at tried in sym (ap (λ r. addresses_of r.1) done)
        | inr stale ↦ let stop = rw stale at tried in cc
      ]
]

-- A read gives the field of the state that it leaves.
as_read {ℓ} :
    {A : Type ℓ} (field_of : State → A) (s t : State) (found : A) (lock : Str)
    → ◌≡◌ {A = Outcome (A × Str) × State} (ok (field_of s, token s), s) (ok (found, lock), t)
    → found ≡ field_of t
as_read field_of s t found lock got =
    sym (ap (λ r. r.0) (ok-injective (ap (λ r. r.0) got))) ∙ ap field_of (ap (λ r. r.1) got)

pub acl-IsOptimistic : {target : AclSummary} → Contract.IsOptimistic server target acl_of
acl-IsOptimistic = record {
  reads = λ s t acl lock got. as_read acl_of s t acl lock got;
  swaps = λ s t s' acl u got put.
      (t, sym (as_read acl_of s t acl (u.lock_token) got), update_acl-ok u t s' put);
}

pub addresses-IsOptimistic : Merge.IsOptimistic server ip_set addresses_of
addresses-IsOptimistic = record {
  reads = λ s t found lock got. as_read addresses_of s t found lock got;
  swaps = λ s t s' found merged lock got put.
      (t, sym (as_read addresses_of s t found lock got), update_set-ok merged lock t s' put);
}
