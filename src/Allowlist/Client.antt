-- ===== src/Allowlist/Client.antt =====
-- What the WAFv2 client takes and returns, and the service as a parameter.
use telemetry_platform.Base.{ℕ, none, some, List, [], ◌∷◌, if◌then◌else◌, Str, codes, Outcome}
unfoldable pub use telemetry_platform.Base.Calls.{Call, ◌>>=◌, pure, fail}
pub use telemetry_platform.Base.Calls.{then-eq-ok, ok-then, raised-then, then-pure}
use telemetry_platform.Base.Dict.{Dict, get}
use telemetry_platform.Json.{Json, truthy}

-- A rule's statement, action and visibility: the allow rule of this program, or another's.
pub data Body : Type 0 where
  allow_ip_set : Str → Str → Body
  foreign : Json → Body

pub record Rule : Type 0 where
  pub name : Str
  pub priority : ℕ
  pub body : Body

-- A WebACL as get_web_acl returns it; `others` holds the fields beside these three.
pub record WebAcl : Type 0 where
  pub default_action : Json
  pub rules : List Rule
  pub visibility_config : Json
  pub others : Dict Json

pub record AclSummary : Type 0 where
  pub name : Str
  pub id : Str

pub record SetSummary : Type 0 where
  pub name : Str
  pub id : Str
  pub arn : Str

-- The arguments of update_web_acl; `echoed` holds the pass-through fields.
pub record AclUpdate : Type 0 where
  pub name : Str
  pub id : Str
  pub default_action : Json
  pub rules : List Rule
  pub visibility_config : Json
  pub lock_token : Str
  pub echoed : Dict Json

-- boto3's WAFV2 client in the CLOUDFRONT scope. Other clients may act on the server at any call.
pub record Waf : Type 1 where
  pub Server : Type 0
  pub list_web_acls : Server → Outcome (List AclSummary) × Server
  pub get_web_acl : Str → Str → Server → Outcome (WebAcl × Str) × Server
  pub update_web_acl : AclUpdate → Server → Outcome (Unit {0}) × Server
  pub list_ip_sets : Server → Outcome (List SetSummary) × Server
  pub create_ip_set : Str → List Str → Server → Outcome SetSummary × Server
  pub get_ip_set : Str → Str → Server → Outcome (List Str × Str) × Server
  pub update_ip_set : Str → Str → List Str → Str → Server → Outcome (Unit {0}) × Server
  pub delete_ip_set : Str → Str → Str → Server → Outcome (Unit {0}) × Server

-- _WEBACL_PASSTHROUGH_KEYS
abbrev pub passthrough_keys : List Str
passthrough_keys =
    codes "Description"
    ∷ codes "CustomResponseBodies"
    ∷ codes "CaptchaConfig"
    ∷ codes "ChallengeConfig"
    ∷ codes "TokenDomains"
    ∷ codes "AssociationConfig"
    ∷ []

-- The loop of `_webacl_update_kwargs`: `if key in web_acl and web_acl[key]`.
unfoldable pub echo : List Str → Dict Json → Dict Json
unfolding truthy
echo [] others = []
echo (k ∷ ks) others =
    let rest = echo ks others in
    elim (get k others) [ none ↦ rest | some v ↦ (if truthy v then (k, v) ∷ rest else rest) ]

-- _webacl_update_kwargs
unfoldable pub webacl_update_kwargs : WebAcl → Str → Str → List Rule → Str → AclUpdate
unfolding echo
webacl_update_kwargs acl name id rules lock = record {
  name = name;
  id = id;
  default_action = acl.default_action;
  rules = rules;
  visibility_config = acl.visibility_config;
  lock_token = lock;
  echoed = echo passthrough_keys acl.others;
}
