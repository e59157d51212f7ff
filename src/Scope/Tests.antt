-- ===== src/Scope/Tests.antt =====
-- `detect_scope` on sample change sets, and the theorems applied to them.
use telemetry_platform.Base.{true, some, List, [], ◌∷◌, ◌==◌, Str, codes, All, ◌≡◌, refl, inl, inr}
use telemetry_platform.Base.Order.{rstrip_char}
use telemetry_platform.Scope.{mixed, in_module, classify, detect_scope, find_module_path}
use telemetry_platform.Scope.Single.{Agrees, detect_scope-Agrees}
use telemetry_platform.Scope.Accepts.{detect_scope-accepts}
use telemetry_platform.Scope.Leaf.{find_module_path-direct}

abbrev roots : List Str
roots = codes "prov/" ∷ []

abbrev live : Str
live = codes "tg/"

abbrev one_module : List Str
one_module = codes "prov/kms/main.tf" ∷ codes "tg/README.md" ∷ codes "prov/kms/x.tf" ∷ []

abbrev two_scopes : List Str
two_scopes = codes "prov/kms/main.tf" ∷ codes "tg/unit/terragrunt.hcl" ∷ []

accepted : (detect_scope one_module roots live).valid ≡ true
unfolding detect_scope ◌==◌
accepted = refl

rejected : (detect_scope two_scopes roots live).scope ≡ mixed
unfolding detect_scope ◌==◌
rejected = refl

detect_scope-Agrees_example :
    All (λ f. Agrees (detect_scope one_module roots live) (classify roots live f)) one_module
detect_scope-Agrees_example = detect_scope-Agrees roots live one_module accepted

detect_scope-accepts_example : (detect_scope one_module roots live).valid ≡ true
unfolding classify
detect_scope-accepts_example =
    detect_scope-accepts roots live (in_module (codes "prov/kms")) one_module
      (inr refl, (inl refl, (inr refl, tt)))

find_module_path-direct_example :
    find_module_path (codes "prov/README.md") (codes "prov/") ≡ some (codes "prov/README.md")
unfolding rstrip_char
find_module_path-direct_example =
    find_module_path-direct (codes "prov/") b'R' (codes "EADME.md") refl refl
