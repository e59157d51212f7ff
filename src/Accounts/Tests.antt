-- ===== src/Accounts/Tests.antt =====
-- A configuration of three accounts, and the theorems applied to it.
use telemetry_platform.Base.{
  Bool, true, false, none, some, List, [], ◌∷◌, ◌++◌, ◌==◌, Str, codes, All, ◌≡◌, refl, ◌↔◌, ok,
  raised, mixed_account, map, member, any, select,
}
use telemetry_platform.Base.Int.{is_space}
use telemetry_platform.Base.Dict.{Dict, get, Distinct}
use telemetry_platform.Json.{Json, str, bool}
use telemetry_platform.Accounts.{
  Config, deploy_role_name_key, ci_deploy_key, ci_deploy_on_demand_key,
}
use telemetry_platform.Accounts.Access.{Permitted, is_account_ci_deployable, load_account_entry}
use telemetry_platform.Accounts.Access.Agree.{is_account_ci_deployable-load_account_entry}
use telemetry_platform.Accounts.Paths.{flag, extract_all_unit_paths, reassemble_flags}
use telemetry_platform.Accounts.Paths.Flags.{extract_all_unit_paths-reassemble_flags}
use telemetry_platform.Accounts.Resolve.{resolve_account_id}
use telemetry_platform.Accounts.Role.{RoleOutputs, resolve_deploy_role, scope_paths}
use telemetry_platform.Accounts.Role.Safe.{Reached, resolve_deploy_role-Reached}
use telemetry_platform.Accounts.Partition.{Row, apply_mode, partition_paths}
use telemetry_platform.Accounts.Partition.Grouping.{belongs, Resolves}
use telemetry_platform.Accounts.Partition.Rows.{
  Registered, partition_paths-Distinct, partition_paths-Registered,
}

abbrev pub text_of : Json → Str
text_of (str s) = s
text_of v = []

abbrev pub same_text : Json → Json → Bool
same_text (str s) (str t) = s == t
same_text v w = false

abbrev pub row : Bool → Bool → Dict Json
row ci on_demand =
    (ci_deploy_key, bool ci)
    ∷ (ci_deploy_on_demand_key, bool on_demand)
    ∷ (deploy_role_name_key, str (codes "deploy"))
    ∷ []

abbrev pub config : Config
config = record {
  envs =
      (codes "prod", (codes "account_id", str (codes "1")) ∷ [])
      ∷ (codes "sandbox", (codes "account_id", str (codes "2")) ∷ [])
      ∷ [];
  dns_owner = (codes "account_id", str (codes "9")) ∷ [];
  domains = [];
  accounts =
      (codes "1", row true false) ∷ (codes "2", row false true) ∷ (codes "9", row true false) ∷ [];
}

abbrev pub service : Str
service = codes "live/telemetry/us-east-1/prod/000/kms"

abbrev pub shared : Str
shared = codes "live/telemetry/us-east-1/prod/dns_owner/zone"

abbrev pub sandbox : Str
sandbox = codes "live/telemetry/us-east-1/sandbox/000/kms"

abbrev pub paths : List Str
paths = sandbox ∷ service ∷ shared ∷ []

abbrev flags : Str
flags = reassemble_flags (service ∷ shared ∷ [])

parsed : extract_all_unit_paths flags ≡ ok (service ∷ shared ∷ [])
unfolding extract_all_unit_paths reassemble_flags
parsed = refl

sandbox_account :
    resolve_account_id text_of same_text config sandbox ≡ ok (codes "us-east-1", codes "2")
unfolding resolve_account_id ◌==◌
sandbox_account = refl

mixed_scope :
    resolve_deploy_role text_of same_text config none (some (reassemble_flags paths)) true
    ≡ raised mixed_account
unfolding resolve_deploy_role reassemble_flags ◌==◌
mixed_scope = refl

abbrev outputs : RoleOutputs
outputs = record {
  role_arn = codes "arn:aws:iam::1:role/deploy";
  aws_region = codes "us-east-1";
  target_account_id = codes "1";
  needs_dns_writer = true;
  dns_writer_arn = codes "arn:aws:iam::9:role/deploy";
}

role_run : resolve_deploy_role text_of same_text config none (some flags) false ≡ ok outputs
unfolding resolve_deploy_role reassemble_flags ◌==◌
role_run = refl

scope_run : scope_paths text_of same_text config none (some flags) ≡ ok (service ∷ shared ∷ [])
unfolding scope_paths reassemble_flags
scope_run = refl

resolve_deploy_role-Reached_example :
    All
      (λ p.
        (unit : Str × Str) × (resolve_account_id text_of same_text config p ≡ ok unit)
        × Reached text_of same_text config unit.1 (codes "1") true)
      (service ∷ shared ∷ [])
    × ((entry : Dict Json) × (get (codes "1") config.accounts ≡ some entry) × Permitted entry false)
resolve_deploy_role-Reached_example =
    resolve_deploy_role-Reached text_of same_text config none (some flags) false
      (service ∷ shared ∷ []) outputs scope_run role_run

abbrev arn : Str → Str
arn a = codes "arn:aws:iam::" ++ a ++ codes ":role/deploy"

abbrev pub rows : List Row
rows =
    record {
      account_id = codes "1";
      role_arn = arn (codes "1");
      needs_dns_writer = codes "false";
      aws_region = codes "us-east-1";
      include_dir_flags = flag ++ codes " " ++ service;
    }
    ∷ record {
      account_id = codes "2";
      role_arn = arn (codes "2");
      needs_dns_writer = codes "false";
      aws_region = codes "us-east-1";
      include_dir_flags = flag ++ codes " " ++ sandbox;
    }
    ∷ record {
      account_id = codes "9";
      role_arn = arn (codes "9");
      needs_dns_writer = codes "true";
      aws_region = codes "us-east-1";
      include_dir_flags = flag ++ codes " " ++ shared;
    }
    ∷ []

pub rows_run : partition_paths text_of same_text config true apply_mode paths ≡ ok rows
unfolding partition_paths ◌==◌
rows_run = refl

partition_paths-Distinct_example :
    All (Resolves text_of same_text config true) paths
    × Distinct (map (λ (r : Row). r.account_id) rows)
    × ((a : Str)
        → member a (map (λ (r : Row). r.account_id) rows)
          ≡ any (λ p. belongs text_of same_text config true a p) paths)
    × All
        (λ (r : Row).
          r.include_dir_flags
          ≡ reassemble_flags
              (select (λ p. belongs text_of same_text config true r.account_id p) paths))
        rows
partition_paths-Distinct_example =
    partition_paths-Distinct text_of same_text config true apply_mode paths rows rows_run

partition_paths-Registered_example :
    All (Registered text_of same_text config true) (map (λ (r : Row). r.account_id) rows)
partition_paths-Registered_example =
    partition_paths-Registered text_of same_text config true paths rows rows_run

extract_all_unit_paths-reassemble_flags_example :
    extract_all_unit_paths (reassemble_flags (codes "a" ∷ codes "b" ∷ []))
    ≡ ok (codes "a" ∷ codes "b" ∷ [])
unfolding is_space
extract_all_unit_paths-reassemble_flags_example =
    extract_all_unit_paths-reassemble_flags (codes "a") (codes "b" ∷ [])
      ((refl, tt), ((refl, tt), tt))

is_account_ci_deployable-load_account_entry_example :
    (is_account_ci_deployable (codes "2") config.accounts true ≡ ok true)
    ↔ (load_account_entry (codes "2") config.accounts true ≡ ok (row false true))
unfolding get ◌==◌
is_account_ci_deployable-load_account_entry_example =
    is_account_ci_deployable-load_account_entry (codes "2") config.accounts true (row false true)
      (str (codes "deploy")) refl refl
