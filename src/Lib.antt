-- ===== src/Lib.antt =====
-- The telemetry platform's Python code: its stream transform and the tools of its release pipeline.
--
-- The platform is deployed by Terraform modules and a Terragrunt tree; its own code in Python is one
-- Lambda function and the scripts that the workflows run. The parts modelled here work together as
-- follows. Telemetry leaves CloudWatch Logs through a Firehose stream, whose records the Lambda
-- decodes, reshapes and puts back on the stream. A pull request is classified into one scope; its
-- Terragrunt units are partitioned by account, and each account's job resolves the role that it may
-- assume. A release locks its branch, and a scheduled job takes off a lock that was left behind. A
-- performance run adds its addresses to the allow list of the firewall, and takes them off again.
--
-- CwlSplit models providers/aws/references/data-lake/lambda/cwl_split/index.py: Runtime (the module
--   configuration, str, int, the record and the row), Claude (_reshape_claude), Emf (_reshape_emf),
--   Classify (_reshape_message, _reshape_records, _diagnostic_service_name), Reingest (_reingest) and
--   Handler (handler). gzip, base64, json.loads, time formatting and the Firehose client are parameters.
-- Allowlist models scripts/perf_waf_allowlist.py, with discover_waf_web_acl of scripts/perf_report.py:
--   Client (the data that the WAFv2 client takes and returns), Retry (with_lock_retry), Dedupe, IpSet
--   (ensure_ip_set, delete_ip_set), Rule (ensure_allow_rule, remove_allow_rule) and Run
--   (resolve_web_acl, apply_allowlist, remove_allowlist, run, main). The client is a parameter on
--   whose server other clients may act at any call; Rule.Contract and IpSet.Merge state what the
--   optimistic lock promises. Retried relates the server to the one that the last attempt starts from,
--   and Run.AclCalls to those that calls on WebACLs alone lead to.
-- Scope models _find_module_path and detect_scope of scripts/detect_scope.py, and Scope.Ci
--   scripts/ci_detect_scope.py and scripts/check_scope_override.py with the discovery of the modules.
-- Accounts models scripts/resolve_deploy_role.py and scripts/partition_units_by_account.py: Paths (the
--   two expressions and the flags), Access (the permission gates), Resolve (resolve_account_id), Role
--   (resolve_deploy_role) and Partition (partition); and the programs around them: Filter
--   (scripts/filter_ci_deployable_units.py), State (scripts/filter_units_with_state.py) and Select
--   (scripts/select_partition_row.py). terragrunt render and head_object are parameters of State, whose
--   answers stay the same during a run.
-- Detect models scripts/detect_terragrunt_units.py: References (its regular expressions), the walk, the
--   references and the dependents (Detect), and run_detect and main (Run). The file tree, git and
--   pathlib's resolve are a record of functions, which do not change during a run.
-- BranchLock models scripts/safety_net_unlock.py on a gh command, a clock and json.loads as parameters,
--   and BranchLock.Toggle, on the same command, scripts/lock_branch.py.
-- Release models the required checks gate, scripts/aggregate_required_checks.py (Gate), the next version
--   of a module, scripts/calculate_version.py (Version), and the title of a pull request,
--   scripts/validate_pr_title.py with what calculate_version.py does with titles (Title), and the programs
--   around them, scripts/ci_calculate_version.py (Ci) and scripts/check_version_immutability.py
--   (Ci.Immutable), whose commands are parameters that do not change during a run.
-- Json holds the values of json.loads, and Base what all parts share: texts as lists of code points,
--   decimal numbers, dictionaries in insertion order, exceptions as values, calls on a state outside the
--   program, sorting.
--
-- State that the code changes is passed explicitly, and an exception keeps the state that was reached.
-- Numbers are unbounded as in Python. No definition runs on fuel of its own: the loops are over lists,
-- over the number of attempts left (range(retries, -1, -1) and range(REINGEST_MAX_ATTEMPTS)), and over
-- a text. The pauses between attempts change nothing and are left out.
--
-- Not modelled: argparse and what is printed (no state depends on them); str.strip, str.lower,
-- str.upper and int beyond ASCII; values of the configuration files that are not objects where the
-- code indexes them; line breaks inside a unit path; characters of fnmatch patterns in a tag prefix; a
-- pull request's title beyond ASCII. The remaining scripts are command lines of other
-- programs, text scans of the source trees, or drivers of cloud services, and Terraform, Terragrunt,
-- Rego and Go are other languages.
pub mod Accounts
pub mod Allowlist
pub mod Base
pub mod BranchLock
pub mod CwlSplit
pub mod Detect
pub mod Json
pub mod Release
pub mod Scope
