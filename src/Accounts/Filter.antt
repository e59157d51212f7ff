-- ===== src/Accounts/Filter.antt =====
-- scripts/filter_ci_deployable_units.py: the units of a scope that CI may apply.
pub mod Apply
mod Tests
use telemetry_platform.Base.{
  Bool, true, false, List, [], ◌∷◌, ◌++◌, if◌then◌else◌, Str, codes, ℕ, Exc, Outcome, ok, raised,
  path_parse_error, account_not_found, account_resolution, ◌>>=◌,
}
use telemetry_platform.Json.{Json}
use telemetry_platform.Accounts.{Config}
use telemetry_platform.Accounts.Access.{is_account_ci_deployable}
use telemetry_platform.Accounts.Paths.{extract_all_unit_paths, reassemble_flags}
use telemetry_platform.Accounts.Resolve.{resolve_account_id}

-- The result of `partition_by_ci_deploy`.
pub record Split : Type 0 where
  pub deployable : List Str
  pub skipped : List (Str × Str)

-- The two branches of its loop.
unfoldable pub sort_unit : Str → Str → Bool → Split → Split
sort_unit unit_path account_id true s = record s { deployable = s.deployable ++ unit_path ∷ [] }
sort_unit unit_path account_id false s = record s {
  skipped = s.skipped ++ (unit_path, account_id) ∷ [];
}

-- What `run` writes for the units that are kept, as keys and values in order.
unfoldable pub scope_outputs : List Str → List (Str × Str)
unfolding reassemble_flags
scope_outputs [] = (codes "include_dir_flags", []) ∷ (codes "has_units", codes "false") ∷ []
scope_outputs (p ∷ ps) =
    (codes "include_dir_flags", reassemble_flags (p ∷ ps)) ∷ (codes "has_units", codes "true") ∷ []

-- The exit code of `main`: three classes of exceptions are caught.
unfoldable pub exit_code : Exc → Outcome ℕ
exit_code path_parse_error = ok 1
exit_code account_not_found = ok 1
exit_code account_resolution = ok 1
exit_code e = raised e

module _ (py_str : Json → Str) (same : Json → Json → Bool) (config : Config)
    (on_demand : Bool) where
  -- The loop over the unit paths.
  unfoldable pub sort_units : List Str → Split → Outcome Split
  unfolding resolve_account_id is_account_ci_deployable sort_unit
  sort_units [] s = ok s
  sort_units (p ∷ ps) s = do
    unit ← resolve_account_id py_str same config p
    deploys ← is_account_ci_deployable unit.1 config.accounts on_demand
    sort_units ps (sort_unit p unit.1 deploys s)

  abbrev nothing_sorted : Split
  nothing_sorted = record { deployable = []; skipped = [] }

  -- partition_by_ci_deploy
  unfoldable pub partition_by_ci_deploy : Str → Outcome Split
  unfolding extract_all_unit_paths sort_units
  partition_by_ci_deploy include_dir_flags = do
    paths ← extract_all_unit_paths include_dir_flags
    sort_units paths nothing_sorted

  -- run: what is written to the output file
  unfoldable pub run : Str → Outcome (List (Str × Str))
  unfolding partition_by_ci_deploy scope_outputs
  run include_dir_flags = do
    split ← partition_by_ci_deploy include_dir_flags
    ok (scope_outputs split.deployable)

  abbrev finish : Outcome (List (Str × Str)) → Outcome ℕ × List (Str × Str)
  finish (ok written) = (ok 0, written)
  finish (raised e) = (exit_code e, [])

  -- main: the exit code, or an exception that is not caught, and what was written
  unfoldable pub main : Str → Outcome ℕ × List (Str × Str)
  unfolding run exit_code
  main include_dir_flags = finish (run include_dir_flags)
