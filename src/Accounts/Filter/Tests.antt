-- ===== src/Accounts/Filter/Tests.antt =====
-- The filter, the partition and the selection, one after the other.
use telemetry_platform.Base.{
  Bool, true, false, not, Option, some, List, [], ◌∷◌, ◌==◌, Str, codes, ◌≡◌, refl, ok, raised,
  value_error, map, select, any, Bool-cases, inl, inr, subst,
}
use telemetry_platform.Base.Dict.{Dict, get}
use telemetry_platform.Base.Lines.{is_break}
use telemetry_platform.Json.{Json, str}
use telemetry_platform.Accounts.{deploy_role_name_key}
use telemetry_platform.Accounts.Paths.{extract_all_unit_paths, reassemble_flags}
use telemetry_platform.Accounts.Partition.{Row, apply_mode, partition_paths}
use telemetry_platform.Accounts.Partition.Grouping.{belongs}
use telemetry_platform.Accounts.Filter.{Split, partition_by_ci_deploy, main}
use telemetry_platform.Accounts.Filter.Apply.{
  deploys, NamesRoles, partition_by_ci_deploy-select, partition_paths-partition_by_ci_deploy,
}
use telemetry_platform.Accounts.Select.{row_dict, matrix_of, select_row, extract_matrix}
use telemetry_platform.Accounts.Select.Matrix.{selected, select_row-partition_paths}
use telemetry_platform.Accounts.Tests.{
  text_of, same_text, row, config, service, shared, sandbox, paths, rows, rows_run,
}

abbrev flags : Str
flags = reassemble_flags paths

abbrev split : Split
split = record { deployable = service ∷ shared ∷ []; skipped = (sandbox, codes "2") ∷ [] }

split_run : partition_by_ci_deploy text_of same_text config false flags ≡ ok split
unfolding partition_by_ci_deploy reassemble_flags ◌==◌
split_run = refl

main_run : main text_of same_text config false flags ≡ (
  ok 0,
  (codes "include_dir_flags", reassemble_flags (service ∷ shared ∷ []))
      ∷ (codes "has_units", codes "true")
      ∷ [],
)
unfolding main reassemble_flags ◌==◌
main_run = refl

main_unparsed : main text_of same_text config false (codes "no flags") ≡ (ok 1, [])
unfolding main
main_unparsed = refl

partition_by_ci_deploy-select_example :
    (ps : List Str) × (extract_all_unit_paths flags ≡ ok ps)
    × (split.deployable ≡ select (λ p. deploys text_of same_text config false p) ps)
    × (map (λ (pair : Str × Str). pair.0) split.skipped
        ≡ select (λ p. not (deploys text_of same_text config false p)) ps)
partition_by_ci_deploy-select_example =
    partition_by_ci_deploy-select text_of same_text config false flags split split_run

abbrev Named : Dict Json → Type 0
Named entry = (role : Json) × (get deploy_role_name_key entry ≡ some role)

row-Named :
    (ci on_demand : Bool) (entry : Dict Json) → some (row ci on_demand) ≡ some entry → Named entry
unfolding get ◌==◌
row-Named ci on_demand entry h =
    let same : row ci on_demand ≡ entry = cc in subst Named same (str (codes "deploy"), refl)

-- Every account of the configuration names its role.
config-NamesRoles : NamesRoles text_of same_text config false
unfolding get
config-NamesRoles a entry found allowed = elim (Bool-cases (codes "1" == a)) [
  | inl e ↦ row-Named _ _ entry (rw e at found)
  | inr e ↦ elim (Bool-cases (codes "2" == a)) [
    | inl e' ↦ row-Named _ _ entry (rw (e, e') at found)
    | inr e' ↦ elim (Bool-cases (codes "9" == a)) [
      | inl e'' ↦ row-Named _ _ entry (rw (e, e', e'') at found)
      | inr e'' ↦ let bad = rw (e, e', e'') at found in cc
    ]
  ]
]

partition_paths-partition_by_ci_deploy_example :
    (apply_rows : List Row) × (partition_paths text_of same_text config false apply_mode
        split.deployable
      ≡ ok apply_rows)
partition_paths-partition_by_ci_deploy_example =
    partition_paths-partition_by_ci_deploy text_of same_text config false flags split
      config-NamesRoles split_run

-- A json.dumps and a json.loads that agree on the matrix.
abbrev dumps : Json → Str
dumps v = codes "m"

abbrev loads : Str → Option Json
loads s = some (matrix_of rows)

select_row-partition_paths_example :
    (any (λ p. belongs text_of same_text config true (codes "9") p) paths ≡ true
      → (r : Row) × (selected loads dumps text_of rows (codes "9") ≡ ok (row_dict r))
        × (r.account_id ≡ codes "9")
        × (r.include_dir_flags
            ≡ reassemble_flags
                (select (λ p. belongs text_of same_text config true r.account_id p) paths)))
    × (any (λ p. belongs text_of same_text config true (codes "9") p) paths ≡ false
        → selected loads dumps text_of rows (codes "9") ≡ raised value_error)
unfolding is_break
select_row-partition_paths_example =
    select_row-partition_paths loads dumps text_of (λ s. refl) rows refl (refl, tt) same_text config
      true apply_mode paths (codes "9") rows_run

select_absent_run : selected loads dumps text_of rows (codes "7") ≡ raised value_error
unfolding select_row extract_matrix ◌==◌
select_absent_run = refl
