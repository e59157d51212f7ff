-- ===== src/Accounts/Select/Matrix.antt =====
-- The matrix of `partition`, read back by `extract_matrix` and `select_row`.
use telemetry_platform.Base.{
  Bool, true, false, Option, some, List, [], ◌∷◌, ◌++◌, map, Str, codes, ◌==◌, eq_iff, member,
  select, any, drop, Outcome, ok, raised, value_error, ◌>>=◌, All, Bool-cases, inl, inr, ◌≡◌, refl,
  ◌∙◌, ap, subst, arith,
}
use telemetry_platform.Base.Dict.{Dict, Distinct, get}
use telemetry_platform.Base.Lines.{is_break, splitlines, splitlines-one}
use telemetry_platform.Json.{Json, str, obj, of_dict, get_or, get_or_null, items, of_list}
use telemetry_platform.Accounts.{Config}
use telemetry_platform.Accounts.Paths.{reassemble_flags}
use telemetry_platform.Accounts.Partition.{Mode, Row, partition_paths}
use telemetry_platform.Accounts.Partition.Grouping.{belongs}
use telemetry_platform.Accounts.Partition.Rows.{partition_paths-Distinct}
use telemetry_platform.Accounts.Select.{
  row_dict, matrix_prefix, matrix_of, included, extract_matrix, matches, select_row, only,
}

abbrev row_json : Row → Json
row_json r = obj (of_dict (row_dict r))

items-of_list : (vs : List Json) → items (of_list vs) ≡ vs
items-of_list [] = refl
items-of_list (v ∷ vs) = rw (items-of_list vs) refl

abbrev pub of_account : Str → Row → Bool
of_account a r = r.account_id == a

select-absent :
    (a : Str) (rows : List Row)
    → member a (map (λ (r : Row). r.account_id) rows) ≡ false
    → select (of_account a) rows ≡ []
unfolding select member
select-absent a [] h = refl
select-absent a (r ∷ rows) h =
    let other : (r.account_id == a) ≡ false =
      ground (arith, eq_iff r.account_id a, eq_iff a r.account_id) in
    rw (other, select-absent a rows (ground arith)) refl

-- An account that stands in the rows, of which none stands twice, has one row.
select-one :
    (P : Row → Type 0) (a : Str) (rows : List Row)
    → Distinct (map (λ (r : Row). r.account_id) rows)
    → member a (map (λ (r : Row). r.account_id) rows) ≡ true
    → All P rows
    → (row : Row) × (select (of_account a) rows ≡ row ∷ []) × (row.account_id ≡ a) × P row
unfolding select member
select-one P a [] d h ps = cc
select-one P a (r ∷ rows) (new, d) h (p, ps) = elim (Bool-cases (r.account_id == a)) [
  | inl e ↦
      let is = (eq_iff r.account_id a).0 e in
      let none_left =
        select-absent a rows
          (subst (λ b. member b (map (λ (r : Row). r.account_id) rows) ≡ false) is new) in
      (r, rw (e, none_left) refl, is, p)
  | inr e ↦
      let later : member a (map (λ (r : Row). r.account_id) rows) ≡ true =
        ground (arith, eq_iff r.account_id a, eq_iff a r.account_id) in
      let (row, found, is, q) = select-one P a rows d later ps in (row, rw (e, found) refl, is, q)
]

get_or_null-row_dict : (r : Row) → get_or_null (codes "account_id") (row_dict r) ≡ str r.account_id
unfolding get_or_null get ◌==◌
get_or_null-row_dict r = refl

included-matrix_of : (rows : List Row) → included (matrix_of rows) ≡ ok (map row_json rows)
unfolding included get_or get ◌==◌
included-matrix_of rows = ap (λ vs. ok vs) (items-of_list (map row_json rows))

-- What partition_units_by_account.py writes for the rows.
abbrev pub matrix_file : (Json → Str) → List Row → Str
matrix_file dumps rows = matrix_prefix ++ (dumps (matrix_of rows) ++ 10 ∷ [])

-- Reading that file and selecting an account.
abbrev pub selected :
    (Str → Option Json) → (Json → Str) → (Json → Str) → List Row → Str → Outcome (Dict Json)
selected loads dumps py_str rows a =
    extract_matrix loads py_str (matrix_file dumps rows) >>= λ vs. select_row loads py_str vs a

module _ (loads : Str → Option Json) (dumps : Json → Str) (py_str : Json → Str)
    (py_str-str : (s : Str) → py_str (str s) ≡ s) where
  matches-rows :
      (a : Str) (rows : List Row)
      → matches loads py_str a (map row_json rows) ≡ ok (map row_dict (select (of_account a) rows))
  unfolding matches select
  matches-rows a [] = refl
  matches-rows a (r ∷ rows) = elim (Bool-cases (r.account_id == a)) [
    | inl e ↦ rw (matches-rows a rows, get_or_null-row_dict r, py_str-str r.account_id, e) refl
    | inr e ↦ rw (matches-rows a rows, get_or_null-row_dict r, py_str-str r.account_id, e) refl
  ]

  module _ (rows : List Row) (loads-dumps : loads (dumps (matrix_of rows)) ≡ some (matrix_of rows))
      (dumps-line : All (λ c. is_break c ≡ false) (dumps (matrix_of rows))) where
    splitlines-matrix_file :
        splitlines (matrix_file dumps rows) ≡ (matrix_prefix ++ dumps (matrix_of rows)) ∷ []
    unfolding is_break
    splitlines-matrix_file =
        splitlines-one b'm' (codes "atrix=" ++ dumps (matrix_of rows))
          (refl, (refl, (refl, (refl, (refl, (refl, (refl, dumps-line)))))))

    extract_matrix-matrix_file :
        extract_matrix loads py_str (matrix_file dumps rows) ≡ ok (map row_json rows)
    unfolding extract_matrix drop
    extract_matrix-matrix_file = rw (splitlines-matrix_file, loads-dumps) (included-matrix_of rows)

    selected-rows :
        (a : Str)
        → selected loads dumps py_str rows a ≡ only (map row_dict (select (of_account a) rows))
    unfolding select_row
    selected-rows a = rw (extract_matrix-matrix_file, matches-rows a rows) refl

    -- The row that is selected from the partition's file, where json.loads reads what json.dumps
    -- wrote on one line and str of a text is that text: an account that a unit of the scope resolves to
    -- has exactly one row, which is found and names exactly that account's units in their order, and
    -- any other account is refused.
    pub select_row-partition_paths :
        (same : Json → Json → Bool) (config : Config) (on_demand : Bool) (mode : Mode)
        (paths : List Str) (a : Str)
        → partition_paths py_str same config on_demand mode paths ≡ ok rows
        → (any (λ p. belongs py_str same config on_demand a p) paths ≡ true
            → (row : Row) × (selected loads dumps py_str rows a ≡ ok (row_dict row))
              × (row.account_id ≡ a)
              × (row.include_dir_flags
                  ≡ reassemble_flags
                      (select (λ p. belongs py_str same config on_demand row.account_id p) paths)))
          × (any (λ p. belongs py_str same config on_demand a p) paths ≡ false
              → selected loads dumps py_str rows a ≡ raised value_error)
    select_row-partition_paths same config on_demand mode paths a h =
        let (resolve, d, here, flags) =
          partition_paths-Distinct py_str same config on_demand mode paths rows h in
        (
          λ some_unit.
              let (row, found, is, its) = select-one _ a rows d (here a ∙ some_unit) flags in
              (row, selected-rows a ∙ ap (λ rs. only (map row_dict rs)) found, is, its),
          λ no_unit.
              selected-rows a
              ∙ ap (λ rs. only (map row_dict rs)) (select-absent a rows (here a ∙ no_unit)),
        )
