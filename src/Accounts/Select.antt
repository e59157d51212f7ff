-- ===== src/Accounts/Select.antt =====
-- scripts/select_partition_row.py: the row of one account, from the matrix that
-- scripts/partition_units_by_account.py has written.
pub mod Matrix
use telemetry_platform.Base.{
  ℕ, zero, suc, ◌+◌, ◌-◌, Bool, true, false, Option, none, some, List, [], ◌∷◌, ◌++◌, map,
  if◌then◌else◌, Str, codes, ◌==◌, starts_with, length, drop, find_first, Exc, Outcome, ok, raised,
  value_error, key_error, attribute_error, need, ◌>>=◌,
}
use telemetry_platform.Base.Decimal.{show_nat}
use telemetry_platform.Base.Dict.{Dict, get}
use telemetry_platform.Base.Lines.{splitlines}
use telemetry_platform.Json.{
  Json, str, arr, obj, items, of_dict, of_list, as_dict, get_or, get_or_null,
}
use telemetry_platform.Accounts.Partition.{Row}

-- MATRIX_PREFIX
abbrev pub matrix_prefix : Str
matrix_prefix = codes "matrix="

-- A row as `partition` writes it.
abbrev pub row_dict : Row → Dict Json
row_dict r =
    (codes "account_id", str r.account_id)
    ∷ (codes "role_arn", str r.role_arn)
    ∷ (codes "needs_dns_writer", str r.needs_dns_writer)
    ∷ (codes "aws_region", str r.aws_region)
    ∷ (codes "include_dir_flags", str r.include_dir_flags)
    ∷ []

-- The line that `run` of partition_units_by_account.py writes to its output file, before json.dumps
abbrev pub matrix_of : List Row → Json
matrix_of rows =
    obj
      (of_dict ((codes "include", arr (of_list (map (λ r. obj (of_dict (row_dict r))) rows))) ∷ []))

abbrev list_or_fail : Json → Outcome (List Json)
list_or_fail (arr vs) = ok (items vs)
list_or_fail v = raised value_error

-- The rows of a parsed matrix.
unfoldable pub included : Json → Outcome (List Json)
unfolding get_or
included matrix = do
  d ← need attribute_error (as_dict matrix)
  list_or_fail (get_or (codes "include") (arr (of_list [])) d)

-- text.count(part) of a part that is not empty: `skip` characters belong to the last match.
unfoldable pub count : Str → ℕ → Str → ℕ
unfolding starts_with
count part skip [] = 0
count part (suc skip) (c ∷ s) = count part skip s
count part zero (c ∷ s) =
    let behind = count part (length part - 1) s in
    let later = count part 0 s in if starts_with (c ∷ s) part then suc behind else later

-- The single row; its SelectRowError is a ValueError.
abbrev only : List (Dict Json) → Outcome (Dict Json)
only [] = raised value_error
only (r ∷ []) = ok r
only (r ∷ s ∷ rows) = raised value_error

-- The outcome of the text, behind what is written before it.
abbrev then_write :
    Str → Str → Outcome (Unit {0}) × List (Str × Str) → Outcome (Unit {0}) × List (Str × Str)
then_write key value (r, written) = (r, (key, value) ∷ written)

-- `loads` is json.loads and `py_str` is str(v).
module _ (loads : Str → Option Json) (py_str : Json → Str) where
  -- extract_matrix
  unfoldable pub extract_matrix : Str → Outcome (List Json)
  unfolding splitlines find_first starts_with included
  extract_matrix matrix_text = do
    line ← need value_error (find_first (λ l. starts_with l matrix_prefix) (splitlines matrix_text))
    matrix ← need value_error (loads (drop line (length matrix_prefix)))
    included matrix

  -- The rows of the account.
  unfoldable pub matches : Str → List Json → Outcome (List (Dict Json))
  unfolding get_or_null
  matches account_id [] = ok []
  matches account_id (v ∷ rows) = do
    r ← need attribute_error (as_dict v)
    rest ← matches account_id rows
    ok (if py_str (get_or_null (codes "account_id") r) == account_id then r ∷ rest else rest)

  -- select_row
  unfoldable pub select_row : List Json → Str → Outcome (Dict Json)
  unfolding matches
  select_row rows account_id = do found ← matches account_id rows; only found

  abbrev flags_of : Dict Json → Str
  flags_of row = py_str (get_or (codes "include_dir_flags") (str []) row)

  abbrev write_region : Dict Json → Option Json → Outcome (Unit {0}) × List (Str × Str)
  write_region row none = (raised key_error, [])
  write_region row (some region) = (
    ok tt,
    (codes "aws_region", py_str region)
        ∷ (codes "include_dir_flags", flags_of row)
        ∷ (codes "unit_count", show_nat (count (codes "--queue-include-dir") 0 (flags_of row)))
        ∷ [],
  )

  -- The outputs, in order: a missing region is found after the role was written.
  unfoldable pub write_row : Dict Json → Outcome (Unit {0}) × List (Str × Str)
  unfolding get get_or count show_nat
  write_row row = elim (get (codes "role_arn") row) [
    | none ↦ (raised key_error, [])
    | some role ↦
        then_write (codes "role_arn") (py_str role)
          (write_region row (get (codes "aws_region") row))
  ]

  abbrev write_selected : Outcome (Dict Json) → Outcome (Unit {0}) × List (Str × Str)
  write_selected (raised e) = (raised e, [])
  write_selected (ok row) = write_row row

  -- run, on the text of the matrix file: the outcome and what was written
  unfoldable pub run : Str → Str → Outcome (Unit {0}) × List (Str × Str)
  unfolding extract_matrix select_row write_row
  run matrix_text account_id =
      write_selected (extract_matrix matrix_text >>= λ rows. select_row rows account_id)

  -- The exit code of `main`: only a SelectRowError is caught.
  unfoldable pub main : Str → Str → Outcome ℕ × List (Str × Str)
  unfolding run
  main matrix_text account_id =
      let (r, written) = run matrix_text account_id in
      (elim r [ ok _ ↦ ok 0 | raised value_error ↦ ok 1 | raised e ↦ raised e ], written)
