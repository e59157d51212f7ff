-- ===== src/Accounts/State.antt =====
-- scripts/filter_units_with_state.py: the units of a plan whose remote state exists. What the render
-- of a unit and the service answer is a parameter, and does not change during the run.
pub mod Absent
mod Tests
use telemetry_platform.Base.{
  ℕ, Bool, true, false, ◌||◌, Option, none, some, List, [], ◌∷◌, ◌++◌, if◌then◌else◌, Str, codes,
  ◌==◌, member, Exc, Outcome, ok, raised, runtime_error, path_parse_error, attribute_error, need,
  ◌>>=◌,
}
use telemetry_platform.Base.Dict.{Dict}
use telemetry_platform.Base.Int.{ℤ, pos, eqz}
use telemetry_platform.Json.{Json, obj, str, end, truthy, as_dict, get_or, get_or_null}
use telemetry_platform.Accounts.Paths.{extract_all_unit_paths}
use telemetry_platform.Accounts.Filter.{scope_outputs}

-- _S3_BACKEND
abbrev pub s3_backend : Str
s3_backend = codes "s3"

-- _NOT_FOUND_ERROR_CODES
abbrev pub not_found_error_codes : List Str
not_found_error_codes =
    codes "404" ∷ codes "NoSuchKey" ∷ codes "NoSuchBucket" ∷ codes "NotFound" ∷ []

-- What the run of a command left.
pub record Rendered : Type 0 where
  pub returncode : ℤ
  pub stdout : Str

-- The answer of head_object: the object is there, or a ClientError of this code and HTTP status.
pub data HeadAnswer : Type 0 where
  present : HeadAnswer
  client_refused : Str → Str → HeadAnswer

-- _exists; its StateCheckError is a RuntimeError
unfoldable pub state_exists : HeadAnswer → Outcome Bool
state_exists present = ok true
state_exists (client_refused code http_status) =
    if member code not_found_error_codes || (http_status == codes "404")
    then ok false
    else raised runtime_error

-- The result of `partition_by_state_existence`.
pub record Planned : Type 0 where
  pub kept : List Str
  pub skipped : List Str

-- The backend's type, bucket and key.
pub record Backend : Type 0 where
  pub backend : Str
  pub bucket : Str
  pub key : Str

unfoldable pub sort_planned : Str → Bool → Planned → Planned
sort_planned p true s = record s { kept = s.kept ++ p ∷ [] }
sort_planned p false s = record s { skipped = s.skipped ++ p ∷ [] }

-- `v or {}`, of which the fields are asked for
abbrev or_empty : Json → Outcome (Dict Json)
or_empty v = if truthy v then need attribute_error (as_dict v) else ok []

-- `loads` is json.loads, `py_str` str(v), `render` runs `terragrunt render` in a unit, and
-- `head_object` is the client's call.
module _ (loads : Str → Option Json) (py_str : Json → Str) (render : Str → Rendered)
    (head_object : Str → Str → HeadAnswer) where
  abbrev parsed_or_fail : Option Json → Outcome Json
  parsed_or_fail = need runtime_error

  -- render_unit_backend; its RenderError is a RuntimeError
  unfoldable pub render_unit_backend : Str → Outcome Json
  render_unit_backend unit_path =
      if eqz (render unit_path).returncode (pos 0)
      then parsed_or_fail (loads (render unit_path).stdout)
      else raised runtime_error

  -- The bucket and the key of an S3 backend.
  unfoldable pub bucket_key : Str → Json → Json → Outcome Backend
  unfolding truthy
  bucket_key backend bucket key =
      if truthy bucket
      then (if truthy key
          then ok (record { backend = backend; bucket = py_str bucket; key = py_str key })
          else raised runtime_error)
      else raised runtime_error

  abbrev backend_of : Dict Json → Str → Outcome Backend
  backend_of remote_state backend =
      if backend == s3_backend
      then (or_empty (get_or_null (codes "config") remote_state) >>= λ config.
          bucket_key backend (get_or_null (codes "bucket") config)
            (get_or_null (codes "key") config))
      else ok (record { backend = backend; bucket = []; key = [] })

  -- extract_backend_bucket_key
  unfoldable pub extract_backend_bucket_key : Json → Outcome Backend
  unfolding get_or_null get_or truthy bucket_key
  extract_backend_bucket_key rendered = do
    d ← need attribute_error (as_dict rendered)
    remote_state ← or_empty (get_or_null (codes "remote_state") d)
    backend_of remote_state (py_str (get_or (codes "backend") (str []) remote_state))

  -- Whether a unit is kept: a backend other than S3 is not asked.
  unfoldable pub is_kept : Backend → Outcome Bool
  unfolding state_exists
  is_kept b = if b.backend == s3_backend then state_exists (head_object b.bucket b.key) else ok true

  -- partition_by_state_existence, with what it has kept and skipped so far
  unfoldable pub partition_by_state_existence : List Str → Planned → Outcome Planned
  unfolding render_unit_backend extract_backend_bucket_key is_kept sort_planned
  partition_by_state_existence [] s = ok s
  partition_by_state_existence (p ∷ ps) s = do
    rendered ← render_unit_backend p
    backend ← extract_backend_bucket_key rendered
    keep ← is_kept backend
    partition_by_state_existence ps (sort_planned p keep s)

  -- run: what is written to the output file
  unfoldable pub run : Str → Outcome (List (Str × Str))
  unfolding extract_all_unit_paths partition_by_state_existence scope_outputs
  run include_dir_flags = do
    unit_paths ← extract_all_unit_paths include_dir_flags
    split ← partition_by_state_existence unit_paths (record { kept = []; skipped = [] })
    ok (scope_outputs split.kept)

  -- The exit code of `main`: PathParseError, RenderError and StateCheckError are caught.
  unfoldable pub main : Str → Outcome ℕ × List (Str × Str)
  unfolding run
  main include_dir_flags = elim (run include_dir_flags) [
    | ok written ↦ (ok 0, written)
    | raised path_parse_error ↦ (ok 1, [])
    | raised runtime_error ↦ (ok 1, [])
    | raised e ↦ (raised e, [])
  ]
