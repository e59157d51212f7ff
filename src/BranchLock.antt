-- ===== src/BranchLock.antt =====
-- scripts/safety_net_unlock.py: when the release lock of a branch is taken off.
pub mod Keeps
pub mod Toggle
mod Tests
use telemetry_platform.Base.{
  ℕ, zero, suc, ◌+◌, ◌-◌, Bool, true, false, not, ◌&&◌, ◌||◌, Option, none, some, List, [], ◌∷◌,
  ◌++◌, map, if◌then◌else◌, nat_beq, leb, Str, codes, ◌==◌, replace_char, Exc, Outcome, ok, raised,
  runtime_error, attribute_error, need,
}
use telemetry_platform.Base.Calls.{Call, ◌>>=◌, pure, fail}
use telemetry_platform.Base.Dict.{Dict, get}
use telemetry_platform.Base.Int.{ℤ, pos, negsuc, py_int, strip}
use telemetry_platform.Base.Order.{contains}
use telemetry_platform.Json.{Json, null, truthy, get_or_null, as_dict}

-- What a finished process leaves.
pub record Finished : Type 0 where
  pub returncode : ℤ
  pub stdout : Str
  pub stderr : Str

-- result.returncode == 0
unfoldable pub succeeded : Finished → Bool
succeeded result = elim result.returncode [ pos zero ↦ true | _ ↦ false ]

-- The `gh` command and the clock, with `json.loads` and floating point. `age_minutes` is the age of
-- the time that a value of the lock marker gives; `below` compares an age with a bound in minutes.
pub record Shell : Type 1 where
  pub World : Type 0
  pub gh : List Str → World → Finished × World
  pub loads : Str → Option Json
  pub Age : Type 0
  pub age_minutes : Json → World → Outcome Age
  pub below : Age → ℤ → Bool
  pub py_str : Json → Str

-- UnlockDecision
pub data UnlockDecision : Type 0 where
  not_locked retain_active_release retain_age_too_low do_unlock : UnlockDecision

-- in_progress_count > 0
unfoldable pub is_positive : ℤ → Bool
is_positive (pos zero) = false
is_positive (pos (suc n)) = true
is_positive (negsuc n) = false

unfoldable pub upper : Str → Str
upper = map (λ c. if leb 97 c && leb c 122 then c - 32 else c)

-- BRANCH_LOCK_RUN_ID_<branch>
unfoldable pub lock_variable : Str → Str
unfolding upper replace_char
lock_variable branch = codes "BRANCH_LOCK_RUN_ID_" ++ upper (replace_char b'/' b'_' branch)

abbrev stripped_or_empty : Option Str → Str
stripped_or_empty none = []
stripped_or_empty (some s) = strip s

abbrev need_text : Str → Outcome Str
need_text [] = raised runtime_error
need_text (c ∷ s) = ok (c ∷ s)

-- _require_env; its ConfigurationError is a RuntimeError
unfoldable pub require_env : Str → Dict Str → Outcome Str
unfolding get strip
require_env name environ = need_text (stripped_or_empty (get name environ))

module _ (shell : Shell) where
  open shell use {World, gh, loads, Age, age_minutes, below, py_str}

  -- LockInfo
  pub record LockInfo : Type 0 where
    pub run_id : Str
    pub age : Age

  -- decide_unlock
  unfoldable pub decide_unlock : Option LockInfo → ℤ → ℤ → UnlockDecision
  unfolding is_positive
  decide_unlock none in_progress_count lock_max_age_minutes = not_locked
  decide_unlock (some lock_info) in_progress_count lock_max_age_minutes =
      if is_positive in_progress_count
      then retain_active_release
      else if below lock_info.age lock_max_age_minutes
      then retain_age_too_low
      else do_unlock

  abbrev lift : {A : Type 0} → Outcome A → Call World A
  lift r w = (r, w)

  -- subprocess.run
  unfoldable pub run_command : List Str → Call World Finished
  run_command cmd w = (ok (gh cmd w).0, (gh cmd w).1)

  abbrev pub runs_command : Str → Str → Str → List Str
  runs_command repo branch workflow_file =
      codes "gh"
      ∷ codes "api"
      ∷ (codes "repos/" ++ repo ++ codes "/actions/workflows/" ++ workflow_file ++ codes "/runs")
      ∷ codes "--field"
      ∷ codes "status=in_progress"
      ∷ codes "--field"
      ∷ (codes "branch=" ++ branch)
      ∷ codes "--jq"
      ∷ codes ".total_count"
      ∷ []

  abbrev pub variable_path : Str → Str → Str
  variable_path repo branch =
      codes "repos/" ++ repo ++ codes "/actions/variables/" ++ lock_variable branch

  abbrev pub read_command : Str → Str → List Str
  read_command repo branch =
      codes "gh" ∷ codes "api" ∷ variable_path repo branch ∷ codes "--jq" ∷ codes ".value" ∷ []

  abbrev pub delete_command : Str → Str → List Str
  delete_command repo branch =
      codes "gh" ∷ codes "api" ∷ codes "--method" ∷ codes "DELETE" ∷ variable_path repo branch ∷ []

  abbrev count_of : Finished → Outcome ℤ
  count_of result =
      if succeeded result
      then need runtime_error (py_int (strip result.stdout))
      else raised runtime_error

  -- check_in_progress_release_runs
  unfoldable pub check_in_progress_release_runs : Dict Str → Str → Str → Call World ℤ
  unfolding require_env run_command py_int strip succeeded
  check_in_progress_release_runs environ repo branch = do
    workflow_file ← lift (require_env (codes "WORKFLOW_FILE_NAME") environ)
    result ← run_command (runs_command repo branch workflow_file)
    lift (count_of result)

  -- `not run_id or locked_at_epoch is None`
  unfoldable pub is_missing : Json → Json → Bool
  unfolding truthy
  is_missing run_id null = true
  is_missing run_id locked_at = not (truthy run_id)

  abbrev lock_at : Json → Json → World → Bool → Outcome LockInfo
  lock_at run_id locked_at w true = raised runtime_error
  lock_at run_id locked_at w false = elim (age_minutes locked_at w) [
    | raised e ↦ raised e
    | ok age ↦ ok (record { run_id = py_str run_id; age = age })
  ]

  -- The fields of the marker.
  unfoldable pub lock_of : Dict Json → World → Outcome LockInfo
  unfolding get_or_null is_missing
  lock_of data_ w =
      lock_at (get_or_null (codes "run_id") data_) (get_or_null (codes "locked_at_epoch") data_) w (
        is_missing (get_or_null (codes "run_id") data_)
          (get_or_null (codes "locked_at_epoch") data_))

  -- `if not value or value == "null"`, and the parsed value
  unfoldable pub marker_of : Str → World → Outcome (Option LockInfo)
  unfolding lock_of
  marker_of [] w = ok none
  marker_of (c ∷ value) w =
      if (c ∷ value) == codes "null" then ok none else elim (loads (c ∷ value)) [
        | none ↦ raised runtime_error
        | some v ↦ elim (as_dict v) [
          | none ↦ raised attribute_error
          | some data_ ↦ elim (lock_of data_ w) [ raised e ↦ raised e | ok lock ↦ ok (some lock) ]
        ]
      ]

  -- A 404 means that the variable does not exist.
  unfoldable pub is_not_found : Str → Bool
  unfolding contains
  is_not_found stderr = contains (codes "404") stderr || contains (codes "Not Found") stderr

  unfoldable pub lock_answer : Finished → World → Outcome (Option LockInfo)
  unfolding marker_of is_not_found strip succeeded
  lock_answer result w =
      if succeeded result
      then marker_of (strip result.stdout) w
      else if is_not_found (strip result.stderr)
      then ok none
      else raised runtime_error

  -- read_lock_info
  unfoldable pub read_lock_info : Str → Str → Call World (Option LockInfo)
  unfolding run_command lock_answer
  read_lock_info repo branch =
      run_command (read_command repo branch) >>= λ result w. (lock_answer result w, w)

  abbrev deleted : Finished → Outcome (Unit {0})
  deleted result = if succeeded result then ok tt else raised runtime_error

  -- perform_unlock
  unfoldable pub perform_unlock : Str → Str → Call World (Unit {0})
  unfolding run_command succeeded
  perform_unlock repo branch =
      run_command (delete_command repo branch) >>= λ result. lift (deleted result)

  -- What `main` reads before it decides: the runs are counted only when there is a lock.
  unfoldable pub count_if_locked : Dict Str → Str → Str → Option LockInfo → Call World ℤ
  unfolding check_in_progress_release_runs
  count_if_locked environ repo branch none = pure (pos 0)
  count_if_locked environ repo branch (some lock_info) =
      check_in_progress_release_runs environ repo branch

  -- The branches on the decision.
  unfoldable pub act_on : UnlockDecision → Str → Str → Call World (Unit {0})
  unfolding perform_unlock
  act_on do_unlock repo branch = perform_unlock repo branch
  act_on _ repo branch = pure tt

  -- From the lock's reading on.
  unfoldable pub unlock_branch : Dict Str → Str → Str → ℤ → Call World (Unit {0})
  unfolding read_lock_info count_if_locked decide_unlock act_on
  unlock_branch environ repo branch lock_max_age_minutes = do
    lock_info ← read_lock_info repo branch
    in_progress_count ← count_if_locked environ repo branch lock_info
    act_on (decide_unlock lock_info in_progress_count lock_max_age_minutes) repo branch

  -- The body of `main` under `try`.
  unfoldable pub safety_net : Dict Str → Call World (Unit {0})
  unfolding require_env py_int unlock_branch
  safety_net environ = do
    repo ← lift (require_env (codes "REPO") environ)
    branch ← lift (require_env (codes "BRANCH") environ)
    raw ← lift (require_env (codes "LOCK_MAX_AGE_MINUTES") environ)
    lock_max_age_minutes ← lift (need runtime_error (py_int raw))
    unlock_branch environ repo branch lock_max_age_minutes

  -- main: the exit code, or an exception that is not caught
  unfoldable pub exit_of : Outcome (Unit {0}) → Outcome ℕ
  exit_of (ok _) = ok 0
  exit_of (raised runtime_error) = ok 1
  exit_of (raised e) = raised e

  unfoldable pub main : Dict Str → Call World ℕ
  unfolding safety_net exit_of
  main environ w = let (r, w') = safety_net environ w in (exit_of r, w')
