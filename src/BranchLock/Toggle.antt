-- ===== src/BranchLock/Toggle.antt =====
-- scripts/lock_branch.py: the release lock is taken and given back.
pub mod Body
pub mod Stuck
mod Tests
use telemetry_platform.Base.{
  ℕ, Bool, true, false, not, ◌||◌, Option, none, some, List, [], ◌∷◌, ◌++◌, if◌then◌else◌, Str,
  codes, ◌==◌, Exc, Outcome, ok, raised, runtime_error, attribute_error,
}
use telemetry_platform.Base.Calls.{Call, ◌>>=◌, pure, fail}
use telemetry_platform.Base.Dict.{Dict}
use telemetry_platform.Base.Int.{strip}
use telemetry_platform.Base.Order.{contains}
use telemetry_platform.Json.{Json, str, obj, of_dict, as_dict}
use telemetry_platform.BranchLock.{
  Shell, Finished, succeeded, lock_variable, run_command, variable_path, read_command,
  delete_command, is_not_found, exit_of,
}
use telemetry_platform.BranchLock.Toggle.Body.{put_body}

-- The choices of --action
pub data ToggleAction : Type 0 where
  lock_action unlock_action : ToggleAction

-- What lock_branch.py uses beside the shell of the safety net: input for a command, `json.dumps`, and
-- the clock.
pub record Api : Type 1 where
  pub shell : Shell
  pub gh_with_input : List Str → Str → Shell.World shell → Finished × Shell.World shell
  pub dumps : Json → Str
  pub now : Shell.World shell → Json

module _ (api : Api) where
  open api use {shell, gh_with_input, dumps, now}
  open shell use {World, gh, loads}

  abbrev pub patch_command : Str → Str → Str → List Str
  patch_command repo branch marker =
      codes "gh"
      ∷ codes "api"
      ∷ codes "--method"
      ∷ codes "PATCH"
      ∷ variable_path shell repo branch
      ∷ codes "--field"
      ∷ (codes "name=" ++ lock_variable branch)
      ∷ codes "--field"
      ∷ (codes "value=" ++ marker)
      ∷ []

  abbrev pub post_command : Str → Str → Str → List Str
  post_command repo branch marker =
      codes "gh"
      ∷ codes "api"
      ∷ codes "--method"
      ∷ codes "POST"
      ∷ (codes "repos/" ++ repo ++ codes "/actions/variables")
      ∷ codes "--field"
      ∷ (codes "name=" ++ lock_variable branch)
      ∷ codes "--field"
      ∷ (codes "value=" ++ marker)
      ∷ []

  abbrev pub protection_path : Str → Str → Str
  protection_path repo branch =
      codes "repos/" ++ repo ++ codes "/branches/" ++ branch ++ codes "/protection"

  abbrev pub protection_command : Str → Str → List Str
  protection_command repo branch = codes "gh" ∷ codes "api" ∷ protection_path repo branch ∷ []

  abbrev pub put_command : Str → Str → List Str
  put_command repo branch =
      codes "gh"
      ∷ codes "api"
      ∷ codes "--method"
      ∷ codes "PUT"
      ∷ protection_path repo branch
      ∷ codes "--input"
      ∷ codes "-"
      ∷ []

  abbrev done_or_fail : Finished → Outcome (Unit {0})
  done_or_fail result = if succeeded result then ok tt else raised runtime_error

  -- The marker's text.
  abbrev marker_text : Str → World → Str
  marker_text run_id w =
      dumps (obj (of_dict ((codes "run_id", str run_id) ∷ (codes "locked_at_epoch", now w) ∷ [])))

  -- A variable that cannot be updated is created.
  unfoldable pub create_unless : Bool → List Str → Call World (Unit {0})
  unfolding run_command succeeded
  create_unless true create = pure tt
  create_unless false create = run_command shell create >>= λ result w. (done_or_fail result, w)

  -- write_lock_marker
  unfoldable pub write_lock_marker : Str → Str → Str → Call World (Unit {0})
  unfolding run_command succeeded create_unless
  write_lock_marker repo branch run_id w =
      (run_command shell (patch_command repo branch (marker_text run_id w)) >>= λ result.
      create_unless (succeeded result) (post_command repo branch (marker_text run_id w)))
        w

  abbrev rule_of : Option Json → Outcome (Dict Json)
  rule_of none = raised runtime_error
  rule_of (some v) = elim (as_dict v) [ some d ↦ ok d | none ↦ raised attribute_error ]

  -- _get_branch_protection; both failures are a RuntimeError
  unfoldable pub get_branch_protection : Str → Str → Call World (Dict Json)
  unfolding run_command succeeded
  get_branch_protection repo branch =
      run_command shell (protection_command repo branch) >>= λ result w.
      (if succeeded result then rule_of (loads result.stdout) else raised runtime_error, w)

  -- The PUT of the rule with the wanted state of the lock.
  unfoldable pub put_protection : Str → Str → Outcome Json → Call World (Unit {0})
  unfolding succeeded
  put_protection repo branch (raised e) w = (raised e, w)
  put_protection repo branch (ok body) w =
      let (result, w') = gh_with_input (put_command repo branch) (dumps body) w in
      (done_or_fail result, w')

  -- _enable_branch_protection with true, _disable_branch_lock with false
  unfoldable pub set_branch_lock : Str → Str → Bool → Call World (Unit {0})
  unfolding get_branch_protection put_body put_protection
  set_branch_lock repo branch lock = get_branch_protection repo branch >>= λ protection.
      put_protection repo branch (put_body protection lock)

  abbrev gone_or_fail : Finished → Outcome (Unit {0})
  gone_or_fail result =
      if succeeded result
      then ok tt
      else if is_not_found shell (strip result.stderr)
      then ok tt
      else raised runtime_error

  -- _delete_lock_marker
  unfoldable pub delete_lock_marker : Str → Str → Call World (Unit {0})
  unfolding run_command succeeded is_not_found strip
  delete_lock_marker repo branch =
      run_command shell (delete_command shell repo branch) >>= λ result w. (gone_or_fail result, w)

  abbrev is_marker : Str → Bool
  is_marker [] = false
  is_marker (c ∷ value) = not ((c ∷ value) == codes "null")

  abbrev shows_marker : Finished → Bool
  shows_marker result = if succeeded result then is_marker (strip result.stdout) else false

  -- _is_branch_locked
  unfoldable pub is_branch_locked : Str → Str → Call World Bool
  unfolding run_command succeeded strip
  is_branch_locked repo branch =
      run_command shell (read_command shell repo branch) >>= λ result. pure (shows_marker result)

  -- lock_branch
  unfoldable pub lock_branch : Str → Str → Str → Call World (Unit {0})
  unfolding write_lock_marker set_branch_lock
  lock_branch repo branch run_id =
      write_lock_marker repo branch run_id >>= λ _. set_branch_lock repo branch true

  unfoldable pub release_if : Str → Str → Bool → Call World (Unit {0})
  unfolding delete_lock_marker set_branch_lock
  release_if repo branch false = pure tt
  release_if repo branch true =
      delete_lock_marker repo branch >>= λ _. set_branch_lock repo branch false

  -- unlock_branch
  unfoldable pub release_branch : Str → Str → Call World (Unit {0})
  unfolding is_branch_locked release_if
  release_branch repo branch = is_branch_locked repo branch >>= release_if repo branch

  -- The two branches under `try`; without a run there is nothing to lock for.
  unfoldable pub toggle : ToggleAction → Str → Str → Str → Call World ℕ
  unfolding lock_branch release_branch exit_of
  toggle lock_action repo branch [] w = (ok 1, w)
  toggle lock_action repo branch (c ∷ run_id) w =
      let (r, w') = lock_branch repo branch (c ∷ run_id) w in (exit_of shell r, w')
  toggle unlock_action repo branch run_id w =
      let (r, w') = release_branch repo branch w in (exit_of shell r, w')

  -- main: the exit code, or an exception that is not caught
  unfoldable pub main : ToggleAction → Str → Str → Str → Call World ℕ
  unfolding toggle
  main action [] branch run_id w = (ok 1, w)
  main action (c ∷ repo) [] run_id w = (ok 1, w)
  main action (c ∷ repo) (d ∷ branch) run_id w = toggle action (c ∷ repo) (d ∷ branch) run_id w
