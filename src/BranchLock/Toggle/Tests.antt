-- ===== src/BranchLock/Toggle/Tests.antt =====
-- A service with one marker and one rule, runs of both scripts on it, and the theorems applied to it.
use telemetry_platform.Base.{
  ℕ, Bool, true, false, Option, some, List, [], ◌∷◌, if◌then◌else◌, Str, codes, ◌==◌, ok, raised,
  runtime_error, ◌≡◌, refl, arith,
}
use telemetry_platform.Base.Calls.{◌>>=◌}
use telemetry_platform.Base.Dict.{get}
use telemetry_platform.Base.Int.{pos, strip}
use telemetry_platform.Json.{Json, null, bool, obj, end, fields}
use telemetry_platform.BranchLock.{
  Finished, succeeded, read_command, delete_command, perform_unlock,
}
use telemetry_platform.BranchLock.Toggle.{
  Api, lock_action, main, lock_branch, release_branch, protection_command, put_command,
}
use telemetry_platform.BranchLock.Toggle.Stuck.{
  release_branch-unread, release_branch-perform_unlock, release_branch-again,
}

-- The marker's variable, the lock of the rule, and whether the rule can be written.
record Service : Type 0 where
  marker : Bool
  locked : Bool
  writable : Bool

abbrev done : Str → Finished
done out = record { returncode = pos 0; stdout = out; stderr = [] }

abbrev failed : Finished
failed = record { returncode = pos 1; stdout = []; stderr = codes "HTTP 500" }

-- Reading the rule has three words, reading the variable five, of which the fourth is --jq.
abbrev answer : List Str → Service → Finished
answer (a ∷ b ∷ c ∷ d ∷ e ∷ []) s =
    if d == codes "--jq" then (if s.marker then done (codes "m") else failed) else done []
answer _ s = done []

abbrev change : List Str → Service → Service
change (a ∷ b ∷ c ∷ d ∷ more) s =
    if d == codes "DELETE"
    then record s { marker = false }
    else if d == codes "PATCH"
    then record s { marker = true }
    else s
change _ s = s

unfoldable gh : List Str → Service → Finished × Service
unfolding ◌==◌
gh cmd s = (answer cmd s, change cmd s)

abbrev lock_of_body : Option Json → Str
lock_of_body (some (bool true)) = codes "on"
lock_of_body _ = []

unfoldable gh_with_input : List Str → Str → Service → Finished × Service
unfolding ◌==◌
gh_with_input cmd body s =
    if s.writable then (done [], record s { locked = body == codes "on" }) else (failed, s)

abbrev api : Api
api = record {
  shell = record {
    World = Service;
    gh = gh;
    loads = λ s. some (obj end);
    Age = ℕ;
    age_minutes = λ v w. ok 45;
    below = λ age bound. false;
    py_str = λ v. [];
  };
  gh_with_input = gh_with_input;
  dumps = λ v. elim v [ obj fs ↦ lock_of_body (get (codes "lock_branch") (fields fs)) | _ ↦ [] ];
  now = λ w. null;
}

abbrev free : Service
free = record { marker = false; locked = false; writable = true }

abbrev held : Service
held = record { marker = true; locked = true; writable = true }

lock_run : lock_branch api (codes "o/r") (codes "main") (codes "7") free ≡ (ok tt, held)
unfolding lock_branch gh gh_with_input ◌>>=◌ ◌==◌ get
lock_run = refl

release_run : release_branch api (codes "o/r") (codes "main") held ≡ (ok tt, free)
unfolding release_branch gh gh_with_input ◌>>=◌ ◌==◌ get
release_run = refl

-- The marker is gone, and the rule is locked.
abbrev orphaned : Service
orphaned = record { marker = false; locked = true; writable = true }

orphaned_run : release_branch api (codes "o/r") (codes "main") orphaned ≡ (ok tt, orphaned)
unfolding gh succeeded
orphaned_run = release_branch-unread api (codes "o/r") (codes "main") orphaned refl

Absent : Service → Type 0
Absent s = s.marker ≡ false

gh-Absent :
    (w : Service)
    → succeeded (gh (delete_command (Api.shell api) (codes "o/r") (codes "main")) w).0 ≡ true
    → Absent (gh (delete_command (Api.shell api) (codes "o/r") (codes "main")) w).1
unfolding gh Absent
gh-Absent w h = refl

Absent-unread :
    (w : Service)
    → Absent w
    → succeeded (gh (read_command (Api.shell api) (codes "o/r") (codes "main")) w).0 ≡ false
unfolding gh Absent succeeded
Absent-unread w h = rw h refl

unlock_run : perform_unlock (Api.shell api) (codes "o/r") (codes "main") held ≡ (ok tt, orphaned)
unfolding perform_unlock gh ◌>>=◌
unlock_run = refl

release_branch-perform_unlock_example :
    release_branch api (codes "o/r") (codes "main") orphaned ≡ (ok tt, orphaned)
unfolding gh
release_branch-perform_unlock_example =
    release_branch-perform_unlock api (codes "o/r") (codes "main") Absent gh-Absent Absent-unread
      held orphaned unlock_run

abbrev unwritable : Service
unwritable = record held { writable = false }

failed_run :
    release_branch api (codes "o/r") (codes "main") unwritable
    ≡ (raised runtime_error, record orphaned { writable = false })
unfolding release_branch gh gh_with_input ◌>>=◌ ◌==◌ get
failed_run = refl

get-Absent :
    (w : Service) → Absent w → Absent (gh (protection_command api (codes "o/r") (codes "main")) w).1
unfolding gh Absent
get-Absent w h = h

put-Absent :
    (body : Str) (w : Service)
    → Absent w
    → Absent (gh_with_input (put_command api (codes "o/r") (codes "main")) body w).1
unfolding gh_with_input Absent
put-Absent body w h = ground arith

release_branch-again_example :
    release_branch api (codes "o/r") (codes "main") (record orphaned { writable = false })
    ≡ (ok tt, record orphaned { writable = false })
unfolding gh succeeded strip
release_branch-again_example =
    release_branch-again api (codes "o/r") (codes "main") Absent gh-Absent Absent-unread get-Absent
      put-Absent unwritable (record orphaned { writable = false }) runtime_error refl refl
      failed_run

main-lock_run : main api lock_action (codes "o/r") (codes "main") (codes "7") free ≡ (ok 0, held)
unfolding main lock_branch gh gh_with_input ◌>>=◌ ◌==◌ get
main-lock_run = refl

main-no_run : main api lock_action (codes "o/r") (codes "main") [] free ≡ (ok 1, free)
unfolding main
main-no_run = refl
