-- ===== src/BranchLock/Tests.antt =====
-- Runs against a `gh` with a stored marker, and the theorem applied to one of them.
use telemetry_platform.Base.{
  ℕ, Bool, true, false, ltb, some, List, [], ◌∷◌, if◌then◌else◌, Str, codes, ◌==◌, ok, ◌≡◌, refl,
  ◌⊎◌,
}
use telemetry_platform.Base.Calls.{◌>>=◌}
use telemetry_platform.Base.Dict.{Dict}
use telemetry_platform.Base.Int.{pos, negsuc}
use telemetry_platform.Json.{str, obj, field, end, int}
use telemetry_platform.BranchLock.{Shell, Finished, main, unlock_branch}
use telemetry_platform.BranchLock.Keeps.{Justified, is_delete, unlock_branch-keeps}

-- Whether the variable is there, and the number of runs that the service reports.
record State : Type 0 where
  locked : Bool
  runs : Str

abbrev done : Str → Finished
done out = record { returncode = pos 0; stdout = out; stderr = [] }

abbrev answer : List Str → State → Finished
answer (a ∷ b ∷ c ∷ d ∷ []) s = done []
answer (a ∷ b ∷ c ∷ d ∷ e ∷ []) s =
    if s.locked
    then done (codes "marker")
    else record { returncode = pos 1; stdout = []; stderr = codes "HTTP 404" }
answer _ s = done s.runs

unfoldable gh : List Str → State → Finished × State
unfolding ◌==◌
gh cmd s = (answer cmd s, if is_delete cmd then record s { locked = false } else s)

abbrev shell : Shell
shell = record {
  World = State;
  gh = gh;
  loads = λ s.
      some
        (obj (field (codes "run_id") (str s) (field (codes "locked_at_epoch") (int (pos 10)) end)));
  Age = ℕ;
  age_minutes = λ v w. ok 45;
  below = λ age bound. elim bound [ pos n ↦ ltb age n | negsuc n ↦ false ];
  py_str = λ v. [];
}

abbrev environ : Dict Str
environ =
    (codes "REPO", codes "o/r")
    ∷ (codes "BRANCH", codes "main")
    ∷ (codes "LOCK_MAX_AGE_MINUTES", codes "30")
    ∷ (codes "WORKFLOW_FILE_NAME", codes "release.yml")
    ∷ []

idle_run :
    main shell environ (record { locked = true; runs = codes "0" })
    ≡ (ok 0, record { locked = false; runs = codes "0" })
unfolding main gh ◌>>=◌ ◌==◌
idle_run = refl

abbrev busy : State
busy = record { locked = true; runs = codes "2" }

busy_run : main shell environ busy ≡ (ok 0, busy)
unfolding main gh ◌>>=◌ ◌==◌
busy_run = refl

unreadable_run :
    main shell environ (record { locked = true; runs = codes "?" })
    ≡ (ok 1, record { locked = true; runs = codes "?" })
unfolding main gh ◌>>=◌ ◌==◌
unreadable_run = refl

IsLocked : State → Type 0
IsLocked s = s.locked ≡ true

gh-IsLocked :
    (cmd : List Str) (w : State) → is_delete cmd ≡ false → IsLocked w → IsLocked (gh cmd w).1
unfolding gh IsLocked
gh-IsLocked cmd w h p = rw h p

unlock_branch-keeps_example :
    IsLocked (unlock_branch shell environ (codes "o/r") (codes "main") (pos 30) busy).1
    ⊎ Justified shell IsLocked gh-IsLocked environ (codes "o/r") (codes "main") (pos 30) busy
unfolding IsLocked
unlock_branch-keeps_example =
    unlock_branch-keeps shell IsLocked gh-IsLocked environ (codes "o/r") (codes "main") (pos 30)
      busy refl
