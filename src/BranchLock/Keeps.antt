-- ===== src/BranchLock/Keeps.antt =====
-- When `unlock_branch` may delete the lock's variable.
use telemetry_platform.Base.{
  Bool, false, Option, none, some, List, ◌∷◌, Str, codes, ◌==◌, ok, Answer-cases, Bool-cases,
  Outcome-cases, ◌≡◌, refl, ◌∙◌, sym, subst, ◌⊎◌, inl, inr,
}
use telemetry_platform.Base.Calls.{Call, ◌>>=◌, ok-then, raised-then}
use telemetry_platform.Base.Dict.{Dict}
use telemetry_platform.Base.Int.{ℤ}
use telemetry_platform.BranchLock.{
  Shell, LockInfo, decide_unlock, is_positive, run_command, require_env,
  check_in_progress_release_runs, read_lock_info, count_if_locked, act_on, unlock_branch,
}

-- The command deletes something.
abbrev pub is_delete : List Str → Bool
is_delete (a ∷ b ∷ c ∷ d ∷ more) = d == codes "DELETE"
is_delete _ = false

module _ (shell : Shell) (P : Shell.World shell → Type 0)
    (gh-keeps : (cmd : List Str) (w : Shell.World shell)
      → is_delete cmd ≡ false
      → P w
      → P (Shell.gh shell cmd w).1) where
  open shell use {World, gh, Age, below}

  read_lock_info-keeps :
      (repo branch : Str) (w : World) → P w → P (read_lock_info shell repo branch w).1
  unfolding read_lock_info run_command ◌>>=◌ ◌==◌
  read_lock_info-keeps repo branch w p = gh-keeps _ w refl p

  count_if_locked-keeps :
      (environ : Dict Str) (repo branch : Str) (lock : Option (LockInfo shell)) (w : World)
      → P w
      → P (count_if_locked shell environ repo branch lock w).1
  unfolding count_if_locked check_in_progress_release_runs run_command ◌>>=◌ ◌==◌
  count_if_locked-keeps environ repo branch none w p = p
  count_if_locked-keeps environ repo branch (some lock) w p =
      elim (Outcome-cases (require_env (codes "WORKFLOW_FILE_NAME") environ)) [
        | inl (e, failed) ↦ rw failed p
        | inr (workflow_file, found) ↦ rw found (gh-keeps _ w refl p)
      ]

  -- A lock was read, no release run is in progress, and the lock is old enough.
  pub record Justified (environ : Dict Str) (repo branch : Str) (bound : ℤ) (w : World)
      : Type 0 where
    pub lock : LockInfo shell
    pub after_read : World
    pub runs : ℤ
    pub after_count : World
    pub locked : read_lock_info shell repo branch w ≡ (ok (some lock), after_read)
    pub counted :
        check_in_progress_release_runs shell environ repo branch after_read ≡ (ok runs, after_count)
    pub idle : is_positive runs ≡ false
    pub old : below lock.age bound ≡ false

  -- The last step: only the decision to unlock runs the deletion.
  act_on-keeps :
      (environ : Dict Str) (repo branch : Str) (bound : ℤ) (w t u : World)
      (lock : Option (LockInfo shell)) (runs : ℤ)
      → read_lock_info shell repo branch w ≡ (ok lock, t)
      → count_if_locked shell environ repo branch lock t ≡ (ok runs, u)
      → P u
      → P (act_on shell (decide_unlock shell lock runs bound) repo branch u).1
        ⊎ Justified environ repo branch bound w
  unfolding decide_unlock act_on count_if_locked
  act_on-keeps environ repo branch bound w t u none runs got counted p = inl p
  act_on-keeps environ repo branch bound w t u (some lock) runs got counted p =
      elim (Bool-cases (is_positive runs)) [
        | inl busy ↦ inl (rw busy p)
        | inr idle ↦ elim (Bool-cases (below lock.age bound)) [
          | inl young ↦ inl (rw (idle, young) p)
          | inr old ↦ inr (record {
            lock = lock;
            after_read = t;
            runs = runs;
            after_count = u;
            locked = got;
            counted = counted;
            idle = idle;
            old = old;
          })
        ]
      ]

  -- Whatever only a deletion can break stays as it is, unless a lock was read, the count of the
  -- release runs in progress was read and was not positive, and the lock's age was not below the bound:
  -- every failure on the way keeps the lock.
  pub unlock_branch-keeps :
      (environ : Dict Str) (repo branch : Str) (bound : ℤ) (w : World)
      → P w
      → P (unlock_branch shell environ repo branch bound w).1
        ⊎ Justified environ repo branch bound w
  unfolding unlock_branch
  unlock_branch-keeps environ repo branch bound w p =
      let read = read_lock_info shell repo branch in
      let count : Option (LockInfo shell) → Call World ℤ =
        λ lock. count_if_locked shell environ repo branch lock in
      let act : Option (LockInfo shell) → ℤ → Call World (Unit {0}) =
        λ lock runs. act_on shell (decide_unlock shell lock runs bound) repo branch in
      let rest : Option (LockInfo shell) → Call World (Unit {0}) =
        λ lock. count lock >>= act lock in
      let p1 = read_lock_info-keeps repo branch w p in
      elim (Answer-cases (read w)) [
        | inl (e, failed) ↦ inl (subst (λ r. P r.1) (sym (raised-then read rest w _ e failed)) p1)
        | inr (lock, did) ↦
            let t = (read w).1 in
            let p2 = count_if_locked-keeps environ repo branch lock t p1 in
            let first = ok-then read rest w t lock did in
            elim (Answer-cases (count lock t)) [
              | inl (e, failed) ↦ inl (
                  subst (λ r. P r.1)
                    (sym (first ∙ raised-then (count lock) (act lock) t _ e failed)) p2)
              | inr (runs, counted) ↦
                  subst (λ r. P r.1 ⊎ Justified environ repo branch bound w)
                    (sym (first ∙ ok-then (count lock) (act lock) t _ runs counted))
                    (act_on-keeps environ repo branch bound w t _ lock runs did counted p2)
            ]
      ]
