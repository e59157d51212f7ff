-- ===== src/BranchLock/Toggle/Stuck.antt =====
-- What a missing marker does to the giving back of the lock.
use telemetry_platform.Base.{
  Bool, true, false, Str, Exc, Outcome, ok, raised, ◌≡◌, refl, ◌∙◌, ap, sym, subst, Bool-cases, inl,
  inr, Answer-cases,
}
use telemetry_platform.Base.Dict.{Dict}
use telemetry_platform.Json.{Json}
use telemetry_platform.BranchLock.Toggle.Body.{put_body}
use telemetry_platform.Base.Calls.{Call, ◌>>=◌, ok-then, raised-then}
use telemetry_platform.BranchLock.{
  succeeded, run_command, read_command, delete_command, perform_unlock,
}
use telemetry_platform.BranchLock.Toggle.{
  Api, shows_marker, protection_command, put_command, is_branch_locked, delete_lock_marker,
  set_branch_lock, get_branch_protection, put_protection, release_if, release_branch,
}

module _ (api : Api) (repo branch : Str) where
  open api use {shell, gh_with_input}
  open shell use {World, gh}

  -- The world behind a reading of the variable.
  abbrev pub after_read : World → World
  after_read w = (gh (read_command shell repo branch) w).1

  -- Where the reading of the variable fails, for whatever reason, giving back the lock is a success that
  -- does nothing.
  pub release_branch-unread :
      (w : World)
      → succeeded (gh (read_command shell repo branch) w).0 ≡ false
      → release_branch api repo branch w ≡ (ok tt, after_read w)
  unfolding release_branch is_branch_locked run_command release_if ◌>>=◌
  release_branch-unread w h = rw h refl

  is_branch_locked-shown :
      (w : World)
      → shows_marker api (gh (read_command shell repo branch) w).0 ≡ true
      → is_branch_locked api repo branch w ≡ (ok true, after_read w)
  unfolding is_branch_locked run_command ◌>>=◌
  is_branch_locked-shown w h = rw h refl

  delete_lock_marker-done :
      (w : World)
      → succeeded (gh (delete_command shell repo branch) w).0 ≡ true
      → delete_lock_marker api repo branch w ≡ (ok tt, (gh (delete_command shell repo branch) w).1)
  unfolding delete_lock_marker run_command ◌>>=◌
  delete_lock_marker-done w h = rw h refl

  -- With a marker that is deleted, what is left of the giving back is the change of the rule.
  release_branch-shown :
      (w : World)
      → shows_marker api (gh (read_command shell repo branch) w).0 ≡ true
      → succeeded (gh (delete_command shell repo branch) (after_read w)).0 ≡ true
      → release_branch api repo branch w
        ≡ set_branch_lock api repo branch false
            (gh (delete_command shell repo branch) (after_read w)).1
  unfolding release_branch release_if
  release_branch-shown w shown done =
      ok-then (is_branch_locked api repo branch) (release_if api repo branch) w _ true
        (is_branch_locked-shown w shown)
      ∙ ok-then (delete_lock_marker api repo branch) (λ _. set_branch_lock api repo branch false)
          (after_read w) _ tt (delete_lock_marker-done (after_read w) done)

  module _ (Absent : World → Type 0)
      (delete-Absent : (w : World)
        → succeeded (gh (delete_command shell repo branch) w).0 ≡ true
        → Absent (gh (delete_command shell repo branch) w).1)
      (read-Absent : (w : World)
        → Absent w
        → succeeded (gh (read_command shell repo branch) w).0 ≡ false) where
    -- Once the safety net has taken the marker off, giving back the lock is a success that does no
    -- more than read the variable: the protection rule, which `lock_branch` locked, is neither read nor
    -- written, if a deleted variable cannot be read.
    pub release_branch-perform_unlock :
        (w w' : World)
        → perform_unlock shell repo branch w ≡ (ok tt, w')
        → release_branch api repo branch w' ≡ (ok tt, after_read w')
    unfolding perform_unlock run_command ◌>>=◌
    release_branch-perform_unlock w w' h =
        elim (Bool-cases (succeeded (gh (delete_command shell repo branch) w).0)) [
          | inl done ↦
              let same : (gh (delete_command shell repo branch) w).1 ≡ w' = ap (λ r. r.1) h in
              release_branch-unread w' (read-Absent w' (subst Absent same (delete-Absent w done)))
          | inr failed ↦ let bad = rw failed at h in cc
        ]

    module _
        (get-Absent : (w : World) → Absent w → Absent (gh (protection_command api repo branch) w).1)
        (put-Absent : (body : Str) (w : World)
          → Absent w
          → Absent (gh_with_input (put_command api repo branch) body w).1) where
      get_branch_protection-Absent :
          (w : World) → Absent w → Absent (get_branch_protection api repo branch w).1
      unfolding get_branch_protection run_command ◌>>=◌
      get_branch_protection-Absent w h = get-Absent w h

      put_protection-Absent :
          (body : Outcome Json) (w : World)
          → Absent w
          → Absent (put_protection api repo branch body w).1
      unfolding put_protection
      put_protection-Absent (raised e) w h = h
      put_protection-Absent (ok body) w h = put-Absent (Api.dumps api body) w h

      set_branch_lock-Absent :
          (lock : Bool) (w : World) → Absent w → Absent (set_branch_lock api repo branch lock w).1
      unfolding set_branch_lock
      set_branch_lock-Absent lock w h =
          let get_rule = get_branch_protection api repo branch in
          let put_rule : Dict Json → Call World (Unit {0}) =
            λ protection. put_protection api repo branch (put_body protection lock) in
          let kept = get_branch_protection-Absent w h in
          elim (Answer-cases (get_rule w)) [
            | inl (e, failed) ↦
                subst (λ r. Absent r.1) (sym (raised-then get_rule put_rule w _ e failed)) kept
            | inr (protection, did) ↦
                subst (λ r. Absent r.1) (sym (ok-then get_rule put_rule w _ protection did))
                  (put_protection-Absent (put_body protection lock) _ kept)
          ]

      -- If giving back the lock has deleted the marker and then fails, for whatever reason, trying again
      -- is a success that does no more than read the variable: the branch stays locked.
      pub release_branch-again :
          (w w' : World) (e : Exc)
          → shows_marker api (gh (read_command shell repo branch) w).0 ≡ true
          → succeeded (gh (delete_command shell repo branch) (after_read w)).0 ≡ true
          → release_branch api repo branch w ≡ (raised e, w')
          → release_branch api repo branch w' ≡ (ok tt, after_read w')
      release_branch-again w w' e shown done h =
          let unlocked = sym (release_branch-shown w shown done) ∙ h in
          release_branch-unread w' (
            read-Absent w' (
              subst Absent (ap (λ r. r.1) unlocked)
                (set_branch_lock-Absent false _ (delete-Absent (after_read w) done))))
