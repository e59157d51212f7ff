-- ===== src/Allowlist/IpSet/Merge.antt =====
-- Merging addresses into the IP set, other clients at work or not.
use telemetry_platform.Base.{
  ◌≡◌, refl, sym, ap, ◌∙◌, Bool, true, false, ◌||◌, List, [], ◌∷◌, ◌++◌, Str, eq_iff, member, ok,
  arith,
}
use telemetry_platform.Base.Int.{ℤ}
use telemetry_platform.Allowlist.Client.{Waf, SetSummary, pure, then-eq-ok}
use telemetry_platform.Allowlist.Retry.{with_lock_retry, tries, Retried, retry-Retried}
use telemetry_platform.Allowlist.Dedupe.{dedupe}
use telemetry_platform.Allowlist.Dedupe.Laws.{member-dedupe, member-append}
use telemetry_platform.Allowlist.IpSet.{same_list, write_merged, merge_addresses}

same_list_sound : (xs ys : List Str) → same_list xs ys ≡ true → xs ≡ ys
unfolding same_list
same_list_sound [] [] h = refl
same_list_sound [] (y ∷ ys) h = cc
same_list_sound (x ∷ xs) [] h = cc
same_list_sound (x ∷ xs) (y ∷ ys) h = ground (arith, eq_iff x y, same_list_sound xs ys)

module _ (waf : Waf) (existing : SetSummary) where
  open waf use {Server, get_ip_set, update_ip_set}

  -- What the merge relies on of WAFv2's optimistic locking of an IP set; as for a WebACL.
  pub record IsOptimistic (addresses : Server → List Str) : Type 0 where
    pub reads :
        (s t : Server) (found : List Str) (lock : Str)
        → get_ip_set existing.name existing.id s ≡ (ok (found, lock), t)
        → found ≡ addresses t
    pub swaps :
        (s t s' : Server) (found merged : List Str) (lock : Str)
        → get_ip_set existing.name existing.id s ≡ (ok (found, lock), t)
        → update_ip_set existing.name existing.id merged lock t ≡ (ok tt, s')
        → (before : Server) × (addresses before ≡ found) × (addresses s' ≡ merged)

  module _ (addresses : Server → List Str) (locking : IsOptimistic addresses)
      (add_cidrs : List Str) where
    -- The attempt that returned, the ones before it having failed: what its read gave, the update
    -- that it sent, if any, and the addresses that the set holds now.
    pub record Merged (s s' : Server) (updated : Bool) : Type 0 where
      pub start : Server
      pub tried : Retried (merge_addresses waf existing add_cidrs) s start
      pub read : Server
      pub lock : Str
      pub got : get_ip_set existing.name existing.id start ≡ (ok (addresses read, lock), read)
      pub holds :
          (n : Str) → member n (addresses s') ≡ (member n (addresses read) || member n add_cidrs)
      pub unchanged : updated ≡ false → s' ≡ read
      pub put :
          updated ≡ true
          → update_ip_set existing.name existing.id (addresses s') lock read ≡ (ok tt, s')

    member-merged :
        (found : List Str) (n : Str)
        → member n (dedupe (found ++ add_cidrs)) ≡ (member n found || member n add_cidrs)
    member-merged found n = member-dedupe n _ ∙ member-append n found add_cidrs

    write_merged-Merged :
        (s start read s' : Server) (found : List Str) (lock : Str) (same updated : Bool)
        → Retried (merge_addresses waf existing add_cidrs) s start
        → get_ip_set existing.name existing.id start ≡ (ok (found, lock), read)
        → same_list (dedupe (found ++ add_cidrs)) found ≡ same
        → write_merged waf existing (dedupe (found ++ add_cidrs)) lock same read ≡ (ok updated, s')
        → Merged s s' updated
    unfolding write_merged
    write_merged-Merged s start read s' found lock true updated tried got equal h =
        let is_current = locking.reads start read found lock got in
        let left : s' ≡ read = sym (ap (λ r. r.1) h) in
        let merged : addresses s' ≡ dedupe (found ++ add_cidrs) =
          rw (left, ← is_current)
            (sym (same_list_sound (dedupe (found ++ add_cidrs)) found equal)) in
        record {
          start = start;
          tried = tried;
          read = read;
          lock = lock;
          got = rw (← is_current) got;
          holds = λ n. rw (merged, ← is_current) (member-merged found n);
          unchanged = λ _. left;
          put = λ is_true. cc;
        }
    write_merged-Merged s start read s' found lock false updated tried got equal h =
        let (_, u, put, finished) =
          then-eq-ok (update_ip_set existing.name existing.id (dedupe (found ++ add_cidrs)) lock)
            (λ _. pure true) read s' h in
        let is_current = locking.reads start read found lock got in
        let left_by_put : s' ≡ u = sym (ap (λ r. r.1) finished) in
        let sent : update_ip_set existing.name existing.id (dedupe (found ++ add_cidrs)) lock read
            ≡ (ok tt, s') =
          rw left_by_put put in
        let (before, same, left) =
          locking.swaps start read s' found (dedupe (found ++ add_cidrs)) lock got sent in
        record {
          start = start;
          tried = tried;
          read = read;
          lock = lock;
          got = rw (← is_current) got;
          holds = λ n. rw (left, ← is_current) (member-merged found n);
          unchanged = λ is_false. cc;
          put = λ _. rw left sent;
        }

    -- Under WAFv2's optimistic locking of the IP set: when the retried merge returns, an attempt, each
    -- attempt before it having failed retryably, read the set, and the set holds exactly the addresses
    -- of that read and the added ones: either these were all there and nothing was sent, or the update
    -- with the token of that read put them there.
    pub merge-Merged :
        (retries : ℤ) (s s' : Server) (updated : Bool)
        → with_lock_retry (merge_addresses waf existing add_cidrs) retries s ≡ (ok updated, s')
        → Merged s s' updated
    unfolding with_lock_retry merge_addresses
    merge-Merged retries s s' updated h =
        let (start, tried, did) =
          retry-Retried (merge_addresses waf existing add_cidrs) (tries retries) s s' updated h in
        let (current, t, got, rest) =
          then-eq-ok (get_ip_set existing.name existing.id)
            (λ current.
              write_merged waf existing (dedupe (current.0 ++ add_cidrs)) current.1
                (same_list (dedupe (current.0 ++ add_cidrs)) current.0))
            start s' did in
        write_merged-Merged s start t s' current.0 current.1 _ updated tried got refl rest
