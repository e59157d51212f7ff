-- ===== src/Allowlist/Tests.antt =====
-- Runs of the allowlist against the sample server, and its theorems at concrete inputs.
use telemetry_platform.Base.{
  ◌≡◌, ◌||◌, refl, true, false, none, List, [], ◌∷◌, ◌++◌, Str, codes, ◌==◌, member, Outcome, ok,
  raised, usage_error, allowlist_error, arith, Exc, ◌⊎◌,
}
use telemetry_platform.Base.Dict.{Distinct}
use telemetry_platform.Base.Int.{pos}
use telemetry_platform.Allowlist.Client.{◌>>=◌, AclSummary, WebAcl}
use telemetry_platform.Allowlist.Retry.{
  with_lock_retry, is_retryable_waf_error, with_lock_retry-ne-retryable,
}
use telemetry_platform.Allowlist.Dedupe.{dedupe}
use telemetry_platform.Allowlist.Dedupe.Laws.{dedupe-append}
use telemetry_platform.Allowlist.IpSet.{merge_addresses, ensure_ip_set}
use telemetry_platform.Allowlist.IpSet.Merge.{Merged, merge-Merged}
use telemetry_platform.Allowlist.Rule.{
  build_allow_rule, scan, present, keep_others, ensure_allow_rule, remove_allow_rule,
}
use telemetry_platform.Allowlist.Rule.Lists.{keep_others-scan}
use telemetry_platform.Allowlist.Rule.Laws.{Removed, remove_allow_rule-Removed}
use telemetry_platform.Allowlist.Run.{
  Evidence, resolve_web_acl, apply_allowlist, remove_allowlist, exit_code,
}
use telemetry_platform.Allowlist.Run.AclCalls.{AclCalls}
use telemetry_platform.Allowlist.Run.Order.{
  SetLast, apply_allowlist-bad_priority, remove_allowlist-rule_first,
}
use telemetry_platform.Allowlist.Samples.{
  State, server, start, collector, ip_set, acl_of, addresses_of, other_rule, acl-IsOptimistic,
  addresses-IsOptimistic,
}

abbrev result_of {ℓ} : {A : Type ℓ} → Outcome A × State → State
result_of r = r.1

abbrev perf : Str
perf = codes "perf-test-allow"

abbrev after_add : State
after_add = result_of (ensure_allow_rule server (pos 6) collector perf 0 (codes "arn:2") start)

add_rules :
    (acl_of after_add).rules
    ≡ other_rule (codes "theirs") 7
      ∷ other_rule (codes "RateLimitPerIP") 100
      ∷ build_allow_rule perf 0 (codes "arn:2")
      ∷ []
unfolding ensure_allow_rule ◌>>=◌ ◌==◌
add_rules = refl

abbrev after_remove : State
after_remove = result_of (remove_allow_rule server (pos 0) collector perf after_add)

remove_run : remove_allow_rule server (pos 0) collector perf after_add ≡ (ok true, after_remove)
unfolding ensure_allow_rule remove_allow_rule ◌>>=◌ ◌==◌
remove_run = refl

remove_allow_rule-Removed_example :
    Removed server collector acl_of acl-IsOptimistic perf after_add after_remove
remove_allow_rule-Removed_example =
    remove_allow_rule-Removed server collector acl_of acl-IsOptimistic perf (pos 0) after_add
      after_remove remove_run

removed_rule_run :
    (keep_others perf (other_rule (codes "x") 3 ∷ build_allow_rule perf 0 (codes "a") ∷ [])
      ≡ other_rule (codes "x") 3 ∷ [])
    × (scan perf 0 (other_rule (codes "x") 3 ∷ build_allow_rule perf 0 (codes "a") ∷ []) ≡ present)
unfolding scan ◌==◌
removed_rule_run = keep_others-scan perf 0 (codes "a") (other_rule (codes "x") 3 ∷ []) refl

abbrev added_addresses : List Str
added_addresses = codes "1.1.1.1/32" ∷ codes "2.2.2.2/32" ∷ []

abbrev after_merge : State
after_merge =
    result_of (with_lock_retry (merge_addresses server ip_set added_addresses) (pos 1) start)

merge_run :
    with_lock_retry (merge_addresses server ip_set added_addresses) (pos 1) start
    ≡ (ok true, after_merge)
unfolding with_lock_retry merge_addresses ◌>>=◌ ◌==◌
merge_run = refl

merge-Merged_example :
    Merged server ip_set addresses_of addresses-IsOptimistic added_addresses start after_merge true
merge-Merged_example =
    merge-Merged server ip_set addresses_of addresses-IsOptimistic added_addresses (pos 1) start
      after_merge true merge_run

merged_twice :
    (new : List Str) × (dedupe ((codes "a" ∷ codes "b" ∷ []) ++ codes "b" ∷ codes "c" ∷ [])
      ≡ (codes "a" ∷ codes "b" ∷ []) ++ new)
    × Distinct (dedupe ((codes "a" ∷ codes "b" ∷ []) ++ codes "b" ∷ codes "c" ∷ []))
    × ((n : Str)
        → member n (dedupe ((codes "a" ∷ codes "b" ∷ []) ++ codes "b" ∷ codes "c" ∷ []))
          ≡ (member n (codes "a" ∷ codes "b" ∷ []) || member n (codes "b" ∷ codes "c" ∷ [])))
unfolding member ◌==◌
merged_twice =
    dedupe-append (codes "a" ∷ codes "b" ∷ []) (codes "b" ∷ codes "c" ∷ []) (refl, (refl, tt))

-- With no retry left, the contended update fails for good.
exhausted_run : with_lock_retry (merge_addresses server ip_set added_addresses) (pos 0) start ≡ (
  raised allowlist_error,
  result_of (with_lock_retry (merge_addresses server ip_set added_addresses) (pos 0) start),
)
unfolding with_lock_retry merge_addresses ◌>>=◌ ◌==◌
exhausted_run = refl

with_lock_retry-ne-retryable_example : is_retryable_waf_error allowlist_error ≡ false
with_lock_retry-ne-retryable_example =
    with_lock_retry-ne-retryable (merge_addresses server ip_set added_addresses) (pos 0) start _
      allowlist_error exhausted_run

abbrev quiet : State
quiet = record start { contended = false }

abbrev after_ensure : State
after_ensure =
    result_of (ensure_ip_set server (pos 0) (codes "set") (codes "2.2.2.2/32" ∷ []) quiet)

apply_allowlist-bad_priority_example :
    (apply_allowlist server (pos 0) none (codes "set") perf 100 (codes "2.2.2.2/32" ∷ []) quiet
      ≡ (raised usage_error, after_ensure))
    × (exit_code
          (apply_allowlist server
            (pos 0)
            none
            (codes "set")
            perf
            100
            (codes "2.2.2.2/32" ∷ [])
            quiet).0
        ≡ 2)
unfolding resolve_web_acl ensure_ip_set ◌>>=◌ ◌==◌
apply_allowlist-bad_priority_example =
    apply_allowlist-bad_priority server (pos 0) none (codes "set") perf quiet quiet collector refl
      100 (codes "2.2.2.2/32" ∷ []) ip_set after_ensure refl (omega arith)

abbrev acl_of_target : AclSummary → State → WebAcl
acl_of_target target = acl_of

-- The other client gets in once more, and a retry is left.
abbrev busy : State
busy = record after_add { contended = true }

abbrev removal : Outcome (Evidence server) × State
removal = remove_allowlist server (pos 1) none (codes "set") perf busy

remove_allowlist-rule_first_example :
    ((e : Exc) × (removal.0 ≡ raised e) × AclCalls server busy removal.1)
    ⊎ SetLast server acl_of_target
        (λ target. acl-IsOptimistic)
        (pos 1)
        none
        (codes "set")
        perf
        busy
        removal.1
remove_allowlist-rule_first_example =
    remove_allowlist-rule_first server acl_of_target (λ target. acl-IsOptimistic) (pos 1) none
      (codes "set") perf busy removal.1 removal.0 refl
