-- ===== src/Allowlist/IpSet.antt =====
-- `_find_ip_set`, `ensure_ip_set` and `delete_ip_set`.
pub mod Merge
use telemetry_platform.Base.{
  ℕ, Bool, true, false, Option, none, some, List, [], ◌∷◌, ◌++◌, if◌then◌else◌, Str, ◌==◌,
  find_first, Exc, Outcome, ok, raised, usage_error,
}
use telemetry_platform.Base.Int.{ℤ}
use telemetry_platform.Allowlist.Client.{Waf, SetSummary, Call, ◌>>=◌, pure, fail}
use telemetry_platform.Allowlist.Retry.{with_lock_retry, is_nonexistent_item_error}
use telemetry_platform.Allowlist.Dedupe.{dedupe}

-- Equality of lists of texts.
unfoldable pub same_list : List Str → List Str → Bool
same_list [] [] = true
same_list (x ∷ xs) (y ∷ ys) = let rest = same_list xs ys in if x == y then rest else false
same_list _ _ = false

module _ (waf : Waf) where
  open waf use {Server, list_ip_sets, create_ip_set, get_ip_set, update_ip_set, delete_ip_set}

  -- _find_ip_set
  unfoldable pub find_ip_set : Str → Call Server (Option SetSummary)
  find_ip_set name = do
    summaries ← list_ip_sets
    pure (find_first (λ (s : SetSummary). s.name == name) summaries)

  -- `if merged == addresses: return`, else the update; True when the set was updated
  unfoldable pub write_merged : SetSummary → List Str → Str → Bool → Call Server Bool
  write_merged existing merged lock true = pure false
  write_merged existing merged lock false =
      update_ip_set existing.name existing.id merged lock >>= λ _. pure true

  -- _merge
  unfoldable pub merge_addresses : SetSummary → List Str → Call Server Bool
  unfolding dedupe same_list write_merged
  merge_addresses existing add_cidrs = do
    current ← get_ip_set existing.name existing.id
    write_merged existing (dedupe (current.0 ++ add_cidrs)) current.1
        (same_list (dedupe (current.0 ++ add_cidrs)) current.0)

  unfoldable pub ensure_found : ℤ → Str → List Str → Option SetSummary → Call Server SetSummary
  unfolding merge_addresses with_lock_retry dedupe
  ensure_found retries name add_cidrs none = do
    created ← create_ip_set name (dedupe add_cidrs)
    pure (record { name = name; id = created.id; arn = created.arn })
  ensure_found retries name [] (some existing) = pure existing
  ensure_found retries name (c ∷ cs) (some existing) = do
    done ← with_lock_retry (merge_addresses existing (c ∷ cs)) retries
    pure existing

  -- ensure_ip_set
  unfoldable pub ensure_ip_set : ℤ → Str → List Str → Call Server SetSummary
  unfolding find_ip_set ensure_found
  ensure_ip_set retries name add_cidrs = do
    existing ← find_ip_set name
    ensure_found retries name add_cidrs existing

  -- _attempt of delete_ip_set
  unfoldable pub delete_attempt : SetSummary → Call Server (Unit {0})
  delete_attempt existing = do
    current ← get_ip_set existing.name existing.id
    delete_ip_set existing.name existing.id current.1

  -- `except Exception`: a vanished item is no error
  unfoldable pub deleted_or_gone : Outcome (Unit {0}) → Outcome Bool
  unfolding is_nonexistent_item_error
  deleted_or_gone (ok _) = ok true
  deleted_or_gone (raised e) = if is_nonexistent_item_error e then ok false else raised e

  unfoldable pub delete_found : ℤ → Option SetSummary → Call Server Bool
  unfolding with_lock_retry delete_attempt deleted_or_gone
  delete_found retries none s = (ok false, s)
  delete_found retries (some existing) s =
      let (r, s') = with_lock_retry (delete_attempt existing) retries s in (deleted_or_gone r, s')

  -- delete_ip_set
  unfoldable pub delete_set : ℤ → Str → Call Server Bool
  unfolding find_ip_set delete_found
  delete_set retries name = do existing ← find_ip_set name; delete_found retries existing
