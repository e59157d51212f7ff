-- ===== src/BranchLock/Toggle/Body.antt =====
-- `_protection_put_body`: the rule that is sent back, with the wanted state of the lock.
use telemetry_platform.Base.{
  Bool, false, none, some, List, [], ◌∷◌, Str, codes, Outcome, ok, raised, key_error, type_error,
  attribute_error, need, ◌>>=◌,
}
use telemetry_platform.Base.Dict.{Dict, get}
use telemetry_platform.Base.Int.{pos}
use telemetry_platform.Json.{
  Json, null, bool, int, arr, obj, str, end, nil, items, of_dict, as_dict, get_or_null, get_or,
  of_list,
}

-- `{…} if v is not None else None`, where the object is made from the dict `v`
abbrev unless_null : Json → (Dict Json → Outcome Json) → Outcome Json
unless_null null build = ok null
unless_null v build = elim (as_dict v) [ some d ↦ build d | none ↦ raised attribute_error ]

unfoldable pub status_checks : Dict Json → Outcome Json
unfolding get_or
status_checks d = ok (
    obj (
      of_dict (
        (codes "strict", get_or (codes "strict") (bool false) d)
        ∷ (codes "contexts", get_or (codes "contexts") (arr nil) d)
        ∷ [])))

unfoldable pub review_rules : Dict Json → Outcome Json
unfolding get_or
review_rules d = ok (
    obj (
      of_dict (
        (codes "dismiss_stale_reviews", get_or (codes "dismiss_stale_reviews") (bool false) d)
        ∷ (
          codes "require_code_owner_reviews",
          get_or (codes "require_code_owner_reviews") (bool false) d,
        )
        ∷ (
          codes "required_approving_review_count",
          get_or (codes "required_approving_review_count") (int (pos 0)) d,
        )
        ∷ [])))

-- [v[key] for v in vs]
unfoldable pub pluck : Str → List Json → Outcome (List Json)
unfolding get
pluck key [] = ok []
pluck key (v ∷ vs) = do
  d ← need type_error (as_dict v)
  x ← need key_error (get key d)
  xs ← pluck key vs
  ok (x ∷ xs)

-- The iteration over `v`: a text or an object that is not empty gives texts, which have no keys.
abbrev pluck_from : Str → Json → Outcome Json
pluck_from key (arr vs) = pluck key (items vs) >>= λ xs. ok (arr (of_list xs))
pluck_from key (str []) = ok (arr nil)
pluck_from key (obj end) = ok (arr nil)
pluck_from key v = raised type_error

unfoldable pub restriction_rules : Dict Json → Outcome Json
unfolding get_or pluck
restriction_rules d = do
  users ← pluck_from (codes "login") (get_or (codes "users") (arr nil) d)
  teams ← pluck_from (codes "slug") (get_or (codes "teams") (arr nil) d)
  apps ← pluck_from (codes "slug") (get_or (codes "apps") (arr nil) d)
  ok (obj (of_dict ((codes "users", users) ∷ (codes "teams", teams) ∷ (codes "apps", apps) ∷ [])))

-- protection.get(key, {}).get("enabled", False)
unfoldable pub enabled_of : Str → Dict Json → Outcome Json
unfolding get_or
enabled_of key protection = do
  d ← need attribute_error (as_dict (get_or key (obj end) protection))
  ok (get_or (codes "enabled") (bool false) d)

-- _protection_put_body, before json.dumps
unfoldable pub put_body : Dict Json → Bool → Outcome Json
unfolding get_or_null status_checks review_rules restriction_rules enabled_of
put_body protection lock = do
  checks ← unless_null (get_or_null (codes "required_status_checks") protection) status_checks
  reviews ←
      unless_null (get_or_null (codes "required_pull_request_reviews") protection) review_rules
  restrictions ← unless_null (get_or_null (codes "restrictions") protection) restriction_rules
  admins ← enabled_of (codes "enforce_admins") protection
  linear ← enabled_of (codes "required_linear_history") protection
  pushes ← enabled_of (codes "allow_force_pushes") protection
  deletions ← enabled_of (codes "allow_deletions") protection
  resolution ← enabled_of (codes "required_conversation_resolution") protection
  ok (
      obj (
        of_dict (
          (codes "required_status_checks", checks)
          ∷ (codes "enforce_admins", admins)
          ∷ (codes "required_pull_request_reviews", reviews)
          ∷ (codes "restrictions", restrictions)
          ∷ (codes "required_linear_history", linear)
          ∷ (codes "allow_force_pushes", pushes)
          ∷ (codes "allow_deletions", deletions)
          ∷ (codes "required_conversation_resolution", resolution)
          ∷ (codes "lock_branch", bool lock)
          ∷ [])))
