-- ===== src/Allowlist/Dedupe.antt =====
-- `_dedupe`.
pub mod Laws
use telemetry_platform.Base.{
  ℕ, ◌≡◌, refl, ◌∙◌, Bool, true, false, ◌||◌, List, [], ◌∷◌, ◌++◌, if◌then◌else◌, Str, ◌==◌, eq_iff,
  member, arith, Bool-cases, inl, inr, append-nil, append_assoc,
}
use telemetry_platform.Base.Dict.{Distinct}

-- The loop: `seen` holds what `out` holds.
unfoldable pub dedupe_from : List Str → List Str → List Str
unfolding member
dedupe_from out [] = out
dedupe_from out (item ∷ items) =
    dedupe_from (if member item out then out else out ++ item ∷ []) items

-- _dedupe
unfoldable pub dedupe : List Str → List Str
unfolding dedupe_from
dedupe = dedupe_from []
